-- ===== src/Persistence/Repositories/Kept.antt =====
-- The repositories over dictionaries keep the promise of the ports: each dictionary has an entry
-- under its own identifier, once.
use mac_llm_ops_lab.Prelude.{
  In, String, ◌≡◌, refl, ap, ◌∙◌, ◌⊎◌, inl, inr, Bool, true, false, some, List, [], ◌∷◌, ◌==◌,
  string_eq, keep, arith, Bool-cases,
}
use mac_llm_ops_lab.Py.Dict.{Dict, get, put, contains, values, contains-put}

module _ {T : Type 0} (key : T → String) where
  abbrev pub IsKeyed : Dict String T → Type 0
  IsKeyed [] = Unit
  IsKeyed ((k, v) ∷ d) = (key v ≡ k) × (contains k d ≡ false) × IsKeyed d

  pub put-IsKeyed : (v : T) (d : Dict String T) → IsKeyed d → IsKeyed (put (key v) v d)
  unfolding put contains
  put-IsKeyed v [] h = (refl, refl, tt)
  put-IsKeyed v ((j, w) ∷ d) h = elim (Bool-cases (key v == j)) [
    | inl same ↦ rw same ((string_eq.beq_iff (key v) j).0 same, h.1, h.2)
    | inr other ↦ rw other (
      h.0,
      contains-put j (key v) v d
          ∙ ground (arith, string_eq.beq_iff (key v) j, string_eq.beq_iff j (key v)),
      put-IsKeyed v d h.2,
    )
  ]

  get_contains : (k : String) (e : T) (d : Dict String T) → get k d ≡ some e → contains k d ≡ true
  unfolding get contains
  get_contains k e [] h = cc
  get_contains k e ((j, w) ∷ d) h = ground (arith, get_contains k e d)

  -- What stands in the list of the kept values, for the first value and for the rest.
  In-keep :
      (p : T → Bool) (e v : T) (vs : List T)
      → In e (keep p (v ∷ vs))
      → ((e ≡ v) × (p v ≡ true)) ⊎ In e (keep p vs)
  In-keep p e v vs i = elim (Bool-cases (p v)) [
    | inl kept ↦ elim (rw kept at i) [ inl here ↦ inl (here, kept) | inr there ↦ inr there ]
    | inr dropped ↦ inr (rw dropped at i)
  ]

  keep-In :
      (p : T → Bool) (e v : T) (vs : List T)
      → ((e ≡ v) × (p v ≡ true)) ⊎ In e (keep p vs)
      → In e (keep p (v ∷ vs))
  keep-In p e v vs (inl (here, kept)) = rw kept (inl here)
  keep-In p e v vs (inr there) = elim (Bool-cases (p v)) [
    | inl kept ↦ rw kept (inr there)
    | inr dropped ↦ rw dropped there
  ]

  pub keep_sound :
      (p : T → Bool) (e : T) (d : Dict String T)
      → IsKeyed d
      → In e (keep p (values d))
      → (get (key e) d ≡ some e) × (p e ≡ true)
  unfolding get
  keep_sound p e [] h i = absurd i
  keep_sound p e ((k, v) ∷ d) h i = elim (In-keep p e v (values d) i) [
    | inl (here, kept) ↦ rw here (rw ((string_eq.beq_iff (key v) k).1 h.0) (refl, kept))
    | inr there ↦
        let (found, fits) = keep_sound p e d h.2 there in
        (ground (arith, found, string_eq.beq_iff (key e) k, get_contains k e d, h.1), fits)
  ]

  pub keep_complete :
      (p : T → Bool) (k : String) (e : T) (d : Dict String T)
      → get k d ≡ some e
      → p e ≡ true
      → In e (keep p (values d))
  unfolding get
  keep_complete p k e [] g h = cc
  keep_complete p k e ((j, v) ∷ d) g h = keep-In p e v (values d) (elim (Bool-cases (k == j)) [
    | inl same ↦ let here : some v ≡ some e = rw same at g in inl (cc, cc)
    | inr other ↦ inr (keep_complete p k e d (rw other at g) h)
  ])

pub keep_all : {T : Type 0} (vs : List T) → keep (λ _. true) vs ≡ vs
keep_all [] = refl
keep_all (v ∷ vs) = ap (λ rest. v ∷ rest) (keep_all vs)
