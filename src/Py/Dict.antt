-- ===== src/Py/Dict.antt =====
-- Python's `dict`, in insertion order: a write to a present key keeps its place.
use mac_llm_ops_lab.Prelude.{
  false, Bool-cases, inl, inr, true, ℕ, ◌+◌, ◌≡◌, refl, Bool, false, ◌||◌, Option, none, some, List,
  [], ◌∷◌, ◌++◌, arith, Eq, ◌==◌, ==_refl, elem, if◌then◌else◌,
}

abbrev pub Dict {ℓ κ} : Type ℓ → Type κ → Type (ℓ ⊔ κ)
Dict K V = List (K × V)

module _ {ℓ κ} {K : Type ℓ} {V : Type κ} where
  abbrev pub keys : Dict K V → List K
  keys [] = []
  keys ((k, v) ∷ d) = k ∷ keys d

  abbrev pub values : Dict K V → List V
  values [] = []
  values ((k, v) ∷ d) = v ∷ values d

module _ {ℓ κ} {K : Type ℓ} {V : Type κ} ⦃e : Eq K⦄ where
  -- `d.get(k)`
  unfoldable pub get : K → Dict K V → Option V
  get k [] = none
  get k ((j, v) ∷ d) = if k == j then some v else get k d

  -- `d[k] = v`
  unfoldable pub put : K → V → Dict K V → Dict K V
  put k v [] = (k, v) ∷ []
  put k v ((j, w) ∷ d) = let rest = put k v d in if k == j then (j, v) ∷ d else (j, w) ∷ rest

  -- `k in d`
  unfoldable pub contains : K → Dict K V → Bool
  contains k [] = false
  contains k ((j, v) ∷ d) = k == j || contains k d

module _ {ℓ κ} {K : Type ℓ} {V : Type κ} ⦃e : Eq K⦄ where
  pub get-put :
      (j k : K) (v : V) (d : Dict K V) → get j (put k v d) ≡ (if j == k then some v else get j d)
  unfolding get put
  get-put j k v [] = refl
  get-put j k v ((i, w) ∷ d) =
      ground (arith, get-put j k v d, e.beq_iff j k, e.beq_iff k i, e.beq_iff j i)

  pub get-put_self : (k : K) (v : V) (d : Dict K V) → get k (put k v d) ≡ some v
  get-put_self k v d = rw (get-put, ==_refl k)

  -- The keys after a write: those before it, with a new key at the end.
  pub keys-put :
      (k : K) (v : V) (d : Dict K V)
      → keys (put k v d) ≡ (if contains k d then keys d else keys d ++ k ∷ [])
  unfolding put contains
  keys-put k v [] = refl
  keys-put k v ((j, w) ∷ d) = ground (arith, keys-put k v d)

  pub contains-elem : (k : K) (d : Dict K V) → contains k d ≡ elem k (keys d)
  unfolding contains
  contains-elem k [] = refl
  contains-elem k ((j, w) ∷ d) = ground (arith, contains-elem k d)

module _ {ℓ} {K : Type ℓ} ⦃e : Eq K⦄ where
  -- `d.get(k, 0)`
  unfoldable pub count_at : K → Dict K ℕ → ℕ
  unfolding get
  count_at k d = elim (get k d) [ none ↦ 0 | some n ↦ n ]

  -- `d[k] = d.get(k, 0) + n`
  unfoldable pub bump : K → ℕ → Dict K ℕ → Dict K ℕ
  bump k n d = put k (count_at k d + n) d

  pub count_at-bump :
      (j k : K) (n : ℕ) (d : Dict K ℕ)
      → count_at j (bump k n d) ≡ count_at j d + (if j == k then n else 0)
  unfolding count_at bump
  count_at-bump j k n d = ground (arith, get-put j k (count_at k d + n) d, e.beq_iff j k)

module _ {ℓ κ} {K : Type ℓ} {V : Type κ} ⦃e : Eq K⦄ where
  pub get-contains : (k : K) (d : Dict K V) → contains k d ≡ true → (v : V) × (get k d ≡ some v)
  unfolding get contains
  get-contains k [] h = cc
  get-contains k ((j, v) ∷ d) h = elim (Bool-cases (k == j)) [
    | inl here ↦ (v, rw here)
    | inr there ↦ let (w, found) = get-contains k d (rw there at h) in (w, rw there found)
  ]

  pub contains-put :
      (j k : K) (v : V) (d : Dict K V) → contains j (put k v d) ≡ (j == k || contains j d)
  unfolding contains put
  contains-put j k v [] = ground arith
  contains-put j k v ((i, w) ∷ d) =
      ground (arith, contains-put j k v d, e.beq_iff j k, e.beq_iff k i, e.beq_iff j i)

module _ {ℓ κ} {K : Type ℓ} {V : Type κ} ⦃e : Eq K⦄ where
  pub values-put_new :
      (k : K) (v : V) (d : Dict K V)
      → contains k d ≡ false
      → values (put k v d) ≡ values d ++ v ∷ []
  unfolding contains put
  values-put_new k v [] h = refl
  values-put_new k v ((j, w) ∷ d) h = ground (arith, values-put_new k v d)
