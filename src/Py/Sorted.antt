-- ===== src/Py/Sorted.antt =====
-- `sorted` on the items of a dictionary, whose keys are distinct texts, and on texts.
use mac_llm_ops_lab.Prelude.{
  List, foldl, map, add_elem, string_eq, String, ◌≡◌, refl, ap, ◌∙◌, true, false, [], ◌∷◌, arith,
  Bool-cases, inl, inr, if◌then◌else◌,
}
use mac_llm_ops_lab.Py.Str.{str_ltb}
use mac_llm_ops_lab.Py.Dict.{Dict, keys}

-- The order of texts is a strict weak order.
pub str_ltb_asymm : (s t : String) → str_ltb s t ≡ true → str_ltb t s ≡ false
unfolding str_ltb
str_ltb_asymm String.[] String.[] h = cc
str_ltb_asymm String.[] (String.◌∷◌ d t) h = refl
str_ltb_asymm (String.◌∷◌ c s) String.[] h = cc
str_ltb_asymm (String.◌∷◌ c s) (String.◌∷◌ d t) h = ground (arith, str_ltb_asymm s t)

pub str_ltb_weak : (s t u : String) → str_ltb s u ≡ true → str_ltb s t ≡ false → str_ltb t u ≡ true
unfolding str_ltb
str_ltb_weak String.[] t String.[] h k = cc
str_ltb_weak (String.◌∷◌ c s) t String.[] h k = cc
str_ltb_weak String.[] String.[] (String.◌∷◌ e u) h k = refl
str_ltb_weak String.[] (String.◌∷◌ d t) (String.◌∷◌ e u) h k = cc
str_ltb_weak (String.◌∷◌ c s) String.[] (String.◌∷◌ e u) h k = refl
str_ltb_weak (String.◌∷◌ c s) (String.◌∷◌ d t) (String.◌∷◌ e u) h k =
    ground (arith, str_ltb_weak s t u)

module _ {V : Type 0} where
  unfoldable pub insert_item : String → V → Dict String V → Dict String V
  insert_item k v [] = (k, v) ∷ []
  insert_item k v ((j, w) ∷ d) =
      let rest = insert_item k v d in if str_ltb j k then (j, w) ∷ rest else (k, v) ∷ (j, w) ∷ d

  -- `sorted(d.items())`
  unfoldable pub sort_items : Dict String V → Dict String V
  unfolding insert_item
  sort_items [] = []
  sort_items ((k, v) ∷ d) = insert_item k v (sort_items d)

  -- No key comes before the key in front of it.
  abbrev pub IsAbove : String → Dict String V → Type 0
  IsAbove k [] = Unit
  IsAbove k ((j, w) ∷ d) = str_ltb j k ≡ false

  abbrev pub IsSorted : Dict String V → Type 0
  IsSorted [] = Unit
  IsSorted ((k, v) ∷ d) = IsAbove k d × IsSorted d

  insert_item-IsAbove :
      (j k : String) (v : V) (d : Dict String V)
      → str_ltb k j ≡ false
      → IsAbove j d
      → IsAbove j (insert_item k v d)
  unfolding insert_item
  insert_item-IsAbove j k v [] h a = h
  insert_item-IsAbove j k v ((i, w) ∷ d) h a = ground arith

  insert_item-IsSorted :
      (k : String) (v : V) (d : Dict String V) → IsSorted d → IsSorted (insert_item k v d)
  unfolding insert_item
  insert_item-IsSorted k v [] s = (tt, tt)
  insert_item-IsSorted k v ((j, w) ∷ d) s = elim (Bool-cases (str_ltb j k)) [
    | inl before ↦
        rw before (
          insert_item-IsAbove j k v d (str_ltb_asymm j k before) s.0,
          insert_item-IsSorted k v d s.1,
        )
    | inr after ↦ rw after (after, s)
  ]

  pub sort_items-IsSorted : (d : Dict String V) → IsSorted (sort_items d)
  unfolding sort_items
  sort_items-IsSorted [] = tt
  sort_items-IsSorted ((k, v) ∷ d) = insert_item-IsSorted k v (sort_items d) (sort_items-IsSorted d)

  insert_item_above :
      (k : String) (v : V) (d : Dict String V) → IsAbove k d → insert_item k v d ≡ (k, v) ∷ d
  unfolding insert_item
  insert_item_above k v [] a = refl
  insert_item_above k v ((j, w) ∷ d) a = rw a

  pub sort_items_sorted : (d : Dict String V) → IsSorted d → sort_items d ≡ d
  unfolding sort_items
  sort_items_sorted [] s = refl
  sort_items_sorted ((k, v) ∷ d) s =
      ap (insert_item k v) (sort_items_sorted d s.1) ∙ insert_item_above k v d s.0

  -- Sorting twice is sorting once.
  pub sort_items-sort_items : (d : Dict String V) → sort_items (sort_items d) ≡ sort_items d
  sort_items-sort_items d = sort_items_sorted (sort_items d) (sort_items-IsSorted d)

  -- Sorting keeps what holds of every item.
  abbrev pub AllItems : (String → V → Type 0) → Dict String V → Type 0
  AllItems P [] = Unit
  AllItems P ((k, v) ∷ d) = P k v × AllItems P d

  insert_item-AllItems :
      (P : String → V → Type 0) (k : String) (v : V) (d : Dict String V)
      → P k v
      → AllItems P d
      → AllItems P (insert_item k v d)
  unfolding insert_item
  insert_item-AllItems P k v [] p a = (p, tt)
  insert_item-AllItems P k v ((j, w) ∷ d) p a = elim (Bool-cases (str_ltb j k)) [
    | inl before ↦ rw before (a.0, insert_item-AllItems P k v d p a.1)
    | inr after ↦ rw after (p, a)
  ]

  pub sort_items-AllItems :
      (P : String → V → Type 0) (d : Dict String V) → AllItems P d → AllItems P (sort_items d)
  unfolding sort_items
  sort_items-AllItems P [] a = tt
  sort_items-AllItems P ((k, v) ∷ d) a =
      insert_item-AllItems P k v (sort_items d) a.0 (sort_items-AllItems P d a.1)

  insert_item-AllItems_again :
      (P : String → V → Type 0) (k : String) (v : V) (d : Dict String V)
      → AllItems P (insert_item k v d)
      → P k v × AllItems P d
  unfolding insert_item
  insert_item-AllItems_again P k v [] a = a
  insert_item-AllItems_again P k v ((j, w) ∷ d) a = elim (Bool-cases (str_ltb j k)) [
    | inl before ↦
        let b = rw before at a in
        let (p, rest) = insert_item-AllItems_again P k v d b.1 in (p, (b.0, rest))
    | inr after ↦ rw after at a
  ]

  -- What holds of every item after sorting held before.
  pub sort_items-AllItems_again :
      (P : String → V → Type 0) (d : Dict String V) → AllItems P (sort_items d) → AllItems P d
  unfolding sort_items
  sort_items-AllItems_again P [] a = tt
  sort_items-AllItems_again P ((k, v) ∷ d) a =
      let (p, rest) = insert_item-AllItems_again P k v (sort_items d) a in
      (p, sort_items-AllItems_again P d rest)

  insert_item-cons : (k : String) (v : V) (d : Dict String V) → insert_item k v d ≡ [] → ⊥
  unfolding insert_item
  insert_item-cons k v [] h = cc
  insert_item-cons k v ((j, w) ∷ d) h = elim (Bool-cases (str_ltb j k)) [
    | inl before ↦ cc (rw before at h)
    | inr after ↦ cc (rw after at h)
  ]

  pub sort_items-cons : (k : String) (v : V) (d : Dict String V) → sort_items ((k, v) ∷ d) ≡ [] → ⊥
  unfolding sort_items
  sort_items-cons k v d = insert_item-cons k v (sort_items d)

-- `set(xs)`, in the order of insertion, and `sorted(xs)` of distinct texts.
abbrev pub set_of : List String → List String
set_of xs = foldl (λ seen x. add_elem x seen) [] xs

abbrev pub sorted_texts : List String → List String
sorted_texts xs = keys (sort_items (map (λ x. (x, tt)) xs))
