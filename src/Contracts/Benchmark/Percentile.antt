-- ===== src/Contracts/Benchmark/Percentile.antt =====
-- The percentile is the nearest rank: the value with that many values not above it.
use mathlib.Core.Path.{subst}
use mac_llm_ops_lab.Prelude.{
  ℕ, zero, suc, ◌-◌, ◌≤◌, ◌<◌, ◌≡◌, ◌⊎◌, inl, inr, refl, ap, ◌∙◌, Bool, true, false, not, some,
  List, [], ◌∷◌, arith, length, any, sum_if, In, All, Bool-cases,
}
use mac_llm_ops_lab.Py.Result.{ok}
use mac_llm_ops_lab.Contracts.Benchmark.{
  NumberOps, insert, insertion_sort, sort, get_elem?, percentile,
}

-- `<` orders the numbers that are no NaN.
pub record IsWeakOrder {Float : Type 0} (F : NumberOps Float) : Type 0 where
  pub asymm :
      (a b : F.Number)
      → F.is_nan a ≡ false
      → F.is_nan b ≡ false
      → F.lt a b ≡ true
      → F.lt b a ≡ false
  pub weak :
      (a b c : F.Number)
      → F.is_nan a ≡ false
      → F.is_nan b ≡ false
      → F.is_nan c ≡ false
      → F.lt a c ≡ true
      → F.lt a b ≡ false
      → F.lt b c ≡ true

-- How many satisfy `p`.
abbrev pub count : {A : Type 0} → (A → Bool) → List A → ℕ
count p xs = sum_if p (λ _. 1) xs

module _ {Float : Type 0} (F : NumberOps Float) where
  open F use {Number, lt, is_nan}

  abbrev AreNumbers : List Number → Type 0
  AreNumbers vs = All (λ v. is_nan v ≡ false) vs

  AreNumbers-any : (vs : List Number) → any is_nan vs ≡ false → AreNumbers vs
  AreNumbers-any [] h = tt
  AreNumbers-any (v ∷ vs) h = (ground arith, AreNumbers-any vs (ground arith))

  AreNumbers-insert :
      (v : Number) (vs : List Number)
      → is_nan v ≡ false
      → AreNumbers vs
      → AreNumbers (insert F v vs)
  unfolding insert
  AreNumbers-insert v [] h n = (h, tt)
  AreNumbers-insert v (w ∷ ws) h n = elim (Bool-cases (lt w v)) [
    | inl before ↦ rw before (n.0, AreNumbers-insert v ws h n.1)
    | inr after ↦ rw after (h, n)
  ]

  AreNumbers-insertion_sort : (vs : List Number) → AreNumbers vs → AreNumbers (insertion_sort F vs)
  unfolding insertion_sort
  AreNumbers-insertion_sort [] n = tt
  AreNumbers-insertion_sort (v ∷ vs) n =
      AreNumbers-insert v (insertion_sort F vs) n.0 (AreNumbers-insertion_sort vs n.1)

  count-insert :
      (p : Number → Bool) (v : Number) (vs : List Number)
      → count p (insert F v vs) ≡ count p (v ∷ vs)
  unfolding insert
  count-insert p v [] = refl
  count-insert p v (w ∷ ws) = ground (arith, count-insert p v ws)

  count-insertion_sort :
      (p : Number → Bool) (vs : List Number) → count p (insertion_sort F vs) ≡ count p vs
  unfolding insertion_sort
  count-insertion_sort p [] = refl
  count-insertion_sort p (v ∷ vs) =
      omega (arith, count-insert p v (insertion_sort F vs), count-insertion_sort p vs)

  length-insert : (v : Number) (vs : List Number) → length (insert F v vs) ≡ suc (length vs)
  unfolding insert
  length-insert v [] = refl
  length-insert v (w ∷ ws) = ground (arith, length-insert v ws)

  pub length-insertion_sort : (vs : List Number) → length (insertion_sort F vs) ≡ length vs
  unfolding insertion_sort
  length-insertion_sort [] = refl
  length-insertion_sort (v ∷ vs) =
      omega (arith, length-insert v (insertion_sort F vs), length-insertion_sort vs)

  insert-In : (a v : Number) (vs : List Number) → In a (insert F v vs) → (a ≡ v) ⊎ In a vs
  unfolding insert
  insert-In a v [] (inl e) = inl e
  insert-In a v [] (inr x) = absurd x
  insert-In a v (w ∷ ws) i = elim (Bool-cases (lt w v)) [
    | inl before ↦ elim (rw before at i) [
      | inl e ↦ inr (inl e)
      | inr later ↦ elim (insert-In a v ws later) [ inl e ↦ inl e | inr j ↦ inr (inr j) ]
    ]
    | inr after ↦ elim (rw after at i) [ inl e ↦ inl e | inr j ↦ inr j ]
  ]

  pub insertion_sort-In : (a : Number) (vs : List Number) → In a (insertion_sort F vs) → In a vs
  unfolding insertion_sort
  insertion_sort-In a [] i = i
  insertion_sort-In a (v ∷ vs) i = elim (insert-In a v (insertion_sort F vs) i) [
    | inl e ↦ inl e
    | inr j ↦ inr (insertion_sort-In a vs j)
  ]

  module _ (order : IsWeakOrder F) where
    -- Nothing in the list is below `v`.
    abbrev IsFloor : Number → List Number → Type 0
    IsFloor v ws = All (λ w. lt w v ≡ false) ws

    abbrev IsSorted : List Number → Type 0
    IsSorted [] = Unit
    IsSorted (v ∷ vs) = IsFloor v vs × IsSorted vs

    IsFloor-insert :
        (a v : Number) (vs : List Number)
        → lt v a ≡ false
        → IsFloor a vs
        → IsFloor a (insert F v vs)
    unfolding insert
    IsFloor-insert a v [] h f = (h, tt)
    IsFloor-insert a v (w ∷ ws) h f = elim (Bool-cases (lt w v)) [
      | inl before ↦ rw before (f.0, IsFloor-insert a v ws h f.1)
      | inr after ↦ rw after (h, f)
    ]

    -- What is not above a floor is a floor.
    lower-IsFloor :
        (a v : Number) (vs : List Number)
        → AreNumbers (a ∷ v ∷ vs)
        → lt a v ≡ false
        → IsFloor a vs
        → IsFloor v vs
    lower-IsFloor a v [] n h f = tt
    lower-IsFloor a v (w ∷ ws) (na, (nv, (nw, n))) h f = (
      elim (Bool-cases (lt w v)) [
        | inl below ↦ cc (order.weak w a v nw na nv below f.0)
        | inr above ↦ above
      ],
      lower-IsFloor a v ws (na, (nv, n)) h f.1,
    )

    insert-IsSorted :
        (v : Number) (vs : List Number)
        → AreNumbers (v ∷ vs)
        → IsSorted vs
        → IsSorted (insert F v vs)
    unfolding insert
    insert-IsSorted v [] n s = (tt, tt)
    insert-IsSorted v (w ∷ ws) (nv, (nw, n)) s = elim (Bool-cases (lt w v)) [
      | inl before ↦ rw before (
        IsFloor-insert w v ws (order.asymm w v nw nv before) s.0,
        insert-IsSorted v ws (nv, n) s.1,
      )
      | inr after ↦ rw after ((after, lower-IsFloor w v ws (nw, (nv, n)) after s.0), s)
    ]

    pub insertion_sort-IsSorted :
        (vs : List Number) → AreNumbers vs → IsSorted (insertion_sort F vs)
    unfolding insertion_sort
    insertion_sort-IsSorted [] n = tt
    insertion_sort-IsSorted (v ∷ vs) n =
        insert-IsSorted v (insertion_sort F vs) (n.0, AreNumbers-insertion_sort vs n.1)
          (insertion_sort-IsSorted vs n.1)

    lt_self : (v : Number) → is_nan v ≡ false → lt v v ≡ false
    lt_self v n = elim (Bool-cases (lt v v)) [ inl h ↦ order.asymm v v n n h | inr h ↦ h ]

    count-floor : (v : Number) (ws : List Number) → IsFloor v ws → count (λ w. lt w v) ws ≡ 0
    count-floor v [] f = refl
    count-floor v (w ∷ ws) f = rw f.0 (omega (arith, count-floor v ws f.1))

    floor-In : (a v : Number) (ws : List Number) → IsFloor a ws → In v ws → lt v a ≡ false
    floor-In a v [] f i = absurd i
    floor-In a v (w ∷ ws) f (inl e) = ap (λ x. lt x a) e ∙ f.0
    floor-In a v (w ∷ ws) f (inr i) = floor-In a v ws f.1 i

    first_rank :
        (y : Number) (ys : List Number)
        → is_nan y ≡ false
        → IsFloor y ys
        → In y (y ∷ ys)
          × (0 < count (λ w. not (lt y w)) (y ∷ ys))
          × (count (λ w. lt w y) (y ∷ ys) ≤ 0)
    first_rank y ys n f = (
      inl refl,
      rw (lt_self y n) (omega arith),
      rw (lt_self y n) (omega (arith, count-floor y ys f)),
    )

    percentile-found :
        (rank : ℕ → ℕ) (values : List Number) (v : Number)
        → any is_nan values ≡ false
        → get_elem? F (insertion_sort F values) (rank (length values) - 1) ≡ some v
        → percentile F rank values ≡ ok v
    unfolding percentile sort
    percentile-found rank values v n h = ground (arith, n, h)

    -- The value at an index of a sorted list: more than so many are not above it, and no more than
    -- so many are below it.
    rank_lem :
        (ys : List Number) (i : ℕ) (v : Number)
        → AreNumbers ys
        → IsSorted ys
        → get_elem? F ys i ≡ some v
        → In v ys × (i < count (λ w. not (lt v w)) ys) × (count (λ w. lt w v) ys ≤ i)
    rank_lem [] i v n s h = cc
    rank_lem (y ∷ ys) zero v n s h =
        let e : y ≡ v = cc in
        subst
          (λ x.
            In x (y ∷ ys)
            × (0 < count (λ w. not (lt x w)) (y ∷ ys))
            × (count (λ w. lt w x) (y ∷ ys) ≤ 0))
          e (first_rank y ys n.0 s.0)
    rank_lem (y ∷ ys) (suc i) v n s h =
        let (j, many, few) = rank_lem ys i v n.1 s.1 h in
        (inr j, rw (floor-In y v ys s.0 j) (omega arith), ground arith)

    get_elem?_found :
        (ys : List Number) (i : ℕ) → i < length ys → (v : Number) × (get_elem? F ys i ≡ some v)
    get_elem?_found [] i h = absurd (omega arith)
    get_elem?_found (y ∷ ys) zero h = (y, refl)
    get_elem?_found (y ∷ ys) (suc i) h = get_elem?_found ys i (omega arith)

    -- The 95th percentile, under the assumption that `<` orders the numbers that are no NaN, of
    -- values none of which is a NaN, where the rank of their number is at least 1 and at most their
    -- number: it is found, it is one of the values, at least as many values as the rank are not
    -- above it, and fewer values than the rank are below it.
    pub percentile_lem :
        (rank : ℕ → ℕ) (values : List Number)
        → any is_nan values ≡ false
        → 1 ≤ rank (length values)
        → rank (length values) ≤ length values
        → (v : Number) × (percentile F rank values ≡ ok v)
          × In v values
          × (rank (length values) ≤ count (λ w. not (lt v w)) values)
          × (count (λ w. lt w v) values < rank (length values))
    percentile_lem rank values n low high =
        let i : ℕ = rank (length values) - 1 in
        let sorted : List Number = insertion_sort F values in
        let numbers = AreNumbers-any values n in
        let (v, found) = get_elem?_found sorted i (omega (arith, length-insertion_sort values)) in
        let (j, many, few) =
          rank_lem sorted i v (AreNumbers-insertion_sort values numbers)
            (insertion_sort-IsSorted values numbers) found in
        (
          v,
          percentile-found rank values v n found,
          insertion_sort-In v values j,
          omega (arith, count-insertion_sort (λ w. not (lt v w)) values),
          omega (arith, count-insertion_sort (λ w. lt w v) values),
        )
