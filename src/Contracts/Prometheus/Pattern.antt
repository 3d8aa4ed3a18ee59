-- ===== src/Contracts/Prometheus/Pattern.antt =====
-- The lines that the pattern of a sample matches.
use mac_llm_ops_lab.Prelude.{
  ℕ, String, ◌≡◌, ◌↔◌, refl, sym, ap, ◌∙◌, inl, inr, Bool, true, false, not, ◌&&◌, some, eqb,
  string_eq, arith, Bool-cases,
}
use mac_llm_ops_lab.Py.Str.{◌<>◌, is_space, lstrip, starts_with_char}
use mac_llm_ops_lab.Contracts.Prometheus.{
  is_name_start, is_name_char, span, starts_in, tail_str, is_value, match_value, match_labels,
  match_sample,
}
use mac_llm_ops_lab.Contracts.Prometheus.Parts.{
  all_chars, span_lem, span-append, lstrip-append, lstrip_lem, IsGap, IsBraced, both, opens_brace,
  closes_brace, found_some, gap_starts, starts_space, name_starts, starts_append, <>-assoc,
}

module _ (is_digit : ℕ → Bool) where
  -- A text as `_SAMPLE_PATTERN` describes it: white space, and a number.
  abbrev pub IsValue : String → String → Type 0
  IsValue gap v = IsGap gap × (starts_in is_space v ≡ false) × (is_value is_digit v ≡ true)

  abbrev pub IsSample : String → String → String → String → Type 0
  IsSample line n l v =
      (part gap : String) × (line ≡ n <> part <> gap <> v)
      × (starts_in is_name_start n ≡ true)
      × (all_chars is_name_char n ≡ true)
      × IsBraced l part
      × IsValue gap v

  IsValue-found :
      (s v : String)
      → match_value is_digit s ≡ some v
      → (gap : String) × (s ≡ gap <> v) × IsValue gap v
  unfolding match_value
  IsValue-found s v h = elim (Bool-cases (starts_in is_space s && is_value is_digit (lstrip s))) [
    | inl fits ↦
        let (gap, e, space, clean, n) = lstrip_lem s in
        let same : some (lstrip s) ≡ some v = rw fits at h in
        let eq : lstrip s ≡ v = cc in
        let (spaced, valued) = both (starts_in is_space s) (is_value is_digit (lstrip s)) fits in
        rw (sym eq) (gap, e, ((space, n ∙ ap not spaced), clean, valued))
    | inr other ↦ cc (rw other at h)
  ]

  value-again : (gap v : String) → IsValue gap v → match_value is_digit (gap <> v) ≡ some v
  unfolding match_value
  value-again String.[] v ((a, b), k, n) = cc
  value-again (String.◌∷◌ c gap) v ((a, b), k, n) =
      rw (lstrip-append (String.◌∷◌ c gap) v a k) (ground arith)

  labels-found :
      (s l v : String)
      → match_labels is_digit s ≡ some (l, v)
      → (part gap : String) × (s ≡ part <> gap <> v) × IsBraced l part × IsValue gap v
  unfolding match_labels
  labels-found s l v h = elim (Bool-cases (starts_with_char b'{' s)) [
    | inl open_brace ↦
        let inside = span (λ c. not (eqb c b'}')) (tail_str s) in
        let (e, lacks, stop) = span_lem (λ c. not (eqb c b'}')) (tail_str s) in
        let h' = rw open_brace at h in
        elim (Bool-cases (starts_with_char b'}' inside.1)) [
          | inl close_brace ↦
              let (x, matched, same) =
                found_some (match_value is_digit (tail_str inside.1)) (λ value. (inside.0, value))
                  (l, v) (rw close_brace at h') in
              let (gap, split, valued) = IsValue-found (tail_str inside.1) x matched in
              rw (sym (ap (λ p. p.0) same)) (
                rw (sym (ap (λ p. p.1) same)) (
                  "{" <> inside.0 <> "}",
                  gap,
                  opens_brace s open_brace
                      ∙ ap (λ t. "{" <> t)
                          (e
                            ∙ ap (λ t. inside.0 <> t)
                                (closes_brace inside.1 close_brace ∙ ap (λ t. "}" <> t) split)
                            ∙ sym (<>-assoc inside.0 "}" (gap <> x))),
                  inr (refl, lacks),
                  valued,
                ))
          | inr other ↦ cc (rw other at h')
        ]
    | inr other ↦
        let (x, matched, same) =
          found_some (match_value is_digit s) (λ value. ("", value)) (l, v) (rw other at h) in
        let (gap, split, valued) = IsValue-found s x matched in
        rw (sym (ap (λ p. p.0) same))
          (rw (sym (ap (λ p. p.1) same)) ("", gap, split, inl (refl, refl), valued))
  ]

  braced-again :
      (l v gap : String)
      → all_chars (λ c. not (eqb c b'}')) l ≡ true
      → IsValue gap v
      → match_labels is_digit (("{" <> l <> "}") <> gap <> v) ≡ some (l, v)
  unfolding match_labels
  braced-again l v gap lacks w =
      let e : span (λ c. not (eqb c b'}')) ((l <> "}") <> gap <> v) ≡ (l, "}" <> gap <> v) =
        ap (span (λ c. not (eqb c b'}'))) (<>-assoc l "}" (gap <> v))
        ∙ span-append (λ c. not (eqb c b'}')) l ("}" <> gap <> v) lacks refl in
      rw e (rw (value-again gap v w) (ap (λ p. some (p.0, v)) e))

  plain-again : (v gap : String) → IsValue gap v → match_labels is_digit (gap <> v) ≡ some ("", v)
  unfolding match_labels
  plain-again v gap w =
      rw ((starts_space (gap <> v) (gap_starts gap v w.0)).1, value-again gap v w) refl

  labels-again :
      (l v part gap : String)
      → IsBraced l part
      → IsValue gap v
      → (match_labels is_digit (part <> gap <> v) ≡ some (l, v))
        × (starts_in is_name_char (part <> gap <> v) ≡ false)
  labels-again l v part gap (inl (no_part, no_labels)) w =
      rw (no_part, no_labels)
        (plain-again v gap w, (starts_space (gap <> v) (gap_starts gap v w.0)).0)
  labels-again l v part gap (inr (given, lacks)) w = (
    ap (λ t. match_labels is_digit (t <> gap <> v)) given ∙ braced-again l v gap lacks w,
    ap (λ t. starts_in is_name_char (t <> gap <> v)) given,
  )

  IsSample-found :
      (line n l v : String) → match_sample is_digit line ≡ some (n, l, v) → IsSample line n l v
  unfolding match_sample
  IsSample-found line n l v h = elim (Bool-cases (starts_in is_name_start line)) [
    | inl start ↦
        let name = span is_name_char line in
        let (e, chars, stop) = span_lem is_name_char line in
        let (x, matched, same) =
          found_some (match_labels is_digit name.1) (λ x. (name.0, x.0, x.1)) (n, l, v)
            (rw start at h) in
        let (part, gap, split, braced, valued) = labels-found name.1 x.0 x.1 matched in
        rw (sym (ap (λ p. p.0) same)) (
          rw (sym (ap (λ p. p.1) same)) (
            rw (sym (ap (λ p. p.2) same)) (
              part,
              gap,
              e ∙ ap (λ t. name.0 <> t) split,
              name_starts line start,
              chars,
              braced,
              valued,
            )))
    | inr other ↦ cc (rw other at h)
  ]

  sample-again :
      (n l v part gap : String)
      → starts_in is_name_start n ≡ true
      → all_chars is_name_char n ≡ true
      → IsBraced l part
      → IsValue gap v
      → match_sample is_digit (n <> part <> gap <> v) ≡ some (n, l, v)
  unfolding match_sample
  sample-again n l v part gap start chars b w =
      let (labels, stop) = labels-again l v part gap b w in
      let e = span-append is_name_char n (part <> gap <> v) chars stop in
      rw (starts_append n (part <> gap <> v) start)
        (rw e (rw labels (ap (λ p. some (p.0, l, v)) e)))

  -- A line is read as a sample with this name, these labels and this value exactly where it is the
  -- name, then nothing or the labels in braces, then white space, and then the value, where the name
  -- has the characters of a metric's name, the labels have no closing brace, and the value is a
  -- number, an infinity or NaN.
  pub match_sample-IsSample :
      (line n l v : String) → (match_sample is_digit line ≡ some (n, l, v)) ↔ IsSample line n l v
  unfolding match_sample
  match_sample-IsSample line n l v = (
    IsSample-found line n l v,
    λ (part, gap, e, st, cs, b, w).
        ap (match_sample is_digit) e ∙ sample-again n l v part gap st cs b w,
  )
