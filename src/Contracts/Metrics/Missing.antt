-- ===== src/Contracts/Metrics/Missing.antt =====
-- When the contract of the metrics passes.
use mac_llm_ops_lab.Prelude.{
  ℕ, String, ◌≡◌, ◌↔◌, refl, sym, ap, ◌∙◌, ◌⊎◌, inl, inr, Bool, true, false, not, ◌||◌, none, some,
  List, [], ◌∷◌, ◌==◌, string_eq, arith, Bool-cases, Option-cases, keep, is_nil, In, All,
}
use mac_llm_ops_lab.Py.Str.{strip, splitlines, is_empty, starts_with_char}
use mac_llm_ops_lab.Contracts.Prometheus.{
  Sample, is_name_start, starts_in, match_sample, parse_line, parse_lines, parse_prometheus_samples,
  parse_labels, parse_float,
}
use mac_llm_ops_lab.Contracts.Prometheus.Parts.{found_some, starts_append}
use mac_llm_ops_lab.Contracts.Prometheus.Pattern.{IsSample, match_sample-IsSample}
use mac_llm_ops_lab.Contracts.Metrics.{
  required_metrics, has_metric, missing_metrics, summary_of, summarize_vllm_mlx_metrics,
}

name_start_line :
    (s : String) → starts_in is_name_start s ≡ true → is_empty s || starts_with_char b'#' s ≡ false
name_start_line String.[] h = cc
name_start_line (String.◌∷◌ c s) h = ground arith

or_right : (a : Bool) {b : Bool} → b ≡ true → (a || b) ≡ true
or_right true h = refl
or_right false h = h

some_inj : {A : Type 0} {a b : A} → some a ≡ some b → a ≡ b
some_inj h = cc

module _ {Float : Type 0} (is_digit : ℕ → Bool) (inf neg_inf : Float)
    (to_float : String → Float) where
  -- Some line of the list, without the white space around it, is a sample of the metric.
  abbrev pub HasLine : String → List String → Type 0
  HasLine name lines =
      (line : String) × In line lines × (l v : String) × IsSample is_digit (strip line) name l v

  line-found :
      (raw : String) (s : Sample Float)
      → parse_line is_digit inf neg_inf to_float raw ≡ some s
      → (l v : String) × IsSample is_digit (strip raw) s.name l v
  unfolding parse_line
  line-found raw s h =
      elim (Bool-cases (is_empty (strip raw) || starts_with_char b'#' (strip raw))) [
        | inl skipped ↦ cc (rw skipped at h)
        | inr kept ↦
            let (x, matched, same) =
              found_some (match_sample is_digit (strip raw))
                (λ x. record {
                  name = x.0;
                  labels = parse_labels x.1;
                  value = parse_float is_digit inf neg_inf to_float x.2;
                })
                s (rw kept at h) in
            (
              x.1,
              x.2,
              (match_sample-IsSample is_digit (strip raw) s.name x.1 x.2).0
                  (matched ∙ ap (λ t. some (t.name, x.1, x.2)) same),
            )
      ]

  line-again :
      (raw n l v : String)
      → IsSample is_digit (strip raw) n l v
      → (s : Sample Float) × (parse_line is_digit inf neg_inf to_float raw ≡ some s) × (s.name ≡ n)
  unfolding parse_line
  line-again raw n l v m =
      let start : starts_in is_name_start (strip raw) ≡ true =
        ap (starts_in is_name_start) m.2 ∙ starts_append n _ m.3 in
      rw (name_start_line (strip raw) start) (
        rw ((match_sample-IsSample is_digit (strip raw) n l v).1 m) (
          record {
            name = n;
            labels = parse_labels l;
            value = parse_float is_digit inf neg_inf to_float v;
          },
          refl,
          refl,
        ))

  skip-HasLine :
      (name line : String) (lines : List String)
      → parse_line is_digit inf neg_inf to_float line ≡ none
      → HasLine name (line ∷ lines)
      → HasLine name lines
  skip-HasLine name line lines e (x, inl here, l, v, m) =
      let (s, read, n) = line-again line name l v (rw here at m) in cc
  skip-HasLine name line lines e (x, inr there, l, v, m) = (x, there, l, v, m)

  read-HasLine :
      (name line : String) (lines : List String) (s : Sample Float)
      → parse_line is_digit inf neg_inf to_float line ≡ some s
      → HasLine name (line ∷ lines)
      → (s.name ≡ name) ⊎ HasLine name lines
  read-HasLine name line lines s e (x, inl here, l, v, m) =
      let (s', read, n) = line-again line name l v (rw here at m) in
      let same : some s' ≡ some s = sym read ∙ e in
      inl (ap (λ (t : Sample Float). t.name) (sym (some_inj same)) ∙ n)
  read-HasLine name line lines s e (x, inr there, l, v, m) = inr (x, there, l, v, m)

  has_metric-HasLine :
      (name : String) (lines : List String)
      → (has_metric (parse_lines is_digit inf neg_inf to_float lines) name ≡ true)
        ↔ HasLine name lines
  has_metric-HasLine name [] = (λ h. cc, λ (line, i, l, v, m). absurd i)
  has_metric-HasLine name (line ∷ lines) =
      let ih = has_metric-HasLine name lines in
      elim (Option-cases (parse_line is_digit inf neg_inf to_float line)) [
        | inl skipped ↦
            rw (skipped, parse_lines)
              (
                λ h. let (x, i, l, v, m) = ih.0 h in (x, inr i, l, v, m),
                λ w. ih.1 (skip-HasLine name line lines skipped w),
              )
        | inr (s, read) ↦
            rw (read, parse_lines)
              (
                λ h. elim (Bool-cases (s.name == name)) [
                  | inl same ↦
                      let (l, v, m) = line-found line s read in
                      (line, inl refl, l, v, rw ((string_eq.beq_iff s.name name).0 same) at m)
                  | inr other ↦ let (x, i, l, v, m) = ih.0 (rw other at h) in (x, inr i, l, v, m)
                ],
                λ w. elim (read-HasLine name line lines s read w) [
                  | inl same ↦ rw ((string_eq.beq_iff s.name name).1 same) refl
                  | inr later ↦ or_right (s.name == name) (ih.1 later)
                ],
              )
      ]

  missing-All :
      (samples : List (Sample Float)) (names : List String)
      → (is_nil (keep (λ name. not (has_metric samples name)) names) ≡ true)
        ↔ All (λ name. has_metric samples name ≡ true) names
  missing-All samples [] = (λ h. tt, λ a. refl)
  missing-All samples (n ∷ names) = elim (Bool-cases (has_metric samples n)) [
    | inl here ↦ let ih = missing-All samples names in rw here (λ h. (refl, ih.0 h), λ a. ih.1 a.1)
    | inr lacks ↦ rw lacks (λ h. cc, λ a. cc (a.0))
  ]

  both_All :
      (samples : List (Sample Float)) (lines names : List String)
      → samples ≡ parse_lines is_digit inf neg_inf to_float lines
      → All (λ name. has_metric samples name ≡ true) names ↔ All (λ name. HasLine name lines) names
  both_All samples lines [] e = (λ a. tt, λ a. tt)
  both_All samples lines (n ∷ names) e =
      let ih = both_All samples lines names e in
      let here = has_metric-HasLine n lines in
      (λ a. (here.0 (rw e at (a.0)), ih.0 a.1), λ a. (rw e (here.1 a.0), ih.1 a.1))

  -- The contract of the metrics passes exactly where, for each of the fifteen required metrics, some
  -- line of the text is a sample with that name: its name, labels if any, white space and a value.
  -- It fails exactly where the list of missing metrics has an element.
  pub contract_passed-HasLine :
      (is_one : Float → Bool) (zero : Float) (text : String)
      → let summary = summarize_vllm_mlx_metrics is_one zero is_digit inf neg_inf to_float text in
        ((summary.contract_passed ≡ true)
          ↔ All (λ name. HasLine name (splitlines text)) required_metrics)
        × (summary.contract_passed ≡ is_nil summary.missing_required_metrics)
  unfolding summarize_vllm_mlx_metrics summary_of missing_metrics parse_prometheus_samples
  contract_passed-HasLine is_one zero text =
      let samples = parse_lines is_digit inf neg_inf to_float (splitlines text) in
      let a = missing-All samples required_metrics in
      let b = both_All samples (splitlines text) required_metrics refl in
      ((λ h. b.0 (a.0 h), λ w. a.1 (b.1 w)), refl)
