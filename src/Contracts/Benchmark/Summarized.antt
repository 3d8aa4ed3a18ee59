-- ===== src/Contracts/Benchmark/Summarized.antt =====
-- What a summary says of the rows.
use mac_llm_ops_lab.Prelude.{
  String, ℕ, suc, ◌≤◌, ◌≡◌, ◌↔◌, refl, sym, ap, ◌∙◌, Bool, true, false, not, Option, none, some,
  List, [], ◌∷◌, arith, eqb, string_eq, length, All, is_nil, negated, if◌then◌else◌,
}
use mac_llm_ops_lab.Py.Dict.{get, contains}
use mac_llm_ops_lab.Py.Value.{Value, null, bool, int, float, str, list, dict, Fields, fields_of}
use mac_llm_ops_lab.Py.Result.{ok, err, key_error, map_result, bind-ok, raise_if-ok, ok_inj}
use mac_llm_ops_lab.Contracts.Benchmark.{
  NumberOps, BenchmarkSummary, Latency, latency_of, throughput_of, metal_memory_of, cache_totals_of,
  required_fields, count_true, item_of, first_missing, validate_rows, validate_benchmark_row,
  is_true, is_validated, float_values, average, max_number, percentile, sorted_unique_strings,
  build_benchmark_summary,
}

count_true-le : (flags : List Bool) → count_true flags ≤ length flags
count_true-le [] = omega arith
count_true-le (b ∷ bs) = ground (arith, count_true-le bs)

flag_step :
    {P R : Type 0} (b : Bool) (c n : ℕ)
    → c ≤ n
    → (b ≡ true) ↔ P
    → (eqb c n ≡ true) ↔ R
    → (eqb (if b then suc c else c) (suc n) ≡ true) ↔ P × R
flag_step true c n h p r =
    (λ e. (p.0 refl, r.0 (ground arith)), λ w. let e = r.1 w.1 in ground arith)
flag_step false c n h p r = (λ e. absurd (ground arith), λ w. let e = p.1 w.0 in cc)

some_inj : {A : Type 0} {a b : A} → some a ≡ some b → a ≡ b
some_inj h = cc

opt_ok :
    {V : Type 0} (o : Option V) (v : V)
    → (elim o [ none ↦ err key_error | some v ↦ ok v ]) ≡ ok v
    → o ≡ some v
opt_ok none v h = cc
opt_ok (some w) v h = cc

module _ {Float : Type 0} where
  abbrev pub HasFields : List String → Fields Float → Type 0
  HasFields names row = All (λ name. contains name (fields_of row) ≡ true) names

  abbrev pub IsValidated : Fields Float → Type 0
  IsValidated row = get "validated" (fields_of row) ≡ some (bool true)

  first_missing-HasFields :
      (names : List String) (row : Fields Float)
      → first_missing names row ≡ ok tt
      → HasFields names row
  first_missing-HasFields [] row h = tt
  first_missing-HasFields (n ∷ names) row h =
      let r = raise_if-ok (not (contains n (fields_of row))) _ _ h in
      (negated (contains n (fields_of row)) r.0, first_missing-HasFields names row r.1)

  rows-HasFields :
      (rows : List (Fields Float))
      → validate_rows rows ≡ ok tt
      → All (HasFields required_fields) rows
  unfolding validate_benchmark_row
  rows-HasFields [] h = tt
  rows-HasFields (row ∷ rows) h =
      let r = bind-ok (first_missing required_fields row) _ h in
      (first_missing-HasFields required_fields row r.1, rows-HasFields rows r.2)

  is_true-bool : (v : Value Float) → is_true v ≡ true → v ≡ bool true
  is_true-bool (bool b) h = ap bool h
  is_true-bool null h = cc
  is_true-bool (int n) h = cc
  is_true-bool (float x) h = cc
  is_true-bool (str s) h = cc
  is_true-bool (list x) h = cc
  is_true-bool (dict x) h = cc

  item-found :
      (name : String) (row : Fields Float) (v : Value Float)
      → item_of name row ≡ ok v
      → get name (fields_of row) ≡ some v
  unfolding item_of
  item-found name row v h = opt_ok (get name (fields_of row)) v h

  flag_of : (row : Fields Float) (b : Bool) → is_validated row ≡ ok b → (b ≡ true) ↔ IsValidated row
  flag_of row b h =
      let (v, h1, h2) = bind-ok (item_of "validated" row) _ h in
      let found = item-found "validated" row v h1 in
      let e : is_true v ≡ b = ok_inj h2 in
      (
        λ t. found ∙ ap some (is_true-bool v (e ∙ t)),
        λ w.
            let same : some v ≡ some (bool true) = sym found ∙ w in
            sym e ∙ ap is_true (some_inj same),
      )

  flags-All :
      (rows : List (Fields Float)) (flags : List Bool)
      → map_result is_validated rows ≡ ok flags
      → (length flags ≡ length rows)
        × ((eqb (count_true flags) (length rows) ≡ true) ↔ All IsValidated rows)
  flags-All [] flags h = rw (sym (ok_inj h)) (refl, (λ e. tt, λ w. refl))
  flags-All (row ∷ rows) flags h =
      let (b, hb, k) = bind-ok (is_validated row) _ h in
      let (bs, hbs, e) = bind-ok (map_result is_validated rows) _ k in
      let (same, ih) = flags-All rows bs hbs in
      rw (sym (ok_inj e)) (
        omega arith,
        flag_step b (count_true bs) (length rows) (omega (arith, count_true-le bs))
            (flag_of row b hb) ih,
      )

  latency-parts :
      (F : NumberOps Float) (rank : ℕ → ℕ) (rows : List (Fields Float)) (l : Latency F.Number)
      → latency_of F rank rows ≡ ok l
      → (vs : List F.Number) × (float_values F rows "e2e_latency_ms" ≡ ok vs)
        × (average F vs ≡ ok l.e2e_avg)
        × (percentile F rank vs ≡ ok l.e2e_p95)
        × (max_number F vs ≡ ok l.e2e_max)
  unfolding latency_of
  latency-parts F rank rows l h =
      let (ttft, a, h1) = bind-ok (float_values F rows "ttft_ms") _ h in
      let (ttft_avg, b, h2) = bind-ok (average F ttft) _ h1 in
      let (e2e, c, h3) = bind-ok (float_values F rows "e2e_latency_ms") _ h2 in
      let (avg, d, h4) = bind-ok (average F e2e) _ h3 in
      let (p95, e, h5) = bind-ok (percentile F rank e2e) _ h4 in
      let (most, f, h6) = bind-ok (max_number F e2e) _ h5 in rw (sym (ok_inj h6)) (e2e, c, d, e, f)

  module _ (F : NumberOps Float) (rank : ℕ → ℕ) (str_of : Value Float → String) where
    open F use {Number}

    -- A summary is made only of rows of which there are some and which have all sixteen fields. It
    -- counts the rows, and says that all are validated exactly where each row has `true` under
    -- `validated`. Its latency figures are the average, the percentile and the maximum of the one
    -- list of numbers that the rows have under `e2e_latency_ms`.
    pub build_benchmark_summary-IsSummary :
        (rows : List (Fields Float)) (s : BenchmarkSummary Number)
        → build_benchmark_summary F rank str_of rows ≡ ok s
        → (is_nil rows ≡ false)
          × All (HasFields required_fields) rows
          × (s.run_count ≡ length rows)
          × ((s.all_validated ≡ true) ↔ All IsValidated rows)
          × (vs : List Number) × (float_values F rows "e2e_latency_ms" ≡ ok vs)
          × (average F vs ≡ ok s.latency_ms.e2e_avg)
          × (percentile F rank vs ≡ ok s.latency_ms.e2e_p95)
          × (max_number F vs ≡ ok s.latency_ms.e2e_max)
    unfolding build_benchmark_summary
    build_benchmark_summary-IsSummary rows s h =
        let (some_rows, h0) = raise_if-ok (is_nil rows) _ _ h in
        let (_, checked, h1) = bind-ok (validate_rows rows) _ h0 in
        let (flags, counted, h2) = bind-ok (map_result is_validated rows) _ h1 in
        let (models, a, h3) = bind-ok (sorted_unique_strings F rank str_of rows "model_id") _ h2 in
        let (sets, b, h4) = bind-ok (sorted_unique_strings F rank str_of rows "prompt_set") _ h3 in
        let (levels, c, h5) = bind-ok (float_values F rows "concurrency") _ h4 in
        let (tokens, d, h6) = bind-ok (float_values F rows "max_tokens") _ h5 in
        let (latency, e, h7) = bind-ok (latency_of F rank rows) _ h6 in
        let (throughput, f, h8) = bind-ok (throughput_of F rows) _ h7 in
        let (memory, g, h9) = bind-ok (metal_memory_of F rows) _ h8 in
        let (cache, k, h10) = bind-ok (cache_totals_of F rows) _ h9 in
        let (vs, found, avg, p95, most) = latency-parts F rank rows latency e in
        rw (sym (ok_inj h10)) (
          some_rows,
          rows-HasFields rows checked,
          refl,
          (flags-All rows flags counted).1,
          vs,
          found,
          avg,
          p95,
          most,
        )
