-- ===== src/Contracts/Benchmark.antt =====
-- backend_contracts.py: the rows of a benchmark and their summary. `NumberOps` is what the program
-- does with a number, an `int` or a `float`, NaN included, which `json.loads` reads: no law of it is
-- assumed unless a theorem names it.
-- `rank n` is `math.ceil(n * 0.95)`, and `str_of` is `str`.
pub mod Percentile
pub mod Summarized
use mac_llm_ops_lab.Prelude.{
  string_eq, ℕ, ℤ, pos, ◌-◌, suc, zero, String, Bool, true, false, not, Option, none, some, List,
  [], ◌∷◌, ◌++◌, length, any, is_nil, foldl, map, keep, eqb, if◌then◌else◌,
}
use mac_llm_ops_lab.Py.Str.{◌<>◌}
use mac_llm_ops_lab.Py.Dict.{get, contains}
use mac_llm_ops_lab.Py.Value.{Value, null, bool, int, float, str, list, dict, Fields, fields_of}
use mac_llm_ops_lab.Py.Sorted.{sorted_texts, set_of}
use mac_llm_ops_lab.Py.Result.{
  Result, ok, err, value_error, key_error, index_error, zero_division_error, ◌>>=◌, ◌>>◌, raise_if,
  map_result,
}

pub record NumberOps (Float : Type 0) : Type 1 where
  pub Number : Type 0
  pub of_int : ℤ → Number
  pub of_float : Float → Number
  pub add : Number → Number → Number
  -- `a / n`
  pub divide : Number → ℕ → Number
  -- `a < b`
  pub lt : Number → Number → Bool
  -- `a is b or a == b`, as a set asks it
  pub eq : Number → Number → Bool
  pub is_nan : Number → Bool
  -- `sorted` of a list with a NaN, whose order Python leaves open
  pub sorted_with_nan : List Number → List Number

abbrev pub required_fields : List String
required_fields =
    "model_id" ∷ "prompt_set" ∷ "concurrency" ∷ "max_tokens" ∷ "ttft_ms" ∷ "e2e_latency_ms"
    ∷ "gen_tps" ∷ "requests_per_s" ∷ "metal_active_gb" ∷ "metal_peak_gb" ∷ "metal_cache_gb"
    ∷ "cache_hits" ∷ "cache_misses" ∷ "cache_hit_rate" ∷ "tokens_saved" ∷ "validated" ∷ []

-- The parts of the summary under "latency_ms", "throughput", "metal_memory_gb" and "cache".
pub record Latency (Number : Type 0) : Type 0 where
  pub ttft_avg : Number
  pub e2e_avg : Number
  pub e2e_p95 : Number
  pub e2e_max : Number

pub record Throughput (Number : Type 0) : Type 0 where
  pub gen_tps_avg : Number
  pub requests_per_s_avg : Number

pub record MetalMemory (Number : Type 0) : Type 0 where
  pub active_max : Number
  pub peak_max : Number
  pub cache_max : Number

pub record CacheTotals (Number : Type 0) : Type 0 where
  pub hits_total : Number
  pub misses_total : Number
  pub hit_rate_avg : Number
  pub tokens_saved_total : Number

pub record BenchmarkSummary (Number : Type 0) : Type 0 where
  pub schema_version : String
  pub contract_passed : Bool
  pub run_count : ℕ
  pub validated_count : ℕ
  pub all_validated : Bool
  pub models : List String
  pub prompt_sets : List String
  pub concurrency_levels : List Number
  pub max_tokens : List Number
  pub latency_ms : Latency Number
  pub throughput : Throughput Number
  pub metal_memory_gb : MetalMemory Number
  pub cache : CacheTotals Number

-- `sum(1 for b in flags if b)`
abbrev pub count_true : List Bool → ℕ
count_true [] = 0
count_true (b ∷ bs) = if b then suc (count_true bs) else count_true bs

module _ {Float : Type 0} where
  -- `row[field]`
  unfoldable pub item_of : String → Fields Float → Result (Value Float)
  item_of name row = elim (get name (fields_of row)) [ none ↦ err key_error | some v ↦ ok v ]

  abbrev pub first_missing : List String → Fields Float → Result (Unit {0})
  first_missing [] row = ok tt
  first_missing (name ∷ names) row =
      raise_if (not (contains name (fields_of row)))
        (value_error ("benchmark row missing required field: " <> name))
      >> first_missing names row

  unfoldable pub validate_benchmark_row : Fields Float → Result (Unit {0})
  validate_benchmark_row row = first_missing required_fields row

  abbrev pub validate_rows : List (Fields Float) → Result (Unit {0})
  validate_rows [] = ok tt
  validate_rows (row ∷ rows) = validate_benchmark_row row >> validate_rows rows

  -- `value is True`
  abbrev pub is_true : Value Float → Bool
  is_true (bool b) = b
  is_true _ = false

  abbrev pub is_validated : Fields Float → Result Bool
  is_validated row = item_of "validated" row >>= λ v. ok (is_true v)

  module _ (F : NumberOps Float) where
    open F use {Number, of_int, of_float, add, divide, lt, eq, is_nan, sorted_with_nan}

    unfoldable pub number : Value Float → Result Number
    number (int n) = ok (of_int n)
    number (float x) = ok (of_float x)
    number _ = err (value_error "numeric benchmark fields must be numbers")

    unfoldable pub float_values : List (Fields Float) → String → Result (List Number)
    float_values rows name = map_result (λ row. item_of name row >>= number) rows

    -- `sum(values)`
    abbrev pub sum_numbers : List Number → Number
    sum_numbers values = foldl add (of_int (pos 0)) values

    unfoldable pub average : List Number → Result Number
    average values =
        if is_nil values
        then err zero_division_error
        else ok (divide (sum_numbers values) (length values))

    abbrev pub larger : Number → Number → Number
    larger best v = if lt best v then v else best

    -- `max(values)`
    unfoldable pub max_number : List Number → Result Number
    max_number [] = err (value_error "max() iterable argument is empty")
    max_number (v ∷ values) = ok (foldl larger v values)

    unfoldable pub insert : Number → List Number → List Number
    insert v [] = v ∷ []
    insert v (w ∷ ws) = let rest = insert v ws in if lt w v then w ∷ rest else v ∷ w ∷ ws

    unfoldable pub insertion_sort : List Number → List Number
    unfolding insert
    insertion_sort [] = []
    insertion_sort (v ∷ vs) = insert v (insertion_sort vs)

    -- `sorted(values)`: it is stable, so without a NaN it is what sorting by insertion gives.
    unfoldable pub sort : List Number → List Number
    unfolding insertion_sort
    sort vs = if any is_nan vs then sorted_with_nan vs else insertion_sort vs

    abbrev add_number : List Number → Number → List Number
    add_number seen v = if any (eq v) seen then seen else seen ++ v ∷ []

    -- `sorted(set(values))`
    unfoldable pub sorted_unique_numbers : List Number → List Number
    unfolding sort
    sorted_unique_numbers values = sort (foldl add_number [] values)

    abbrev pub get_elem? : List Number → ℕ → Option Number
    get_elem? [] i = none
    get_elem? (v ∷ vs) zero = some v
    get_elem? (v ∷ vs) (suc i) = get_elem? vs i

    module _ (rank : ℕ → ℕ) where
      -- The index is `max(0, rank - 1)`.
      unfoldable pub percentile : List Number → Result Number
      unfolding sort
      percentile values = elim (get_elem? (sort values) (rank (length values) - 1)) [
        | none ↦ err index_error
        | some v ↦ ok v
      ]

      unfoldable pub latency_of : List (Fields Float) → Result (Latency Number)
      latency_of rows = do
        ttft ← float_values rows "ttft_ms"
        ttft_avg ← average ttft
        e2e ← float_values rows "e2e_latency_ms"
        e2e_avg ← average e2e
        e2e_p95 ← percentile e2e
        e2e_max ← max_number e2e
        ok (record { ttft_avg = ttft_avg; e2e_avg = e2e_avg; e2e_p95 = e2e_p95; e2e_max = e2e_max })

    unfoldable pub throughput_of : List (Fields Float) → Result (Throughput Number)
    throughput_of rows = do
      gen_tps ← float_values rows "gen_tps"
      gen_tps_avg ← average gen_tps
      requests ← float_values rows "requests_per_s"
      requests_avg ← average requests
      ok (record { gen_tps_avg = gen_tps_avg; requests_per_s_avg = requests_avg })

    unfoldable pub metal_memory_of : List (Fields Float) → Result (MetalMemory Number)
    metal_memory_of rows = do
      active ← float_values rows "metal_active_gb"
      active_max ← max_number active
      peak ← float_values rows "metal_peak_gb"
      peak_max ← max_number peak
      cache ← float_values rows "metal_cache_gb"
      cache_max ← max_number cache
      ok (record { active_max = active_max; peak_max = peak_max; cache_max = cache_max })

    unfoldable pub cache_totals_of : List (Fields Float) → Result (CacheTotals Number)
    cache_totals_of rows = do
      hits ← float_values rows "cache_hits"
      misses ← float_values rows "cache_misses"
      rates ← float_values rows "cache_hit_rate"
      rate_avg ← average rates
      saved ← float_values rows "tokens_saved"
      ok (record {
        hits_total = sum_numbers hits;
        misses_total = sum_numbers misses;
        hit_rate_avg = rate_avg;
        tokens_saved_total = sum_numbers saved;
      })

    module _ (rank : ℕ → ℕ) (str_of : Value Float → String) where
      unfoldable pub sorted_unique_strings : List (Fields Float) → String → Result (List String)
      sorted_unique_strings rows name =
          map_result (item_of name) rows >>= λ vs. ok (sorted_texts (set_of (map str_of vs)))

      unfoldable pub build_benchmark_summary :
          List (Fields Float) → Result (BenchmarkSummary Number)
      build_benchmark_summary rows = do
        raise_if (is_nil rows) (value_error "benchmark rows must not be empty")
        validate_rows rows
        flags ← map_result is_validated rows
        models ← sorted_unique_strings rows "model_id"
        prompt_sets ← sorted_unique_strings rows "prompt_set"
        concurrency ← float_values rows "concurrency"
        max_tokens ← float_values rows "max_tokens"
        latency ← latency_of rank rows
        throughput ← throughput_of rows
        memory ← metal_memory_of rows
        cache ← cache_totals_of rows
        ok (record {
          schema_version = "vllm-mlx-benchmark-summary/v1";
          contract_passed = true;
          run_count = length rows;
          validated_count = count_true flags;
          all_validated = eqb (count_true flags) (length rows);
          models = models;
          prompt_sets = prompt_sets;
          concurrency_levels = sorted_unique_numbers concurrency;
          max_tokens = sorted_unique_numbers max_tokens;
          latency_ms = latency;
          throughput = throughput;
          metal_memory_gb = memory;
          cache = cache;
        })
