-- ===== src/Contracts/Tests/Summary.antt =====
-- Metrics and benchmark rows on concrete values. Floats are natural numbers, and so are all numbers.
use mac_llm_ops_lab.Prelude.{
  ℕ, ℤ, pos, negsuc, ◌+◌, ◌*◌, ◌/◌, ◌≤◌, ◌<◌, ◌≡◌, ◌↔◌, refl, Bool, true, false, not, none, some,
  String, List, [], ◌∷◌, ◌&&◌, ◌||◌, arith, leb, ltb, eqb, In, All, is_nil, string_eq,
}
use mac_llm_ops_lab.Py.Str.{is_space, lstrip, rstrip, strip, splitlines, partition}
use mac_llm_ops_lab.Py.Dict.{get, put, contains}
use mac_llm_ops_lab.Py.Value.{Value, bool, int, float, str, Fields, obj}
use mac_llm_ops_lab.Py.Sorted.{insert_item, sort_items}
use mac_llm_ops_lab.Py.Result.{ok}
use mac_llm_ops_lab.Contracts.Prometheus.{
  span, is_value, match_value, match_labels, match_sample, strip_quotes, split_labels, put_label,
  parse_labels,
}
use mac_llm_ops_lab.Contracts.Prometheus.Pattern.{IsSample, match_sample-IsSample}
use mac_llm_ops_lab.Contracts.Metrics.{required_metrics, summarize_vllm_mlx_metrics}
use mac_llm_ops_lab.Contracts.Metrics.Missing.{HasLine, contract_passed-HasLine}
use mac_llm_ops_lab.Contracts.Benchmark.{
  NumberOps, BenchmarkSummary, required_fields, insert, insertion_sort, sort, percentile, item_of,
  validate_benchmark_row, number, float_values, average, max_number, sorted_unique_numbers,
  sorted_unique_strings, latency_of, throughput_of, metal_memory_of, cache_totals_of,
  build_benchmark_summary,
}
use mac_llm_ops_lab.Contracts.Benchmark.Percentile.{IsWeakOrder, count, percentile_lem}
use mac_llm_ops_lab.Contracts.Benchmark.Summarized.{
  HasFields, IsValidated, build_benchmark_summary-IsSummary,
}

abbrev ascii_digit : ℕ → Bool
ascii_digit c = leb b'0' c && leb c b'9'

reads : match_sample ascii_digit "m{kind=active} +2.5e-3" ≡ some ("m", "kind=active", "+2.5e-3")
unfolding match_sample match_labels match_value is_value span lstrip is_space
reads = refl

-- A value must be the rest of the line.
reads_no_more : match_sample ascii_digit "m 2.5 3" ≡ none
unfolding match_sample match_labels match_value is_value span lstrip is_space
reads_no_more = refl

labels : parse_labels "kind=\"a,b\", result=\"ok\"" ≡ ("kind", "a,b") ∷ ("result", "ok") ∷ []
unfolding parse_labels split_labels put_label partition strip_quotes put strip lstrip rstrip
    is_space
labels = refl

match_sample-IsSample_example :
    (match_sample ascii_digit "m{kind=active} +2.5e-3" ≡ some ("m", "kind=active", "+2.5e-3"))
    ↔ IsSample ascii_digit "m{kind=active} +2.5e-3" "m" "kind=active" "+2.5e-3"
match_sample-IsSample_example =
    match_sample-IsSample ascii_digit "m{kind=active} +2.5e-3" "m" "kind=active" "+2.5e-3"

abbrev to_float : String → ℕ
to_float s = 1

abbrev text : String
text = "# HELP\n vllm_mlx_model_loaded 1\n"

contract_passed-HasLine_example :
    ((summarize_vllm_mlx_metrics (eqb 1) 0 ascii_digit 9 0 to_float text).contract_passed ≡ true
      ↔ All (λ name. HasLine ascii_digit 9 0 to_float name (splitlines text)) required_metrics)
    × ((summarize_vllm_mlx_metrics (eqb 1) 0 ascii_digit 9 0 to_float text).contract_passed
        ≡ is_nil
            (summarize_vllm_mlx_metrics
              (eqb 1)
              0
              ascii_digit
              9
              0
              to_float
              text).missing_required_metrics)
contract_passed-HasLine_example = contract_passed-HasLine ascii_digit 9 0 to_float (eqb 1) 0 text

abbrev nat_part : ℤ → ℕ
nat_part (pos n) = n
nat_part (negsuc n) = 0

-- The number 99 stands for NaN, which is below nothing and above nothing.
abbrev below : ℕ → ℕ → Bool
below a b = ltb a b && not (eqb a 99 || eqb b 99)

abbrev naturals : NumberOps ℕ
naturals = record {
  Number = ℕ;
  of_int = nat_part;
  of_float = λ x. x;
  add = λ a b. a + b;
  divide = λ a n. a / n;
  lt = below;
  eq = eqb;
  is_nan = eqb 99;
  sorted_with_nan = λ values. values;
}

abbrev rank : ℕ → ℕ
rank n = (95 * n + 99) / 100

naturals-IsWeakOrder : IsWeakOrder naturals
naturals-IsWeakOrder = record {
  asymm = λ a b _ _ h. ground arith;
  weak = λ a b c k l m h i. ground arith;
}

percentile_lem_example :
    (v : ℕ) × (percentile naturals rank (30 ∷ 10 ∷ 20 ∷ []) ≡ ok v)
    × In v (30 ∷ 10 ∷ 20 ∷ [])
    × (3 ≤ count (λ w. not (below v w)) (30 ∷ 10 ∷ 20 ∷ []))
    × (count (λ w. below w v) (30 ∷ 10 ∷ 20 ∷ []) < 3)
percentile_lem_example =
    percentile_lem naturals naturals-IsWeakOrder rank (30 ∷ 10 ∷ 20 ∷ []) refl (omega arith)
      (omega arith)

-- Where `sorted` leaves a list with a NaN as it is, the last value need not be the greatest.
percentile_nan : percentile naturals rank (3 ∷ 99 ∷ 1 ∷ []) ≡ ok 1
unfolding percentile sort
percentile_nan = refl

abbrev row : ℕ → Fields ℕ
row latency = obj (
    ("model_id", str "qwen")
    ∷ ("prompt_set", str "short")
    ∷ ("concurrency", int (pos 1))
    ∷ ("max_tokens", int (pos 16))
    ∷ ("ttft_ms", float 5)
    ∷ ("e2e_latency_ms", float latency)
    ∷ ("gen_tps", float 7)
    ∷ ("requests_per_s", float 1)
    ∷ ("metal_active_gb", float 2)
    ∷ ("metal_peak_gb", float 3)
    ∷ ("metal_cache_gb", float 1)
    ∷ ("cache_hits", int (pos 4))
    ∷ ("cache_misses", int (pos 2))
    ∷ ("cache_hit_rate", float 1)
    ∷ ("tokens_saved", int (pos 8))
    ∷ ("validated", bool true)
    ∷ [])

abbrev str_of : Value ℕ → String
str_of (str s) = s
str_of _ = ""

abbrev summary : BenchmarkSummary ℕ
summary = record {
  schema_version = "vllm-mlx-benchmark-summary/v1";
  contract_passed = true;
  run_count = 2;
  validated_count = 2;
  all_validated = true;
  models = "qwen" ∷ [];
  prompt_sets = "short" ∷ [];
  concurrency_levels = 1 ∷ [];
  max_tokens = 16 ∷ [];
  latency_ms = record { ttft_avg = 5; e2e_avg = 25; e2e_p95 = 30; e2e_max = 30 };
  throughput = record { gen_tps_avg = 7; requests_per_s_avg = 1 };
  metal_memory_gb = record { active_max = 2; peak_max = 3; cache_max = 1 };
  cache = record { hits_total = 8; misses_total = 4; hit_rate_avg = 1; tokens_saved_total = 16 };
}

summarizes : build_benchmark_summary naturals rank str_of (row 30 ∷ row 20 ∷ []) ≡ ok summary
unfolding build_benchmark_summary validate_benchmark_row item_of sorted_unique_strings float_values
    number latency_of throughput_of metal_memory_of cache_totals_of average percentile max_number
    sorted_unique_numbers sort insertion_sort insert sort_items insert_item get contains
summarizes = refl

build_benchmark_summary-IsSummary_example :
    (is_nil (row 30 ∷ row 20 ∷ []) ≡ false)
    × All (HasFields required_fields) (row 30 ∷ row 20 ∷ [])
    × (summary.run_count ≡ 2)
    × ((summary.all_validated ≡ true) ↔ All IsValidated (row 30 ∷ row 20 ∷ []))
    × (vs : List ℕ) × (float_values naturals (row 30 ∷ row 20 ∷ []) "e2e_latency_ms" ≡ ok vs)
    × (average naturals vs ≡ ok 25)
    × (percentile naturals rank vs ≡ ok 30)
    × (max_number naturals vs ≡ ok 30)
build_benchmark_summary-IsSummary_example =
    build_benchmark_summary-IsSummary naturals rank str_of (row 30 ∷ row 20 ∷ []) summary summarizes
