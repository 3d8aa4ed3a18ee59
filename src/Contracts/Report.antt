-- ===== src/Contracts/Report.antt =====
-- backend_contracts.py: the report of metrics and benchmark together. Reading and writing the files
-- is outside: a JSON text is the object that it holds.
use mac_llm_ops_lab.Prelude.{ℕ, String, Bool, ◌&&◌, List}
use mac_llm_ops_lab.Py.Value.{Value, list, dict, Fields, items_of}
use mac_llm_ops_lab.Py.Result.{Result, ok, err, value_error, ◌>>=◌, map_result}
use mac_llm_ops_lab.Contracts.Metrics.{MetricsSummary, summarize_vllm_mlx_metrics}
use mac_llm_ops_lab.Contracts.Benchmark.{NumberOps, BenchmarkSummary, build_benchmark_summary}

pub record ContractReport (Float Number : Type 0) : Type 0 where
  pub schema_version : String
  pub contract_passed : Bool
  pub metrics : MetricsSummary Float
  pub benchmark : BenchmarkSummary Number

module _ {Float : Type 0} where
  abbrev as_row : Value Float → Result (Fields Float)
  as_row (dict row) = ok row
  as_row _ = err (value_error "benchmark JSON list must contain objects")

  -- `load_benchmark_rows`, on what the file holds
  unfoldable pub benchmark_rows : Value Float → Result (List (Fields Float))
  benchmark_rows (list rows) = map_result as_row (items_of rows)
  benchmark_rows _ = err (value_error "benchmark JSON must contain a JSON list")

  module _ (F : NumberOps Float) (rank : ℕ → ℕ) (str_of : Value Float → String)
      (is_one : Float → Bool) (zero : Float) (is_digit : ℕ → Bool) (inf neg_inf : Float)
      (to_float : String → Float) where
    open F use {Number}

    unfoldable pub build_backend_contract_report :
        String → List (Fields Float) → Result (ContractReport Float Number)
    build_backend_contract_report metrics_text rows =
        let metrics =
          summarize_vllm_mlx_metrics is_one zero is_digit inf neg_inf to_float metrics_text in
        build_benchmark_summary F rank str_of rows >>= λ benchmark. ok (record {
          schema_version = "vllm-mlx-backend-contract/v1";
          contract_passed = metrics.contract_passed && benchmark.contract_passed;
          metrics = metrics;
          benchmark = benchmark;
        })

    -- `write_backend_contract_report`, without the files
    unfoldable pub contract_report : String → Value Float → Result (ContractReport Float Number)
    contract_report metrics_text payload =
        benchmark_rows payload >>= λ rows. build_backend_contract_report metrics_text rows
