-- ===== src/Metrics.antt =====
-- metrics.py: `InMemoryMetrics`, eight dictionaries of counters.
mod Keys
mod Counts
mod Tests
use mac_llm_ops_lab.Prelude.{
  ℕ, ◌+◌, String, Option, none, some, List, [], ◌∷◌, map, if◌then◌else◌, string_eq, pair_eq,
  triple_eq,
}
use mac_llm_ops_lab.Py.Str.{token_count}
use mac_llm_ops_lab.Py.Number.{str_of_nat}
use mac_llm_ops_lab.Py.Dict.{Dict, get, put, bump}
use mac_llm_ops_lab.Py.Float.{FloatOps, max_float}
use mac_llm_ops_lab.Py.Result.{Result, ok, err, key_error, ◌>>=◌, map_result}

abbrev pub Key : Type 0
Key = String × String × String

pub record InMemoryMetrics (Float : Type 0) : Type 0 where
  pub requests_total : Dict Key ℕ
  pub request_latency_ms_total : Dict Key Float
  pub request_latency_ms_max : Dict Key Float
  pub http_errors_total : Dict Key ℕ
  pub tokens_generated_total : Dict String ℕ
  pub backend_generation_errors_total : Dict (String × String) ℕ
  pub stream_errors_total : Dict String ℕ
  pub stream_cancellations_total : Dict String ℕ

-- A row of the snapshot's `request_latency_ms`.
pub record LatencyRow (Float : Type 0) : Type 0 where
  pub key : Key
  pub count : ℕ
  pub total_ms : Float
  pub max_ms : Float

-- Each other list of the snapshot has one row for each item of its dictionary.
pub record Snapshot (Float : Type 0) : Type 0 where
  pub requests_total : List (Key × ℕ)
  pub request_latency_ms : List (LatencyRow Float)
  pub tokens_generated_total : List (String × ℕ)
  pub http_errors_total : List (Key × ℕ)
  pub backend_generation_errors_total : List ((String × String) × ℕ)
  pub stream_errors_total : List (String × ℕ)
  pub stream_cancellations_total : List (String × ℕ)

-- One call of a recording method.
pub data Event (Float : Type 0) : Type 0 where
  request : String → String → ℕ → Float → Event Float
  generated_text : String → String → Event Float
  http_error : String → ℕ → String → Event Float
  backend_generation_error : String → String → Event Float
  stream_error stream_cancellation : String → Event Float

-- `d[k]`
abbrev pub lookup : {V : Type 0} → Key → Dict Key V → Result V
lookup k d = elim (get k d) [ none ↦ err key_error | some v ↦ ok v ]

module _ {Float : Type 0} where
  unfoldable pub empty : InMemoryMetrics Float
  empty = record {
    requests_total = [];
    request_latency_ms_total = [];
    request_latency_ms_max = [];
    http_errors_total = [];
    tokens_generated_total = [];
    backend_generation_errors_total = [];
    stream_errors_total = [];
    stream_cancellations_total = [];
  }

  unfoldable pub record_generated_text :
      String → String → InMemoryMetrics Float → InMemoryMetrics Float
  record_generated_text model content m = record m {
    tokens_generated_total = bump model (token_count content) m.tokens_generated_total;
  }

  unfoldable pub record_http_error :
      String → ℕ → String → InMemoryMetrics Float → InMemoryMetrics Float
  record_http_error route status_code code m = record m {
    http_errors_total = bump (route, str_of_nat status_code, code) 1 m.http_errors_total;
  }

  unfoldable pub record_backend_generation_error :
      String → String → InMemoryMetrics Float → InMemoryMetrics Float
  record_backend_generation_error model code m = record m {
    backend_generation_errors_total = bump (model, code) 1 m.backend_generation_errors_total;
  }

  unfoldable pub record_stream_error : String → InMemoryMetrics Float → InMemoryMetrics Float
  record_stream_error model m = record m {
    stream_errors_total = bump model 1 m.stream_errors_total;
  }

  unfoldable pub record_stream_cancellation : String → InMemoryMetrics Float → InMemoryMetrics Float
  record_stream_cancellation model m = record m {
    stream_cancellations_total = bump model 1 m.stream_cancellations_total;
  }

  -- The comprehension over `request_latency_ms_total.items()`.
  unfoldable pub latency_rows :
      Dict Key ℕ → Dict Key Float → Dict Key Float → Result (List (LatencyRow Float))
  latency_rows requests maxima [] = ok []
  latency_rows requests maxima ((k, total) ∷ items) = lookup k requests >>= λ count.
      lookup k maxima >>= λ max_ms. latency_rows requests maxima items >>= λ rows.
      ok (record { key = k; count = count; total_ms = total; max_ms = max_ms } ∷ rows)

  unfoldable pub snapshot : InMemoryMetrics Float → Result (Snapshot Float)
  snapshot m =
      latency_rows m.requests_total m.request_latency_ms_max m.request_latency_ms_total >>= λ rows.
      ok (record {
        requests_total = m.requests_total;
        request_latency_ms = rows;
        tokens_generated_total = m.tokens_generated_total;
        http_errors_total = m.http_errors_total;
        backend_generation_errors_total = m.backend_generation_errors_total;
        stream_errors_total = m.stream_errors_total;
        stream_cancellations_total = m.stream_cancellations_total;
      })

module _ (F : FloatOps) where
  open F use {Float, decimal, add}

  -- `d.get(k, 0.0)`
  abbrev pub float_at : Key → Dict Key Float → Float
  float_at k d = elim (get k d) [ none ↦ decimal 0 0 | some v ↦ v ]

  unfoldable pub record_request :
      String → String → ℕ → Float → InMemoryMetrics Float → InMemoryMetrics Float
  record_request route method status_code duration_ms m =
      let key : Key = (route, method, str_of_nat status_code) in
      let bounded_duration = max_float F duration_ms (decimal 0 0) in
      record m {
        requests_total = bump key 1 m.requests_total;
        request_latency_ms_total =
            put key (add (float_at key m.request_latency_ms_total) bounded_duration)
              m.request_latency_ms_total;
        request_latency_ms_max =
            put key (max_float F (float_at key m.request_latency_ms_max) bounded_duration)
              m.request_latency_ms_max;
      }

  unfoldable pub step : InMemoryMetrics Float → Event Float → InMemoryMetrics Float
  step m (request route method status_code duration_ms) =
      record_request route method status_code duration_ms m
  step m (generated_text model content) = record_generated_text model content m
  step m (http_error route status_code code) = record_http_error route status_code code m
  step m (backend_generation_error model code) = record_backend_generation_error model code m
  step m (stream_error model) = record_stream_error model m
  step m (stream_cancellation model) = record_stream_cancellation model m

  unfoldable pub run : InMemoryMetrics Float → List (Event Float) → InMemoryMetrics Float
  run m [] = m
  run m (e ∷ es) = run (step m e) es
