-- ===== src/Metrics/Counts.antt =====
-- The counters hold what the history of recording calls adds up to.
use mac_llm_ops_lab.Prelude.{
  ℕ, ◌+◌, String, ◌≡◌, List, [], ◌∷◌, arith, if◌then◌else◌, ◌==◌, string_eq, pair_eq, triple_eq,
  sum_of,
}
use mac_llm_ops_lab.Py.Str.{token_count}
use mac_llm_ops_lab.Py.Number.{str_of_nat}
use mac_llm_ops_lab.Py.Dict.{count_at, count_at-bump}
use mac_llm_ops_lab.Py.Float.{FloatOps}
use mac_llm_ops_lab.Metrics.{
  Key, InMemoryMetrics, Event, request, generated_text, http_error, backend_generation_error,
  stream_error, stream_cancellation, record_request, record_generated_text, record_http_error,
  record_backend_generation_error, record_stream_error, record_stream_cancellation, step, run,
}

-- What one call adds to each counter, read off the call itself.
module _ {Float : Type 0} where
  abbrev pub requests_of : Key → Event Float → ℕ
  requests_of k (request route method status_code _) =
      if k == (route, method, str_of_nat status_code) then 1 else 0
  requests_of k _ = 0

  abbrev pub tokens_of : String → Event Float → ℕ
  tokens_of k (generated_text model content) = if k == model then token_count content else 0
  tokens_of k _ = 0

  abbrev pub http_errors_of : Key → Event Float → ℕ
  http_errors_of k (http_error route status_code code) =
      if k == (route, str_of_nat status_code, code) then 1 else 0
  http_errors_of k _ = 0

  abbrev pub generation_errors_of : String × String → Event Float → ℕ
  generation_errors_of k (backend_generation_error model code) = if k == (model, code) then 1 else 0
  generation_errors_of k _ = 0

  abbrev pub stream_errors_of : String → Event Float → ℕ
  stream_errors_of k (stream_error model) = if k == model then 1 else 0
  stream_errors_of k _ = 0

  abbrev pub stream_cancellations_of : String → Event Float → ℕ
  stream_cancellations_of k (stream_cancellation model) = if k == model then 1 else 0
  stream_cancellations_of k _ = 0

module _ (F : FloatOps) where
  open F use {Float}

  module _ (counter : InMemoryMetrics Float → ℕ) (weight : Event Float → ℕ)
      (adds : (m : InMemoryMetrics Float) (e : Event Float)
        → counter (step F m e) ≡ counter m + weight e) where
    counter-run :
        (es : List (Event Float)) (m : InMemoryMetrics Float)
        → counter (run F m es) ≡ counter m + sum_of weight es
    unfolding run
    counter-run [] m = omega arith
    counter-run (e ∷ es) m = omega (arith, counter-run es (step F m e), adds m e)

  requests-step :
      (k : Key) (m : InMemoryMetrics Float) (e : Event Float)
      → count_at k (step F m e).requests_total ≡ count_at k m.requests_total + requests_of k e
  unfolding step record_request record_generated_text record_http_error
      record_backend_generation_error record_stream_error record_stream_cancellation
  requests-step k m (request route method status_code duration_ms) =
      count_at-bump k _ 1 m.requests_total
  requests-step k m _ = omega arith

  tokens-step :
      (k : String) (m : InMemoryMetrics Float) (e : Event Float)
      → count_at k (step F m e).tokens_generated_total
        ≡ count_at k m.tokens_generated_total + tokens_of k e
  unfolding step record_request record_generated_text record_http_error
      record_backend_generation_error record_stream_error record_stream_cancellation
  tokens-step k m (generated_text model content) = count_at-bump k _ _ m.tokens_generated_total
  tokens-step k m _ = omega arith

  http_errors-step :
      (k : Key) (m : InMemoryMetrics Float) (e : Event Float)
      → count_at k (step F m e).http_errors_total
        ≡ count_at k m.http_errors_total + http_errors_of k e
  unfolding step record_request record_generated_text record_http_error
      record_backend_generation_error record_stream_error record_stream_cancellation
  http_errors-step k m (http_error route status_code code) = count_at-bump k _ 1 m.http_errors_total
  http_errors-step k m _ = omega arith

  generation_errors-step :
      (k : String × String) (m : InMemoryMetrics Float) (e : Event Float)
      → count_at k (step F m e).backend_generation_errors_total
        ≡ count_at k m.backend_generation_errors_total + generation_errors_of k e
  unfolding step record_request record_generated_text record_http_error
      record_backend_generation_error record_stream_error record_stream_cancellation
  generation_errors-step k m (backend_generation_error model code) =
      count_at-bump k _ 1 m.backend_generation_errors_total
  generation_errors-step k m _ = omega arith

  stream_errors-step :
      (k : String) (m : InMemoryMetrics Float) (e : Event Float)
      → count_at k (step F m e).stream_errors_total
        ≡ count_at k m.stream_errors_total + stream_errors_of k e
  unfolding step record_request record_generated_text record_http_error
      record_backend_generation_error record_stream_error record_stream_cancellation
  stream_errors-step k m (stream_error model) = count_at-bump k _ 1 m.stream_errors_total
  stream_errors-step k m _ = omega arith

  stream_cancellations-step :
      (k : String) (m : InMemoryMetrics Float) (e : Event Float)
      → count_at k (step F m e).stream_cancellations_total
        ≡ count_at k m.stream_cancellations_total + stream_cancellations_of k e
  unfolding step record_request record_generated_text record_http_error
      record_backend_generation_error record_stream_error record_stream_cancellation
  stream_cancellations-step k m (stream_cancellation model) =
      count_at-bump k _ 1 m.stream_cancellations_total
  stream_cancellations-step k m _ = omega arith

-- After any recording calls each counter holds, at each key, what those calls add up to at that key:
-- one for each call with the key, and for generated text the number of its words.
pub counts-run :
    (F : FloatOps) (es : List (Event F.Float)) (m : InMemoryMetrics F.Float) (key : Key)
    (pair : String × String) (model : String)
    → let m' = run F m es in
      (count_at key m'.requests_total ≡ count_at key m.requests_total + sum_of (requests_of key) es)
      × (count_at model m'.tokens_generated_total
          ≡ count_at model m.tokens_generated_total + sum_of (tokens_of model) es)
      × (count_at key m'.http_errors_total
          ≡ count_at key m.http_errors_total + sum_of (http_errors_of key) es)
      × (count_at pair m'.backend_generation_errors_total
          ≡ count_at pair m.backend_generation_errors_total + sum_of (generation_errors_of pair) es)
      × (count_at model m'.stream_errors_total
          ≡ count_at model m.stream_errors_total + sum_of (stream_errors_of model) es)
      × (count_at model m'.stream_cancellations_total
          ≡ count_at model m.stream_cancellations_total + sum_of (stream_cancellations_of model) es)
counts-run F es m key pair model = (
  counter-run F (λ n. count_at key n.requests_total) (requests_of key) (requests-step F key) es m,
  counter-run F (λ n. count_at model n.tokens_generated_total) (tokens_of model)
      (tokens-step F model) es m,
  counter-run F (λ n. count_at key n.http_errors_total) (http_errors_of key)
      (http_errors-step F key) es m,
  counter-run F (λ n. count_at pair n.backend_generation_errors_total) (generation_errors_of pair)
      (generation_errors-step F pair) es m,
  counter-run F (λ n. count_at model n.stream_errors_total) (stream_errors_of model)
      (stream_errors-step F model) es m,
  counter-run F (λ n. count_at model n.stream_cancellations_total) (stream_cancellations_of model)
      (stream_cancellations-step F model) es m,
)
