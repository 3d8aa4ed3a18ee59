-- ===== src/Metrics/Tests.antt =====
-- Runs of `InMemoryMetrics`, and the theorems at concrete inputs.
use mac_llm_ops_lab.Prelude.{◌≡◌, refl, List, [], ◌∷◌, ℕ, string_eq, pair_eq, triple_eq}
use mac_llm_ops_lab.Py.Float.{milli}
use mac_llm_ops_lab.Py.Str.{is_space, token_count}
use mac_llm_ops_lab.Py.Number.{str_of_nat}
use mac_llm_ops_lab.Py.Dict.{count_at, put, get, bump}
use mac_llm_ops_lab.Py.Result.{ok}
use mac_llm_ops_lab.Metrics.{
  Snapshot, Event, request, generated_text, stream_error, empty, run, snapshot, record_request,
  step, record_generated_text, record_stream_error,
}
use mac_llm_ops_lab.Metrics.Keys.{snapshot-run}
use mac_llm_ops_lab.Metrics.Counts.{counts-run}

abbrev history : List (Event ℕ)
history =
    request "/live" "GET" 200 7
    ∷ generated_text "m" "one two"
    ∷ request "/live" "GET" 200 3
    ∷ stream_error "m"
    ∷ []

latencies : (run milli empty history).request_latency_ms_total ≡ (("/live", "GET", "200"), 10) ∷ []
unfolding run step record_request empty str_of_nat put get bump record_generated_text
    record_stream_error
latencies = refl

snapshot-run_example : (s : Snapshot ℕ) × (snapshot (run milli empty history) ≡ ok s)
snapshot-run_example = snapshot-run milli history

counts-run_example :
    let m = run milli empty history in
    (count_at ("/live", "GET", "200") m.requests_total ≡ 2)
    × (count_at "m" m.tokens_generated_total ≡ 2)
    × (count_at ("/live", "GET", "200") m.http_errors_total ≡ 0)
    × (count_at ("m", "x") m.backend_generation_errors_total ≡ 0)
    × (count_at "m" m.stream_errors_total ≡ 1)
    × (count_at "m" m.stream_cancellations_total ≡ 0)
unfolding str_of_nat token_count empty count_at is_space
counts-run_example = counts-run milli history empty ("/live", "GET", "200") ("m", "x") "m"
