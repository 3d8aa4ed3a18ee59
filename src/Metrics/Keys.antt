-- ===== src/Metrics/Keys.antt =====
-- `snapshot` reads three dictionaries by the keys of one: it raises no `KeyError`, since every
-- recording method gives the three the same keys.
use mac_llm_ops_lab.Prelude.{
  ℕ, ◌≡◌, refl, ap, ◌∙◌, true, List, [], ◌∷◌, arith, ==_refl, elem, triple_eq, string_eq,
}
use mac_llm_ops_lab.Py.Dict.{Dict, keys, put, contains, get-contains, bump, keys-put, contains-elem}
use mac_llm_ops_lab.Py.Float.{FloatOps}
use mac_llm_ops_lab.Py.Result.{ok}
use mac_llm_ops_lab.Metrics.{
  Key, InMemoryMetrics, LatencyRow, Snapshot, Event, request, lookup, empty, latency_rows, snapshot,
  record_request, record_generated_text, record_http_error, record_backend_generation_error,
  record_stream_error, record_stream_cancellation, step, run,
}

pub record SameKeys {Float : Type 0} (m : InMemoryMetrics Float) : Type 0 where
  pub totals : keys m.request_latency_ms_total ≡ keys m.requests_total
  pub maxima : keys m.request_latency_ms_max ≡ keys m.requests_total

-- Two dictionaries with the same keys keep them over a write to one key.
same_keys-put :
    {V W : Type 0} (k : Key) (v : V) (w : W) (d : Dict Key V) (d' : Dict Key W)
    → keys d ≡ keys d'
    → keys (put k v d) ≡ keys (put k w d')
same_keys-put k v w d d' h =
    rw (keys-put k v d, keys-put k w d', contains-elem k d, contains-elem k d', h)

module _ (F : FloatOps) where
  open F use {Float}

  step-SameKeys : (m : InMemoryMetrics Float) (e : Event Float) → SameKeys m → SameKeys (step F m e)
  unfolding step record_request record_generated_text record_http_error
      record_backend_generation_error record_stream_error record_stream_cancellation bump
  step-SameKeys m (request route method status_code duration_ms) h = record {
    totals = same_keys-put _ _ _ m.request_latency_ms_total m.requests_total h.totals;
    maxima = same_keys-put _ _ _ m.request_latency_ms_max m.requests_total h.maxima;
  }
  step-SameKeys m _ h = record { totals = h.totals; maxima = h.maxima }

  run-SameKeys :
      (m : InMemoryMetrics Float) (es : List (Event Float)) → SameKeys m → SameKeys (run F m es)
  unfolding run
  run-SameKeys m [] h = h
  run-SameKeys m (e ∷ es) h = run-SameKeys (step F m e) es (step-SameKeys m e h)

lookup-ok :
    {V : Type 0} (k : Key) (d : Dict Key V) → contains k d ≡ true → (v : V) × (lookup k d ≡ ok v)
lookup-ok k d h = let (v, e) = get-contains k d h in (v, rw (e, lookup))

-- Every key of `ks` is a key of both dictionaries.
abbrev AllIn : {V W : Type 0} → List Key → Dict Key V → Dict Key W → Type 0
AllIn [] d d' = Unit
AllIn (k ∷ ks) d d' = (contains k d ≡ true) × (contains k d' ≡ true) × AllIn ks d d'

AllIn-of_elem :
    {V W : Type 0} (ks : List Key) (d : Dict Key V) (d' : Dict Key W)
    → ((k : Key) → elem k ks ≡ true → elem k (keys d) ≡ true)
    → ((k : Key) → elem k ks ≡ true → elem k (keys d') ≡ true)
    → AllIn ks d d'
AllIn-of_elem [] d d' h h' = tt
AllIn-of_elem (k ∷ ks) d d' h h' = (
  contains-elem k d ∙ h k (ground (arith, ==_refl k)),
  contains-elem k d' ∙ h' k (ground (arith, ==_refl k)),
  AllIn-of_elem ks d d' (λ j m. h j (ground arith)) (λ j m. h' j (ground arith)),
)

module _ {Float : Type 0} where
  latency_rows-ok :
      (requests : Dict Key ℕ) (maxima items : Dict Key Float)
      → AllIn (keys items) requests maxima
      → (rows : List (LatencyRow Float)) × (latency_rows requests maxima items ≡ ok rows)
  unfolding latency_rows
  latency_rows-ok requests maxima [] h = ([], refl)
  latency_rows-ok requests maxima ((k, total) ∷ items) h =
      let (count, count_eq) = lookup-ok k requests h.0 in
      let (max_ms, max_eq) = lookup-ok k maxima h.1 in
      let (rows, rows_eq) = latency_rows-ok requests maxima items h.2 in
      (
        record { key = k; count = count; total_ms = total; max_ms = max_ms } ∷ rows,
        rw (count_eq, max_eq, rows_eq),
      )

  abbrev snapshot_of : InMemoryMetrics Float → List (LatencyRow Float) → Snapshot Float
  snapshot_of m rows = record {
    requests_total = m.requests_total;
    request_latency_ms = rows;
    tokens_generated_total = m.tokens_generated_total;
    http_errors_total = m.http_errors_total;
    backend_generation_errors_total = m.backend_generation_errors_total;
    stream_errors_total = m.stream_errors_total;
    stream_cancellations_total = m.stream_cancellations_total;
  }

  all-SameKeys :
      (m : InMemoryMetrics Float)
      → SameKeys m
      → AllIn (keys m.request_latency_ms_total) m.requests_total m.request_latency_ms_max
  all-SameKeys m h = rw h.totals (
      AllIn-of_elem (keys m.requests_total) m.requests_total m.request_latency_ms_max (λ k p. p)
        (λ k p. ap (elem k) h.maxima ∙ p))

  snapshot-ok :
      (m : InMemoryMetrics Float) → SameKeys m → (s : Snapshot Float) × (snapshot m ≡ ok s)
  unfolding snapshot
  snapshot-ok m h =
      let (rows, e) =
        latency_rows-ok m.requests_total m.request_latency_ms_max m.request_latency_ms_total
          (all-SameKeys m h) in
      (snapshot_of m rows, rw e)

-- After any recording calls on new metrics `snapshot` returns: no key of the latency totals is
-- missing from the request counts or from the latency maxima.
pub snapshot-run :
    (F : FloatOps) (es : List (Event F.Float))
    → (s : Snapshot F.Float) × (snapshot (run F empty es) ≡ ok s)
unfolding empty
snapshot-run F es =
    snapshot-ok (run F empty es) (run-SameKeys F empty es (record { totals = refl; maxima = refl }))
