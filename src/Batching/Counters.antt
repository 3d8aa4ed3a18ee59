-- ===== src/Batching/Counters.antt =====
-- The counters of `_BatchMetrics` agree with one another and with the list of observations.
use mac_llm_ops_lab.Prelude.{
  ℕ, ◌+◌, ◌≤◌, max, String, ◌≡◌, refl, Bool, not, List, [], ◌∷◌, ◌++◌, arith, length, sum_of,
  sum_if, sum_of-append, length-append, sum_if_split, length-keep-le,
}
use mac_llm_ops_lab.Py.Str.{token_count}
use mac_llm_ops_lab.Batching.{
  GenerationRequest, BatchObservation, BatchMetrics, FakeBatchedBackend, init, load, close, active,
  cached, observe, record_batch, generate_many, generate, stream, Call, load_call, close_call,
  generate_many_call, generate_call, stream_call, step, run,
}

-- The largest batch in a list of observations.
abbrev pub largest : List BatchObservation → ℕ
largest [] = 0
largest (o ∷ os) = max o.active_batch_size (largest os)

largest-append :
    (os : List BatchObservation) (o : BatchObservation)
    → largest (os ++ o ∷ []) ≡ max (largest os) o.active_batch_size
largest-append [] o = omega arith
largest-append (p ∷ os) o = omega (arith, largest-append os o)

-- Each total is the sum of its column, hits and misses share out the requests, and the maximum is
-- that of the observed sizes.
pub record IsConsistent (m : BatchMetrics) : Type 0 where
  pub batches : m.batches_total ≡ length m.batch_observations
  pub requests : m.requests_total ≡ sum_of (λ o. o.active_batch_size) m.batch_observations
  pub waits : m.queue_wait_ms_total ≡ m.requests_total
  pub split : m.cache_hits_total + m.cache_misses_total ≡ m.requests_total
  pub hits : m.cache_hits_total ≡ sum_of (λ o. o.cache_hits) m.batch_observations
  pub misses : m.cache_misses_total ≡ sum_of (λ o. o.cache_misses) m.batch_observations
  pub prefill : m.prefill_tokens_total ≡ sum_of (λ o. o.prefill_tokens) m.batch_observations
  pub decode : m.decode_tokens_total ≡ sum_of (λ o. o.decode_tokens) m.batch_observations
  pub saved : m.cache_saved_tokens_total ≡ sum_of (λ o. o.cache_saved_tokens) m.batch_observations
  pub cancelled :
      m.cancelled_requests_total ≡ sum_of (λ o. o.cancelled_requests) m.batch_observations
  pub largest_batch : m.max_active_batch_size ≡ largest m.batch_observations

sum_if-one-le : {A : Type 0} (p : A → Bool) (xs : List A) → sum_if p (λ _. 1) xs ≤ length xs
sum_if-one-le p [] = omega arith
sum_if-one-le p (x ∷ xs) = ground (arith, sum_if-one-le p xs)

-- One observation shares out what it measures: every request is active or cancelled, every active
-- one is a hit or a miss, and the tokens of the active prompts are prefilled or saved.
pub observe_shares :
    (b : FakeBatchedBackend) (requests : List GenerationRequest)
    → let o = observe b requests in
      (o.active_batch_size + o.cancelled_requests ≡ length requests)
      × (o.cache_hits + o.cache_misses ≡ o.active_batch_size)
      × (o.prefill_tokens + o.cache_saved_tokens
          ≡ sum_of (λ r. token_count r.prompt) (active requests))
unfolding observe
observe_shares b requests = (
  omega (arith, length-keep-le (λ r. not r.cancelled) requests),
  omega (arith, sum_if-one-le (cached b) (active requests)),
  omega (arith, sum_if_split (cached b) (λ r. token_count r.prompt) (active requests)),
)

record_batch-IsConsistent :
    (o : BatchObservation) (m : BatchMetrics)
    → o.cache_hits + o.cache_misses ≡ o.active_batch_size
    → IsConsistent m
    → IsConsistent (record_batch o m)
unfolding record_batch
record_batch-IsConsistent o m h c = record {
  batches = omega (arith, c.batches, length-append m.batch_observations (o ∷ []));
  requests =
      omega
        (arith, c.requests, sum_of-append (λ p. p.active_batch_size) m.batch_observations (o ∷ []));
  waits = omega (arith, c.waits);
  split = omega (arith, c.split);
  hits = omega (arith, c.hits, sum_of-append (λ p. p.cache_hits) m.batch_observations (o ∷ []));
  misses =
      omega (arith, c.misses, sum_of-append (λ p. p.cache_misses) m.batch_observations (o ∷ []));
  prefill =
      omega (arith, c.prefill, sum_of-append (λ p. p.prefill_tokens) m.batch_observations (o ∷ []));
  decode =
      omega (arith, c.decode, sum_of-append (λ p. p.decode_tokens) m.batch_observations (o ∷ []));
  saved =
      omega
        (arith, c.saved, sum_of-append (λ p. p.cache_saved_tokens) m.batch_observations (o ∷ []));
  cancelled =
      omega (
        arith,
        c.cancelled,
        sum_of-append (λ p. p.cancelled_requests) m.batch_observations (o ∷ []),
      );
  largest_batch = omega (arith, c.largest_batch, largest-append m.batch_observations o);
}

generate_many-IsConsistent :
    (requests : List GenerationRequest) (b : FakeBatchedBackend)
    → IsConsistent b.metrics
    → IsConsistent (generate_many requests b).1.metrics
unfolding generate_many
generate_many-IsConsistent requests b c = ground (
  arith,
  record_batch-IsConsistent (observe b requests) b.metrics (observe_shares b requests).1 c,
)

step-IsConsistent :
    (c : Call) (b : FakeBatchedBackend) → IsConsistent b.metrics → IsConsistent (step b c).metrics
unfolding step load close generate stream
step-IsConsistent load_call b h = h
step-IsConsistent close_call b h = h
step-IsConsistent (generate_many_call requests) b h = generate_many-IsConsistent requests b h
step-IsConsistent (generate_call prompt model) b h = generate_many-IsConsistent _ b h
step-IsConsistent (stream_call prompt model) b h = generate_many-IsConsistent _ b h

run-IsConsistent :
    (cs : List Call) (b : FakeBatchedBackend)
    → IsConsistent b.metrics
    → IsConsistent (run b cs).metrics
unfolding run
run-IsConsistent [] b h = h
run-IsConsistent (c ∷ cs) b h = run-IsConsistent cs (step b c) (step-IsConsistent c b h)

-- After any calls on a new backend, failed ones included, the counters are consistent: each total is
-- the sum of its column in the observations, hits and misses add up to the requests, and the
-- largest batch is the maximum of the observed sizes.
pub run-init-IsConsistent :
    (model_id : String) (cs : List Call) → IsConsistent (run (init model_id) cs).metrics
unfolding init
run-init-IsConsistent model_id cs = run-IsConsistent cs _ (record {
  batches = refl;
  requests = refl;
  waits = refl;
  split = omega arith;
  hits = refl;
  misses = refl;
  prefill = refl;
  decode = refl;
  saved = refl;
  cancelled = refl;
  largest_batch = refl;
})
