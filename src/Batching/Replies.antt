-- ===== src/Batching/Replies.antt =====
-- What `generate_many` and `generate` answer, and when they raise.
use mathlib.Core.Path.{subst}
use mac_llm_ops_lab.Prelude.{
  ℕ, ◌+◌, ◌-◌, ◌≤◌, ◌⊎◌, String, ◌≡◌, refl, ap, ◌∙◌, Bool, true, false, not, ◌&&◌, ◌||◌, List, [],
  ◌∷◌, ◌++◌, arith, ◌==◌, string_eq, elem, elem-append, add_elem, all, any, keep, length,
  length-keep-le, sum_if, sum_of,
}
use mac_llm_ops_lab.Py.Str.{token_count}
use mathlib.Core.List.{append_assoc, append-nil}
use mac_llm_ops_lab.Py.Result.{ok, is_ok}
use mac_llm_ops_lab.Batching.{
  GenerationRequest, BatchObservation, BatchMetrics, FakeBatchedBackend, ready, fake_response,
  active, cached, observe, record_batch, respond, generate_many,
}

-- The cache after the prompts of `rs` have been added one by one.
abbrev pub with_prompts : List GenerationRequest → List String → List String
with_prompts [] cache = cache
with_prompts (r ∷ rs) cache = with_prompts rs (add_elem r.prompt cache)

abbrev pub answers : String → List GenerationRequest → List String
answers model_id [] = []
answers model_id (r ∷ rs) = fake_response model_id r.prompt ∷ answers model_id rs

pub respond_lem :
    (model_id : String) (rs : List GenerationRequest) (cache out : List String)
    → respond model_id rs cache out ≡ (out ++ answers model_id rs, with_prompts rs cache)
unfolding respond
respond_lem model_id [] cache out = simp append-nil
respond_lem model_id (r ∷ rs) cache out =
    respond_lem model_id rs (add_elem r.prompt cache) (out ++ fake_response model_id r.prompt ∷ [])
    ∙ ap (λ xs. (xs, with_prompts rs (add_elem r.prompt cache)))
        (append_assoc out (fake_response model_id r.prompt ∷ []) (answers model_id rs))

-- Every request, cancelled or not, names the backend's model.
abbrev pub all_own : FakeBatchedBackend → List GenerationRequest → Bool
all_own b = all (λ r. r.model == b.model_id)

any-not_all :
    (b : FakeBatchedBackend) (rs : List GenerationRequest)
    → any (λ r. not (r.model == b.model_id)) rs ≡ not (all_own b rs)
any-not_all b [] = refl
any-not_all b (r ∷ rs) = ground (arith, any-not_all b rs)

-- A backend that is not ready, or a request for another model, a cancelled one too, makes the call
-- raise, and the call changes nothing.
pub generate_many_refuses :
    (rs : List GenerationRequest) (b : FakeBatchedBackend)
    → (ready b && all_own b rs) ≡ false
    → (is_ok (generate_many rs b).0 ≡ false) × ((generate_many rs b).1 ≡ b)
unfolding generate_many ready
generate_many_refuses rs b h = (ground (arith, any-not_all b rs), ground (arith, any-not_all b rs))

-- The branch that a ready backend takes for a batch of its own model.
pub generate_many-accepted :
    (rs : List GenerationRequest) (b : FakeBatchedBackend)
    → ready b ≡ true
    → all_own b rs ≡ true
    → generate_many rs b ≡ (
      ok (answers b.model_id (active rs)),
      record b {
        cache = with_prompts (active rs) b.cache;
        metrics = record_batch (observe b rs) b.metrics;
      },
    )
unfolding generate_many ready
generate_many-accepted rs b r own =
    ground (arith, any-not_all b rs, respond_lem b.model_id (active rs) b.cache [])

pub elem-add_elem :
    (p q : String) (cache : List String) → elem p (add_elem q cache) ≡ (elem p cache || p == q)
elem-add_elem p q cache = ground (arith, elem-append p cache (q ∷ []), string_eq.beq_iff p q)

pub elem-with_prompts :
    (p : String) (rs : List GenerationRequest) (cache : List String)
    → elem p (with_prompts rs cache) ≡ (elem p cache || any (λ r. p == r.prompt) rs)
elem-with_prompts p [] cache = ground arith
elem-with_prompts p (r ∷ rs) cache =
    ground (arith, elem-with_prompts p rs (add_elem r.prompt cache), elem-add_elem p r.prompt cache)

-- The requests of a batch, each in one of three groups.
abbrev pub cancelled_ones : List GenerationRequest → List GenerationRequest
cancelled_ones = keep (λ r. r.cancelled)

abbrev pub hit_ones : FakeBatchedBackend → List GenerationRequest → List GenerationRequest
hit_ones b rs = keep (cached b) (active rs)

abbrev pub missed_ones : FakeBatchedBackend → List GenerationRequest → List GenerationRequest
missed_ones b rs = keep (λ r. not (cached b r)) (active rs)

abbrev pub prompt_tokens : List GenerationRequest → ℕ
prompt_tokens = sum_of (λ r. token_count r.prompt)

-- The observation that the groups and the answers give.
abbrev pub measured : FakeBatchedBackend → List GenerationRequest → BatchObservation
measured b rs = record {
  active_batch_size = length (active rs);
  cache_hits = length (hit_ones b rs);
  cache_misses = length (missed_ones b rs);
  prefill_tokens = prompt_tokens (missed_ones b rs);
  decode_tokens = sum_of token_count (answers b.model_id (active rs));
  cache_saved_tokens = prompt_tokens (hit_ones b rs);
  cancelled_requests = length (cancelled_ones rs);
}

-- What the metrics `m'` are after one batch whose observation is `o`, if they were `m` before.
pub record HasBatch (o : BatchObservation) (m m' : BatchMetrics) : Type 0 where
  pub batches : m'.batches_total ≡ m.batches_total + 1
  pub requests : m'.requests_total ≡ m.requests_total + o.active_batch_size
  pub at_least_before : m.max_active_batch_size ≤ m'.max_active_batch_size
  pub at_least_this : o.active_batch_size ≤ m'.max_active_batch_size
  pub largest :
      (m'.max_active_batch_size ≡ m.max_active_batch_size)
      ⊎ (m'.max_active_batch_size ≡ o.active_batch_size)
  pub waits : m'.queue_wait_ms_total ≡ m.queue_wait_ms_total + o.active_batch_size
  pub prefill : m'.prefill_tokens_total ≡ m.prefill_tokens_total + o.prefill_tokens
  pub decode : m'.decode_tokens_total ≡ m.decode_tokens_total + o.decode_tokens
  pub hits : m'.cache_hits_total ≡ m.cache_hits_total + o.cache_hits
  pub misses : m'.cache_misses_total ≡ m.cache_misses_total + o.cache_misses
  pub saved : m'.cache_saved_tokens_total ≡ m.cache_saved_tokens_total + o.cache_saved_tokens
  pub cancelled : m'.cancelled_requests_total ≡ m.cancelled_requests_total + o.cancelled_requests
  pub observations : m'.batch_observations ≡ m.batch_observations ++ o ∷ []

record_batch-HasBatch : (o : BatchObservation) (m : BatchMetrics) → HasBatch o m (record_batch o m)
unfolding record_batch
record_batch-HasBatch o m = record {
  batches = refl;
  requests = refl;
  at_least_before = omega arith;
  at_least_this = omega arith;
  largest = grind arith;
  waits = refl;
  prefill = refl;
  decode = refl;
  hits = refl;
  misses = refl;
  saved = refl;
  cancelled = refl;
  observations = refl;
}

module _ {A : Type 0} (p : A → Bool) where
  sum_if-keep : (f : A → ℕ) (xs : List A) → sum_if p f xs ≡ sum_of f (keep p xs)
  sum_if-keep f [] = refl
  sum_if-keep f (x ∷ xs) = ground (arith, sum_if-keep f xs)

  count-keep : (xs : List A) → sum_if p (λ _. 1) xs ≡ length (keep p xs)
  count-keep [] = refl
  count-keep (x ∷ xs) = ground (arith, count-keep xs)

  length-keep-not :
      (xs : List A) → length xs - length (keep p xs) ≡ length (keep (λ x. not (p x)) xs)
  length-keep-not [] = refl
  length-keep-not (x ∷ xs) = ground (arith, length-keep-not xs, length-keep-le p xs)

length-cancelled :
    (rs : List GenerationRequest) → length rs - length (active rs) ≡ length (cancelled_ones rs)
length-cancelled [] = refl
length-cancelled (r ∷ rs) =
    ground (arith, length-cancelled rs, length-keep-le (λ x. not x.cancelled) rs)

sum_of-answers :
    (model_id : String) (rs : List GenerationRequest)
    → sum_of (λ r. token_count (fake_response model_id r.prompt)) rs
      ≡ sum_of token_count (answers model_id rs)
sum_of-answers model_id [] = refl
sum_of-answers model_id (r ∷ rs) =
    ap (λ n. token_count (fake_response model_id r.prompt) + n) (sum_of-answers model_id rs)

observe_lem : (b : FakeBatchedBackend) (rs : List GenerationRequest) → observe b rs ≡ measured b rs
unfolding observe
observe_lem b rs = rw (
  sum_if-keep (cached b) (λ r. token_count r.prompt) (active rs),
  sum_if-keep (λ r. not (cached b r)) (λ r. token_count r.prompt) (active rs),
  count-keep (cached b) (active rs),
  sum_of-answers b.model_id (active rs),
  length-keep-not (cached b) (active rs),
  length-cancelled rs,
)

-- A ready backend answers a batch whose every request, cancelled or not, names its model: with one
-- response for each request that is not cancelled, in order. A prompt `p` is in the cache
-- afterwards exactly when it was there before or is the prompt of a request that is not cancelled.
-- The metrics grow by one batch: one observation is appended, with the numbers of the active and
-- the cancelled requests, of the hits and the misses in the cache as it was before the batch, and
-- of the tokens of the missed prompts, the answers and the hit prompts; each total grows by its
-- figure, the waiting time by one for each active request, and the largest batch is the larger of
-- the one before and this one. The model and the two flags stay.
pub generate_many_replies :
    (p : String) (rs : List GenerationRequest) (b : FakeBatchedBackend)
    → ready b ≡ true
    → all_own b rs ≡ true
    → let (replies, b') = generate_many rs b in
      (replies ≡ ok (answers b.model_id (active rs)))
      × (elem p b'.cache ≡ (elem p b.cache || any (λ r. p == r.prompt) (active rs)))
      × HasBatch (measured b rs) b.metrics b'.metrics
      × (b'.model_id ≡ b.model_id)
      × (b'.loaded ≡ b.loaded)
      × (b'.closed ≡ b.closed)
generate_many_replies p rs b r own = rw (generate_many-accepted rs b r own) (
  refl,
  elem-with_prompts p (active rs) b.cache,
  subst (λ o. HasBatch o b.metrics (record_batch (observe b rs) b.metrics)) (observe_lem b rs)
      (record_batch-HasBatch (observe b rs) b.metrics),
  refl,
  refl,
  refl,
)
