-- ===== src/Batching.antt =====
-- batching.py: `FakeBatchedBackend`, the in-memory backend with its prompt cache and its counters.
-- A method that changes the object returns its result beside the new object; what it wrote before
-- a raise would stay written, and here every raise comes before the first write.
mod Counters
mod Cache
mod Replies
mod Sequence
mod Lifecycle
mod Tests
use mac_llm_ops_lab.Prelude.{
  ℕ, ◌+◌, ◌-◌, max, String, Bool, true, false, not, ◌&&◌, ◌||◌, List, [], ◌∷◌, ◌++◌, map,
  if◌then◌else◌, ◌==◌, string_eq, elem, add_elem, length, keep, any, sum_if, sum_of,
}
use mac_llm_ops_lab.Py.Str.{◌<>◌, token_count}
use mac_llm_ops_lab.Py.Result.{Result, ok, err, runtime_error, value_error, index_error}

pub record GenerationRequest : Type 0 where
  pub model : String
  pub prompt : String
  pub cancelled : Bool

-- One entry of `batch_observations`.
pub record BatchObservation : Type 0 where
  pub active_batch_size : ℕ
  pub cache_hits : ℕ
  pub cache_misses : ℕ
  pub prefill_tokens : ℕ
  pub decode_tokens : ℕ
  pub cache_saved_tokens : ℕ
  pub cancelled_requests : ℕ

pub record BatchMetrics : Type 0 where
  pub batches_total : ℕ
  pub requests_total : ℕ
  pub max_active_batch_size : ℕ
  pub queue_wait_ms_total : ℕ
  pub prefill_tokens_total : ℕ
  pub decode_tokens_total : ℕ
  pub cache_hits_total : ℕ
  pub cache_misses_total : ℕ
  pub cache_saved_tokens_total : ℕ
  pub cancelled_requests_total : ℕ
  pub batch_observations : List BatchObservation

abbrev pub empty_metrics : BatchMetrics
empty_metrics = record {
  batches_total = 0;
  requests_total = 0;
  max_active_batch_size = 0;
  queue_wait_ms_total = 0;
  prefill_tokens_total = 0;
  decode_tokens_total = 0;
  cache_hits_total = 0;
  cache_misses_total = 0;
  cache_saved_tokens_total = 0;
  cancelled_requests_total = 0;
  batch_observations = [];
}

-- The set `_cache` is kept as the list of its members.
pub record FakeBatchedBackend : Type 0 where
  pub model_id : String
  pub loaded : Bool
  pub closed : Bool
  pub cache : List String
  pub metrics : BatchMetrics

unfoldable pub init : String → FakeBatchedBackend
init model_id = record {
  model_id = model_id;
  loaded = false;
  closed = false;
  cache = [];
  metrics = empty_metrics;
}

unfoldable pub load : FakeBatchedBackend → FakeBatchedBackend
load b = record b { loaded = true; closed = false }

unfoldable pub close : FakeBatchedBackend → FakeBatchedBackend
close b = record b { closed = true }

unfoldable pub ready : FakeBatchedBackend → Bool
ready b = b.loaded && not b.closed

unfoldable pub fake_response : String → String → String
fake_response model prompt = model <> " response to " <> prompt

abbrev pub active : List GenerationRequest → List GenerationRequest
active = keep (λ r. not r.cancelled)

abbrev pub cached : FakeBatchedBackend → GenerationRequest → Bool
cached b r = elem r.prompt b.cache

-- What `generate_many` measures of a batch before it writes anything.
unfoldable pub observe : FakeBatchedBackend → List GenerationRequest → BatchObservation
observe b requests =
    let active_requests = active requests in
    let size = length active_requests in
    let hits = sum_if (cached b) (λ _. 1) active_requests in
    record {
      active_batch_size = size;
      cache_hits = hits;
      cache_misses = size - hits;
      prefill_tokens = sum_if (λ r. not (cached b r)) (λ r. token_count r.prompt) active_requests;
      decode_tokens = sum_of (λ r. token_count (fake_response b.model_id r.prompt)) active_requests;
      cache_saved_tokens = sum_if (cached b) (λ r. token_count r.prompt) active_requests;
      cancelled_requests = length requests - size;
    }

-- The block of `+=` statements, and the append.
unfoldable pub record_batch : BatchObservation → BatchMetrics → BatchMetrics
record_batch o m = record {
  batches_total = m.batches_total + 1;
  requests_total = m.requests_total + o.active_batch_size;
  max_active_batch_size = max m.max_active_batch_size o.active_batch_size;
  queue_wait_ms_total = m.queue_wait_ms_total + o.active_batch_size;
  prefill_tokens_total = m.prefill_tokens_total + o.prefill_tokens;
  decode_tokens_total = m.decode_tokens_total + o.decode_tokens;
  cache_hits_total = m.cache_hits_total + o.cache_hits;
  cache_misses_total = m.cache_misses_total + o.cache_misses;
  cache_saved_tokens_total = m.cache_saved_tokens_total + o.cache_saved_tokens;
  cancelled_requests_total = m.cancelled_requests_total + o.cancelled_requests;
  batch_observations = m.batch_observations ++ o ∷ [];
}

-- The last loop: every prompt goes into the cache, and its response into the list.
unfoldable pub respond :
    String → List GenerationRequest → List String → List String → List String × List String
respond model_id [] cache responses = (responses, cache)
respond model_id (r ∷ rs) cache responses =
    respond model_id rs (add_elem r.prompt cache)
      (responses ++ fake_response model_id r.prompt ∷ [])

unfoldable pub generate_many :
    List GenerationRequest → FakeBatchedBackend → Result (List String) × FakeBatchedBackend
generate_many requests b =
    if not b.loaded || b.closed
    then (err (runtime_error "FakeBatchedBackend is not ready"), b)
    else if any (λ r. not (r.model == b.model_id)) requests
    then (err (value_error "All fake batch requests must use the backend model"), b)
    else (let (responses, cache) = respond b.model_id (active requests) b.cache [] in
        (
          ok responses,
          record b { cache = cache; metrics = record_batch (observe b requests) b.metrics },
        ))

abbrev pub first : Result (List String) → Result String
first (ok []) = err index_error
first (ok (x ∷ xs)) = ok x
first (err e) = err e

unfoldable pub generate : String → String → FakeBatchedBackend → Result String × FakeBatchedBackend
generate prompt model b =
    let (responses, b') =
      generate_many (record { model = model; prompt = prompt; cancelled = false } ∷ []) b in
    (first responses, b')

-- The chunks that the asynchronous generator yields.
unfoldable pub stream :
    String → String → FakeBatchedBackend → Result (List String) × FakeBatchedBackend
stream prompt model b =
    let (content, b') = generate prompt model b in
    (elim content [ ok chunk ↦ ok (chunk ∷ []) | err e ↦ err e ], b')

-- The calls that a client can make, in the order in which they are made.
pub data Call : Type 0 where
  load_call close_call : Call
  generate_many_call : List GenerationRequest → Call
  generate_call stream_call : String → String → Call

unfoldable pub step : FakeBatchedBackend → Call → FakeBatchedBackend
step b load_call = load b
step b close_call = close b
step b (generate_many_call requests) = (generate_many requests b).1
step b (generate_call prompt model) = (generate prompt model b).1
step b (stream_call prompt model) = (stream prompt model b).1

unfoldable pub run : FakeBatchedBackend → List Call → FakeBatchedBackend
run b [] = b
run b (c ∷ cs) = run (step b c) cs
