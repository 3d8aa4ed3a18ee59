-- ===== src/Batching/Tests.antt =====
-- Runs of `FakeBatchedBackend`, and the theorems at concrete inputs.
use mac_llm_ops_lab.Prelude.{
  String, ◌≡◌, refl, true, false, ◌||◌, ◌==◌, List, [], ◌∷◌, elem, any, string_eq, sum_of,
}
use mac_llm_ops_lab.Py.Str.{is_space, token_count}
use mac_llm_ops_lab.Py.Result.{ok, err, runtime_error, is_ok}
use mac_llm_ops_lab.Batching.{
  GenerationRequest, BatchObservation, FakeBatchedBackend, init, ready, fake_response, observe,
  generate_many, generate, Call, load_call, close_call, generate_many_call, generate_call, run,
  active,
}
use mac_llm_ops_lab.Batching.Counters.{IsConsistent, observe_shares, run-init-IsConsistent}
use mac_llm_ops_lab.Batching.Replies.{
  answers, all_own, measured, HasBatch, generate_many_refuses, generate_many_replies,
}
use mac_llm_ops_lab.Batching.Sequence.{requests_for, generate_each, batch-sequence}
use mac_llm_ops_lab.Batching.Cache.{cache-generate_many, observe_again, run_keeps_cache}
use mac_llm_ops_lab.Batching.Lifecycle.{ready-run}

abbrev warm : FakeBatchedBackend
warm = record (init "m") { loaded = true; cache = "hello there" ∷ [] }

abbrev ask : String → GenerationRequest
ask prompt = record { model = "m"; prompt = prompt; cancelled = false }

abbrev batch : List GenerationRequest
batch = ask "hello there" ∷ ask "one two three" ∷ record (ask "stop") { cancelled = true } ∷ []

abbrev calls : List Call
calls = load_call ∷ generate_many_call batch ∷ close_call ∷ generate_call "late" "m" ∷ []

cold_raises :
    (generate "hi" "m" (init "m")).0 ≡ err (runtime_error "FakeBatchedBackend is not ready")
unfolding generate generate_many init
cold_raises = refl

batch_counts :
    let o = observe warm batch in
    (o.cache_hits ≡ 1) × (o.prefill_tokens ≡ 3) × (o.cache_saved_tokens ≡ 2)
unfolding observe token_count init is_space
batch_counts = (refl, refl, refl)

warm_ready : ready warm ≡ true
unfolding ready init
warm_ready = refl

batch_own : all_own warm batch ≡ true
unfolding init
batch_own = refl

run-init-IsConsistent_example : IsConsistent (run (init "m") calls).metrics
run-init-IsConsistent_example = run-init-IsConsistent "m" calls

observe_shares_test :
    let o = observe warm batch in
    (Prim.Native.Nat.◌+◌ o.active_batch_size o.cancelled_requests ≡ 3)
    × (Prim.Native.Nat.◌+◌ o.cache_hits o.cache_misses ≡ o.active_batch_size)
    × (Prim.Native.Nat.◌+◌ o.prefill_tokens o.cache_saved_tokens
        ≡ sum_of (λ r. token_count r.prompt) (active batch))
observe_shares_test = observe_shares warm batch

generate_many_refuses_test :
    (is_ok (generate_many (ask "x" ∷ []) (init "n")).0 ≡ false)
    × ((generate_many (ask "x" ∷ []) (init "n")).1 ≡ init "n")
unfolding ready init
generate_many_refuses_test = generate_many_refuses (ask "x" ∷ []) (init "n") refl

abbrev batch_observation : BatchObservation
batch_observation = record {
  active_batch_size = 2;
  cache_hits = 1;
  cache_misses = 1;
  prefill_tokens = 3;
  decode_tokens = 11;
  cache_saved_tokens = 2;
  cancelled_requests = 1;
}

batch-measured : measured warm batch ≡ batch_observation
unfolding init token_count is_space fake_response
batch-measured = refl

generate_many_replies_example :
    let (replies, b') = generate_many batch warm in
    (replies ≡ ok (answers warm.model_id (active batch)))
    × (elem "stop" b'.cache
        ≡ (elem "stop" warm.cache || any (λ r. "stop" == r.prompt) (active batch)))
    × HasBatch (measured warm batch) warm.metrics b'.metrics
    × (b'.model_id ≡ warm.model_id)
    × (b'.loaded ≡ warm.loaded)
    × (b'.closed ≡ warm.closed)
generate_many_replies_example = generate_many_replies "stop" batch warm warm_ready batch_own

batch-sequence_example :
    let many = generate_many (requests_for warm.model_id ("a" ∷ "b" ∷ "a" ∷ [])) warm in
    let each = generate_each warm.model_id ("a" ∷ "b" ∷ "a" ∷ []) warm in
    (many.0 ≡ each.0)
    × (many.1.cache ≡ each.1.cache)
    × (many.1.metrics.requests_total ≡ each.1.metrics.requests_total)
    × (many.1.metrics.decode_tokens_total ≡ each.1.metrics.decode_tokens_total)
batch-sequence_example = batch-sequence ("a" ∷ "b" ∷ "a" ∷ []) warm warm_ready

cache-generate_many_test : elem "stop" (generate_many batch warm).1.cache ≡ false
unfolding init
cache-generate_many_test = cache-generate_many "stop" batch warm warm_ready batch_own

observe_again_test :
    let again = observe (generate_many batch warm).1 batch in
    (again.cache_hits ≡ 2)
    × (again.cache_misses ≡ 0)
    × (again.prefill_tokens ≡ 0)
    × (again.cache_saved_tokens ≡ sum_of (λ r. token_count r.prompt) (active batch))
observe_again_test = observe_again batch warm warm_ready batch_own

run_keeps_cache_test : elem "hello there" (run warm calls).cache ≡ true
unfolding init
run_keeps_cache_test = run_keeps_cache "hello there" calls warm refl

ready-run_test : ready (run warm calls) ≡ false
ready-run_test = ready-run calls warm
