-- ===== src/Batching/Cache.antt =====
-- The prompt cache: what a batch puts into it, and what the next batch saves by it.
use mac_llm_ops_lab.Prelude.{
  ℕ, String, ◌≡◌, refl, ◌∙◌, true, not, ◌||◌, List, [], ◌∷◌, arith, ◌==◌, ==_refl, string_eq, elem,
  add_elem, any, sum_if, sum_of, length, sum_of-one,
}
use mac_llm_ops_lab.Py.Str.{token_count}
use mac_llm_ops_lab.Batching.{
  GenerationRequest, FakeBatchedBackend, ready, load, close, active, cached, observe, generate_many,
  generate, stream, Call, load_call, close_call, generate_many_call, generate_call, stream_call,
  step, run,
}
use mac_llm_ops_lab.Batching.Replies.{
  with_prompts, all_own, generate_many-accepted, respond_lem, elem-add_elem, elem-with_prompts,
}

-- After an accepted batch the cache holds what it held and the prompts of the requests that were
-- not cancelled, and nothing else.
pub cache-generate_many :
    (p : String) (rs : List GenerationRequest) (b : FakeBatchedBackend)
    → ready b ≡ true
    → all_own b rs ≡ true
    → elem p (generate_many rs b).1.cache ≡ (elem p b.cache || any (λ r. p == r.prompt) (active rs))
cache-generate_many p rs b r own =
    rw (generate_many-accepted rs b r own) (elem-with_prompts p (active rs) b.cache)

-- All requests of `rs` are in `cache`.
abbrev AllCached : List GenerationRequest → List String → Type 0
AllCached [] cache = Unit
AllCached (r ∷ rs) cache = (elem r.prompt cache ≡ true) × AllCached rs cache

AllCached-add :
    (rs : List GenerationRequest) (q : String) (cache : List String)
    → AllCached rs cache
    → AllCached rs (add_elem q cache)
AllCached-add [] q cache h = tt
AllCached-add (r ∷ rs) q cache h =
    (ground (arith, elem-add_elem r.prompt q cache), AllCached-add rs q cache h.1)

elem-with_prompts_mono :
    (p : String) (rs : List GenerationRequest) (cache : List String)
    → elem p cache ≡ true
    → elem p (with_prompts rs cache) ≡ true
elem-with_prompts_mono p rs cache h = ground (arith, elem-with_prompts p rs cache)

with_prompts-AllCached :
    (rs : List GenerationRequest) (cache : List String) → AllCached rs (with_prompts rs cache)
with_prompts-AllCached [] cache = tt
with_prompts-AllCached (r ∷ rs) cache = (
  elem-with_prompts_mono r.prompt rs (add_elem r.prompt cache)
      (ground (arith, elem-add_elem r.prompt r.prompt cache, ==_refl r.prompt)),
  with_prompts-AllCached rs (add_elem r.prompt cache),
)

module _ (b : FakeBatchedBackend) (f : GenerationRequest → ℕ) where
  sum_if-AllCached :
      (rs : List GenerationRequest)
      → AllCached rs b.cache
      → (sum_if (cached b) f rs ≡ sum_of f rs) × (sum_if (λ r. not (cached b r)) f rs ≡ 0)
  sum_if-AllCached [] h = (refl, refl)
  sum_if-AllCached (r ∷ rs) h = ground (arith, sum_if-AllCached rs h.1)

-- A batch that is sent again right after it was accepted is all hits: it misses nothing, prefills
-- nothing, and saves every prompt token of its active requests.
pub observe_again :
    (rs : List GenerationRequest) (b : FakeBatchedBackend)
    → ready b ≡ true
    → all_own b rs ≡ true
    → let again = observe (generate_many rs b).1 rs in
      (again.cache_hits ≡ length (active rs))
      × (again.cache_misses ≡ 0)
      × (again.prefill_tokens ≡ 0)
      × (again.cache_saved_tokens ≡ sum_of (λ r. token_count r.prompt) (active rs))
unfolding observe
observe_again rs b r own = rw (generate_many-accepted rs b r own) (
    let b' : FakeBatchedBackend = record b { cache = with_prompts (active rs) b.cache } in
    let full = with_prompts-AllCached (active rs) b.cache in
    let ones = sum_if-AllCached b' (λ _. 1) (active rs) full in
    let tokens = sum_if-AllCached b' (λ x. token_count x.prompt) (active rs) full in
    (
      ones.0 ∙ sum_of-one (active rs),
      omega (arith, ones.0, sum_of-one (active rs)),
      tokens.1,
      tokens.0,
    ))

generate_many_keeps :
    (p : String) (rs : List GenerationRequest) (b : FakeBatchedBackend)
    → elem p b.cache ≡ true
    → elem p (generate_many rs b).1.cache ≡ true
unfolding generate_many
generate_many_keeps p rs b h = ground (
  arith,
  respond_lem b.model_id (active rs) b.cache [],
  elem-with_prompts_mono p (active rs) b.cache h,
)

step_keeps :
    (p : String) (b : FakeBatchedBackend) (c : Call)
    → elem p b.cache ≡ true
    → elem p (step b c).cache ≡ true
unfolding step load close generate stream
step_keeps p b load_call h = h
step_keeps p b close_call h = h
step_keeps p b (generate_many_call rs) h = generate_many_keeps p rs b h
step_keeps p b (generate_call prompt model) h = generate_many_keeps p _ b h
step_keeps p b (stream_call prompt model) h = generate_many_keeps p _ b h

-- Nothing leaves the cache: a cached prompt is cached after any further calls, closing and loading
-- again included.
pub run_keeps_cache :
    (p : String) (cs : List Call) (b : FakeBatchedBackend)
    → elem p b.cache ≡ true
    → elem p (run b cs).cache ≡ true
unfolding run
run_keeps_cache p [] b h = h
run_keeps_cache p (c ∷ cs) b h = run_keeps_cache p cs (step b c) (step_keeps p b c h)
