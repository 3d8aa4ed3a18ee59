-- ===== src/Batching/Sequence.antt =====
-- One batch against the same prompts sent one at a time.
use mac_llm_ops_lab.Prelude.{
  suc, ◌+◌, String, ◌≡◌, refl, ap, sym, ◌∙◌, true, false, List, [], ◌∷◌, arith, ==_refl, string_eq,
  length, sum_of, add_elem,
}
use mathlib.Core.Path.{subst}
use mac_llm_ops_lab.Py.Str.{token_count}
use mac_llm_ops_lab.Py.Result.{Result, ok, err, ◌>>=◌}
use mac_llm_ops_lab.Batching.{
  GenerationRequest, FakeBatchedBackend, ready, fake_response, active, observe, record_batch,
  generate_many, generate, first,
}
use mac_llm_ops_lab.Batching.Replies.{with_prompts, answers, all_own, generate_many-accepted}

abbrev pub requests_for : String → List String → List GenerationRequest
requests_for model [] = []
requests_for model (p ∷ ps) =
    record { model = model; prompt = p; cancelled = false } ∷ requests_for model ps

-- `[await backend.generate(p, model) for p in prompts]`: the first exception ends it.
pub generate_each :
    String → List String → FakeBatchedBackend → Result (List String) × FakeBatchedBackend
generate_each model [] b = (ok [], b)
generate_each model (p ∷ ps) b =
    let (reply, b') = generate p model b in
    let rest = generate_each model ps b' in
    elim reply [ ok r ↦ ((rest.0 >>= λ rs. ok (r ∷ rs)), rest.1) | err e ↦ (err e, b') ]

active-requests_for :
    (model : String) (ps : List String) → active (requests_for model ps) ≡ requests_for model ps
active-requests_for model [] = refl
active-requests_for model (p ∷ ps) =
    ap (λ rs. record { model = model; prompt = p; cancelled = false } ∷ rs)
      (active-requests_for model ps)

all_own-requests_for :
    (b : FakeBatchedBackend) (ps : List String) → all_own b (requests_for b.model_id ps) ≡ true
all_own-requests_for b [] = refl
all_own-requests_for b (p ∷ ps) = ground (arith, ==_refl b.model_id, all_own-requests_for b ps)

-- What the two ways have in common.
record SameWork (model : String) (ps : List String) (b : FakeBatchedBackend)
    (r : Result (List String) × FakeBatchedBackend) : Type 0 where
  replies : r.0 ≡ ok (answers model (requests_for model ps))
  cache : r.1.cache ≡ with_prompts (requests_for model ps) b.cache
  requests : r.1.metrics.requests_total ≡ b.metrics.requests_total + length ps
  decoded :
      r.1.metrics.decode_tokens_total
      ≡ b.metrics.decode_tokens_total + sum_of (λ p. token_count (fake_response model p)) ps

length-requests_for :
    (model : String) (ps : List String) → length (requests_for model ps) ≡ length ps
length-requests_for model [] = refl
length-requests_for model (p ∷ ps) = ap suc (length-requests_for model ps)

decode-requests_for :
    (m model : String) (ps : List String)
    → sum_of (λ r. token_count (fake_response m r.prompt)) (requests_for model ps)
      ≡ sum_of (λ p. token_count (fake_response m p)) ps
decode-requests_for m model [] = refl
decode-requests_for m model (p ∷ ps) = omega (arith, decode-requests_for m model ps)

batch-SameWork :
    (ps : List String) (b : FakeBatchedBackend)
    → ready b ≡ true
    → SameWork b.model_id ps b (generate_many (requests_for b.model_id ps) b)
unfolding observe record_batch
batch-SameWork ps b r =
    rw
      (
        generate_many-accepted (requests_for b.model_id ps) b r (all_own-requests_for b ps),
        active-requests_for b.model_id ps,
      )
      (record {
        replies = refl;
        cache = refl;
        requests = omega (arith, length-requests_for b.model_id ps);
        decoded = omega (arith, decode-requests_for b.model_id b.model_id ps);
      })

ready-generate :
    (p model : String) (b : FakeBatchedBackend)
    → (ready (generate p model b).1 ≡ ready b) × ((generate p model b).1.model_id ≡ b.model_id)
unfolding generate generate_many ready
ready-generate p model b = (ground arith, ground arith)

-- One prompt alone.
abbrev OnePrompt : String → String → FakeBatchedBackend → Type 0
OnePrompt model p b =
    ((generate p model b).0 ≡ ok (fake_response model p))
    × ((generate p model b).1.cache ≡ add_elem p b.cache)
    × ((generate p model b).1.metrics.requests_total ≡ b.metrics.requests_total + 1)
    × ((generate p model b).1.metrics.decode_tokens_total
        ≡ b.metrics.decode_tokens_total + token_count (fake_response model p))

generate-OnePrompt :
    (p : String) (b : FakeBatchedBackend) → ready b ≡ true → OnePrompt b.model_id p b
unfolding generate
generate-OnePrompt p b r =
    let same = batch-SameWork (p ∷ []) b r in
    (ap first same.replies, same.cache, same.requests, omega (arith, same.decoded))

each-SameWork :
    (ps : List String) (model : String) (b : FakeBatchedBackend)
    → b.model_id ≡ model
    → ready b ≡ true
    → SameWork model ps b (generate_each model ps b)
unfolding generate_each
each-SameWork [] model b m r = record {
  replies = refl;
  cache = refl;
  requests = omega arith;
  decoded = omega arith;
}
each-SameWork (p ∷ ps) model b m r =
    let next =
      each-SameWork ps model (generate p model b).1 ((ready-generate p model b).1 ∙ m)
        ((ready-generate p model b).0 ∙ r) in
    let one : OnePrompt model p b = subst (λ x. OnePrompt x p b) m (generate-OnePrompt p b r) in
    rw (one.0, generate_each)
      (record {
        replies = rw next.replies;
        cache = next.cache ∙ ap (with_prompts (requests_for model ps)) one.1;
        requests = omega (arith, next.requests, one.2);
        decoded = omega (arith, next.decoded, one.3);
      })

-- For a ready backend, one batch of prompts and the same prompts sent one at a time give the same
-- responses, leave the same cache, and add as much to the requests and to the decoded tokens.
pub batch-sequence :
    (ps : List String) (b : FakeBatchedBackend)
    → ready b ≡ true
    → let batch = generate_many (requests_for b.model_id ps) b in
      let each = generate_each b.model_id ps b in
      (batch.0 ≡ each.0)
      × (batch.1.cache ≡ each.1.cache)
      × (batch.1.metrics.requests_total ≡ each.1.metrics.requests_total)
      × (batch.1.metrics.decode_tokens_total ≡ each.1.metrics.decode_tokens_total)
batch-sequence ps b r =
    let one = batch-SameWork ps b r in
    let two = each-SameWork ps b.model_id b refl r in
    (
      one.replies ∙ sym two.replies,
      one.cache ∙ sym two.cache,
      one.requests ∙ sym two.requests,
      one.decoded ∙ sym two.decoded,
    )
