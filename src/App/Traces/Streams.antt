-- ===== src/App/Traces/Streams.antt =====
-- A trace of a streamed reply holds no content: only the numbers of its words.
use mac_llm_ops_lab.Prelude.{
  ℕ, ◌+◌, zero, suc, String, ◌≡◌, refl, ap, Bool, Option, none, some, List, [], ◌∷◌, if◌then◌else◌,
}
use mac_llm_ops_lab.Py.Str.{token_count}
use mac_llm_ops_lab.Py.Float.{FloatOps}
use mac_llm_ops_lab.Py.Value.{Value}
use mac_llm_ops_lab.Metrics.{InMemoryMetrics}
use mac_llm_ops_lab.Observability.{Observability}
use mac_llm_ops_lab.App.Request.{Chunks}
use mac_llm_ops_lab.App.Stream.{stream_chunks, stream_events}
use mac_llm_ops_lab.App.Traces.{RequestContext, stream_trace, finish_calls, is_started}
use mac_llm_ops_lab.App.Traces.Same.{same_dispatch}

-- Two lists of chunks that are as long, with as many words in each.
abbrev pub AllAlike : List String → List String → Type 0
AllAlike [] [] = Unit
AllAlike (c ∷ cs) (d ∷ ds) = (token_count c ≡ token_count d) × AllAlike cs ds
AllAlike _ _ = ⊥

module _ (F : FloatOps) where
  open F use {Float}

  -- Streams that differ in the words of their chunks only have the same calls.
  same_stream :
      (model : String) (cs ds : List String) (broken : Bool) (client : Option ℕ) (tokens : ℕ)
      (m : InMemoryMetrics Float)
      → AllAlike cs ds
      → let s = stream_chunks model cs broken client tokens m in
        let t = stream_chunks model ds broken client tokens m in
        (s.output_tokens ≡ t.output_tokens) × (s.finish ≡ t.finish)
  unfolding stream_chunks
  same_stream model [] [] broken client tokens m a = (refl, refl)
  same_stream model [] (d ∷ ds) broken client tokens m a = elim a [ ]
  same_stream model (c ∷ cs) [] broken client tokens m a = elim a [ ]
  same_stream model (c ∷ cs) (d ∷ ds) broken none tokens m a =
      rw (a.0) (same_stream model cs ds broken none (tokens + token_count d) m a.1)
  same_stream model (c ∷ cs) (d ∷ ds) broken (some zero) tokens m a = (refl, refl)
  same_stream model (c ∷ cs) (d ∷ ds) broken (some (suc n)) tokens m a =
      rw (a.0) (same_stream model cs ds broken (some n) (tokens + token_count d) m a.1)

  same_events :
      (model : String) (x y : Chunks) (client : Option ℕ) (m : InMemoryMetrics Float)
      → x.failed ≡ y.failed
      → AllAlike x.chunks y.chunks
      → let s = stream_events model x client m in
        let t = stream_events model y client m in
        (s.output_tokens ≡ t.output_tokens) × (s.finish ≡ t.finish)
  unfolding stream_events
  same_events model x y none m e a = rw e (same_stream model x.chunks y.chunks y.failed none 0 m a)
  same_events model x y (some zero) m e a = (refl, refl)
  same_events model x y (some (suc n)) m e a =
      rw e (same_stream model x.chunks y.chunks y.failed (some n) 0 m a)

  -- The spans of a streamed reply tell of the prompt and of the chunks the numbers of words only:
  -- where two prompts have as many words and two streams as many chunks with as many words each, and
  -- both break off or neither, then for a client that takes as many events of both the calls on the
  -- tracer are the same.
  pub stream_trace-AllAlike :
      (str_of : Value Float → String) (o : Observability) (context : RequestContext)
      (model p q : String) (x y : Chunks) (client : Option ℕ) (m : InMemoryMetrics Float)
      → token_count p ≡ token_count q
      → x.failed ≡ y.failed
      → AllAlike x.chunks y.chunks
      → stream_trace F str_of o context model p (stream_events model x client m)
        ≡ stream_trace F str_of o context model q (stream_events model y client m)
  unfolding stream_trace
  stream_trace-AllAlike str_of o context model p q x y client m words e a =
      let s = same_events model x y client m e a in
      let t = stream_events model y client m in
      let calls = finish_calls F str_of o context model t.output_tokens t.finish in
      let d = same_dispatch F str_of o context "gen_ai.stream " model p q calls words in
      rw (s.0, s.1) (ap (λ z. if is_started t.finish then z else []) d)
