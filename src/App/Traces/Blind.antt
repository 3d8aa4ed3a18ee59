-- ===== src/App/Traces/Blind.antt =====
-- A trace of a chat request holds no content: only the numbers of its words.
use mac_llm_ops_lab.Prelude.{
  String, ◌≡◌, refl, sym, ap, ◌∙◌, Bool, true, false, List, [], Bool-cases, inl, inr, if◌then◌else◌,
}
use mac_llm_ops_lab.Py.Str.{token_count}
use mac_llm_ops_lab.Py.Float.{FloatOps}
use mac_llm_ops_lab.Py.Value.{Value}
use mac_llm_ops_lab.Py.Result.{Result, ok, err}
use mac_llm_ops_lab.Metrics.{InMemoryMetrics}
use mac_llm_ops_lab.Observability.{Observability, TracerCall}
use mac_llm_ops_lab.App.Request.{
  ChatCompletionRequest, ModelBackend, is_allowed, last_user_message, ensure_model_allowed,
  generation_options,
}
use mac_llm_ops_lab.App.Chat.{complete, answer, to_response, chat_completions}
use mac_llm_ops_lab.App.Traces.{
  RequestContext, dispatch, generate_calls, handler_trace, chat_trace, request_trace,
  chat_request_trace,
}
use mac_llm_ops_lab.App.Traces.Same.{
  Alike, seen, seen_of, seen-answered, same_dispatch, same_generate, same_request,
}

module _ (F : FloatOps) where
  open F use {Float}

  module _ (str_of : Value Float → String) (o : Observability) (context : RequestContext) where
    module _ {State : Type 0} (backend : ModelBackend Float State) (allowlist : List String) where
      -- What the handler calls.
      abbrev calls_of : Bool → Bool → String → String → Result String → List (TracerCall Float)
      calls_of false stream model p c = []
      calls_of true true model p c = []
      calls_of true false model p c =
          dispatch F str_of o context "gen_ai.chat " model p
            (generate_calls F str_of o context model c)

      seen-chat :
          (payload : ChatCompletionRequest Float) (p : String) (s : State)
          (m : InMemoryMetrics Float)
          → last_user_message payload.messages ≡ ok p
          → seen F (to_response (chat_completions backend allowlist payload s m).result)
            ≡ seen_of F
                (is_allowed allowlist payload.model)
                payload.stream
                (backend.generate p payload.model (generation_options payload) s).0
      unfolding chat_completions ensure_model_allowed complete to_response answer
      seen-chat payload p s m h = elim (Bool-cases (is_allowed allowlist payload.model)) [
        | inl listed ↦
            rw (listed, h)
              (seen-answered F payload.stream payload.model p (generation_options payload)
                (backend.generate p payload.model (generation_options payload) s).0 s
                (backend.generate p payload.model (generation_options payload) s).1 m)
        | inr other ↦ rw other refl
      ]

      called :
          (stream : Bool) (model p : String) (c : Result String)
          → (if stream
              then []
              else dispatch F str_of o context "gen_ai.chat " model p
                  (generate_calls F str_of o context model c))
            ≡ calls_of true stream model p c
      called true model p c = refl
      called false model p c = refl

      trace-chat :
          (payload : ChatCompletionRequest Float) (p : String) (s : State)
          → last_user_message payload.messages ≡ ok p
          → chat_trace F str_of o context backend allowlist payload s
            ≡ calls_of
                (is_allowed allowlist payload.model)
                payload.stream
                payload.model
                p
                (backend.generate p payload.model (generation_options payload) s).0
      unfolding chat_trace ensure_model_allowed handler_trace
      trace-chat payload p s h = elim (Bool-cases (is_allowed allowlist payload.model)) [
        | inl listed ↦ rw (listed, h) (called payload.stream payload.model p _)
        | inr other ↦ rw other refl
      ]

      same_calls :
          (allowed stream : Bool) (model p q : String) (c c' : Result String)
          → token_count p ≡ token_count q
          → Alike c c'
          → calls_of allowed stream model p c ≡ calls_of allowed stream model q c'
      same_calls false stream model p q c c' e a = refl
      same_calls true true model p q c c' e a = refl
      same_calls true false model p q c c' e a =
          same_dispatch F str_of o context "gen_ai.chat " model p q _ e
          ∙ ap (dispatch F str_of o context "gen_ai.chat " model q)
              (same_generate F str_of o context model c c' a)

      same_seen_of :
          (allowed stream : Bool) (c c' : Result String)
          → Alike c c'
          → seen_of F allowed stream c ≡ seen_of F allowed stream c'
      same_seen_of false stream c c' a = refl
      same_seen_of true true c c' a = refl
      same_seen_of true false (ok c) (ok c') a = refl
      same_seen_of true false (err e) (err e') a = refl
      same_seen_of true false (ok c) (err e) a = elim a [ ]
      same_seen_of true false (err e) (ok c) a = elim a [ ]

      -- Of what is asked and answered, a trace tells the numbers of words and nothing else: where two
      -- chat requests ask for the same model, are both streamed or both not, their prompts have as
      -- many words, and the backend answers both with as many words or fails on both, the handler
      -- and the middleware make the same calls on the tracer, whatever else differs.
      pub chat_request_trace-Alike :
          (method path route : String) (duration_ms : Float) (a b : ChatCompletionRequest Float)
          (p q : String) (s t : State) (m n : InMemoryMetrics Float)
          → a.model ≡ b.model
          → a.stream ≡ b.stream
          → last_user_message a.messages ≡ ok p
          → last_user_message b.messages ≡ ok q
          → token_count p ≡ token_count q
          → Alike
              (backend.generate p a.model (generation_options a) s).0
              (backend.generate q b.model (generation_options b) t).0
          → chat_request_trace F str_of o context backend allowlist method path route duration_ms a
              s m
            ≡ chat_request_trace F str_of o context backend allowlist method path route duration_ms
                b t n
      unfolding chat_request_trace
      chat_request_trace-Alike method path route duration_ms a b p q s t m n model stream hp hq
            words alike =
          let allowed = is_allowed allowlist b.model in
          let c = (backend.generate p a.model (generation_options a) s).0 in
          let c' = (backend.generate q b.model (generation_options b) t).0 in
          let inner =
            trace-chat a p s hp
            ∙ same_calls (is_allowed allowlist a.model) a.stream a.model p q c c' words alike
            ∙ ap (λ x. calls_of (is_allowed allowlist x) a.stream x q c') model
            ∙ ap (λ x. calls_of allowed x b.model q c') stream
            ∙ sym (trace-chat b q t hq) in
          let told =
            seen-chat a p s m hp
            ∙ same_seen_of (is_allowed allowlist a.model) a.stream c c' alike
            ∙ ap (λ x. seen_of F (is_allowed allowlist x) a.stream c') model
            ∙ ap (λ x. seen_of F allowed x c') stream
            ∙ sym (seen-chat b q t n hq) in
          let r = to_response (chat_completions backend allowlist b t n).result in
          same_request F str_of o context method path route a.model duration_ms
            (chat_trace F str_of o context backend allowlist a s)
            (chat_trace F str_of o context backend allowlist b t)
            (to_response (chat_completions backend allowlist a s m).result) r inner told
          ∙ ap
              (λ x.
                request_trace F str_of o context method path route duration_ms x
                  (chat_trace F str_of o context backend allowlist b t) r)
              model
