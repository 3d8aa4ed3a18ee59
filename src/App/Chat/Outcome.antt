-- ===== src/App/Chat/Outcome.antt =====
-- A chat request, served: every branch of the handler, behind the exception handler and the
-- middleware.
use mac_llm_ops_lab.Prelude.{
  String, ◌≡◌, refl, Bool, true, false, none, some, List, [], ◌∷◌, string_eq, if◌then◌else◌,
  Bool-cases, inl, inr,
}
use mac_llm_ops_lab.Py.Float.{FloatOps}
use mac_llm_ops_lab.Py.Result.{Result, ok, err, http_exception}
use mac_llm_ops_lab.Metrics.{
  InMemoryMetrics, Event, request, generated_text, http_error, backend_generation_error, run, step,
}
use mac_llm_ops_lab.App.Request.{
  ChatCompletionRequest, ModelBackend, is_allowed, last_user_message, ensure_model_allowed,
  generation_options,
}
use mac_llm_ops_lab.App.Chat.{
  completion, streaming, Response, completion_response, handled, answer, complete, chat_completions,
  to_response, record_response, serve,
}

-- What a chat request comes to: the response, the backend's state, and the recordings in order.
pub record Outcome (Float State : Type 0) : Type 0 where
  pub response : Response Float
  pub backend : State
  pub events : List (Event Float)

abbrev pub route : String
route = "/v1/chat/completions"

module _ {Float State : Type 0} (duration_ms : Float) (payload : ChatCompletionRequest Float)
    (prompt : String) where
  -- By the allowlist, the kind of the request, and what the backend would return.
  abbrev pub outcome : Bool → Bool → State → Result String × State → Outcome Float State
  outcome false stream s r = record {
    response = record { status_code = 404; error_code = "model_not_allowed"; body = none };
    backend = s;
    events = request route "POST" 404 duration_ms ∷ http_error route 404 "model_not_allowed" ∷ [];
  }
  outcome true true s r = record {
    response = record {
      status_code = 200;
      error_code = "";
      body = some (streaming prompt payload.model (generation_options payload));
    };
    backend = s;
    events = request route "POST" 200 duration_ms ∷ [];
  }
  outcome true false s (ok content, s') = record {
    response = record {
      status_code = 200;
      error_code = "";
      body = some (completion (completion_response payload.model prompt content));
    };
    backend = s';
    events = generated_text payload.model content ∷ request route "POST" 200 duration_ms ∷ [];
  }
  outcome true false s (err e, s') = record {
    response = record { status_code = 502; error_code = "backend_generation_failed"; body = none };
    backend = s';
    events =
        backend_generation_error payload.model "backend_generation_failed"
        ∷ request route "POST" 502 duration_ms
        ∷ http_error route 502 "backend_generation_failed"
        ∷ [];
  }

module _ (F : FloatOps) {State : Type 0} (backend : ModelBackend F.Float State)
    (allowlist : List String) (duration_ms : F.Float) (payload : ChatCompletionRequest F.Float)
    (prompt : String) (s : State) (m : InMemoryMetrics F.Float) where
  abbrev Serves : Result String × State → Bool → Bool → Type 0
  Serves r allowed stream =
      let o = outcome duration_ms payload prompt allowed stream s r in
      serve F route "POST" duration_ms (
        if allowed
        then (if stream
            then handled (ok (streaming prompt payload.model (generation_options payload))) s m
            else answer payload.model prompt r.0 r.1 m)
        else handled (err (http_exception 404 "model_not_allowed" "Model is not allowed")) s m)
      ≡ (ok o.response, o.backend, run F m o.events)

  branches : (r : Result String × State) (allowed stream : Bool) → Serves r allowed stream
  unfolding serve to_response record_response answer run step
  branches r false stream = refl
  branches r true true = refl
  branches (ok content, s') true false = refl
  branches (err e, s') true false = refl

  handler-branches :
      last_user_message payload.messages ≡ ok prompt
      → let r = backend.generate prompt payload.model (generation_options payload) s in
        chat_completions backend allowlist payload s m ≡ (
          if is_allowed allowlist payload.model
          then (if payload.stream
              then handled (ok (streaming prompt payload.model (generation_options payload))) s m
              else answer payload.model prompt r.0 r.1 m)
          else handled (err (http_exception 404 "model_not_allowed" "Model is not allowed")) s m)
  unfolding chat_completions complete ensure_model_allowed
  handler-branches h = elim (Bool-cases (is_allowed allowlist payload.model)) [
    | inl allowed ↦ rw (allowed, h) refl
    | inr refused ↦ rw refused refl
  ]

  -- A request with the prompt `prompt` is always answered. A model that the allowlist does not hold
  -- gives 404 and leaves the backend as it is; a streamed request gives 200 and the stream's
  -- arguments; another one gives 200 with the backend's text, or 502 where the backend raises. What
  -- is recorded is exactly one request with that status, one HTTP error where the status is an
  -- error, the generated text where there is one, and one generation error where the backend raises.
  pub serve-chat_completions :
      last_user_message payload.messages ≡ ok prompt
      → let o =
          outcome duration_ms payload prompt
            (is_allowed allowlist payload.model)
            payload.stream
            s
            (backend.generate prompt payload.model (generation_options payload) s) in
        serve F route "POST" duration_ms (chat_completions backend allowlist payload s m)
        ≡ (ok o.response, o.backend, run F m o.events)
  serve-chat_completions h =
      let r = backend.generate prompt payload.model (generation_options payload) s in
      rw (handler-branches h) (branches r (is_allowed allowlist payload.model) payload.stream)
