-- ===== src/App/Chat.antt =====
-- app.py: the handlers, the exception handler and the middleware. A handler changes the backend's
-- state and the metrics; the exception handler renders an `HTTPException`; the middleware records
-- the response. The duration of a request is an argument, as is what the framework finds for its
-- route. Of a completion the fields are kept that do not depend on the clock or on a fresh
-- identifier. Log lines are left out; the spans are in Traces.antt.
pub mod Outcome
use mac_llm_ops_lab.Prelude.{
  ℕ, ◌+◌, String, Bool, true, false, Option, none, some, List, [], ◌∷◌, if◌then◌else◌,
}
use mac_llm_ops_lab.Py.Str.{token_count, is_empty}
use mac_llm_ops_lab.Py.Dict.{Dict}
use mac_llm_ops_lab.Py.Float.{FloatOps}
use mac_llm_ops_lab.Py.Value.{Value}
use mac_llm_ops_lab.Py.Result.{
  Result, Error, http_exception, ok, err, ◌>>=◌, ◌>>◌, raise_if, map_result,
}
use mac_llm_ops_lab.Metrics.{
  InMemoryMetrics, record_request, record_http_error, record_generated_text,
  record_backend_generation_error,
}
use mac_llm_ops_lab.App.Request.{
  ChatCompletionRequest, ModelBackend, last_user_message, ensure_model_allowed, generation_options,
}
use mac_llm_ops_lab.App.Models.{filter_allowed_models}

-- What `_completion_response` says of a completion.
pub record Completion : Type 0 where
  pub model : String
  pub content : String
  pub prompt_tokens : ℕ
  pub completion_tokens : ℕ
  pub total_tokens : ℕ

-- The results of the handlers; a streamed reply holds the arguments of `_stream_events`.
pub data Reply (Float : Type 0) : Type 0 where
  completion : Completion → Reply Float
  streaming : String → String → Dict String (Value Float) → Reply Float
  model_list : List (Dict String (Value Float)) → Reply Float
  status_text : String → Reply Float

unfoldable pub completion_response : String → String → String → Completion
completion_response model prompt content = record {
  model = model;
  content = content;
  prompt_tokens = token_count prompt;
  completion_tokens = token_count content;
  total_tokens = token_count prompt + token_count content;
}

-- A handler's result, and what it leaves behind.
pub record Handled (Float State : Type 0) : Type 0 where
  pub result : Result (Reply Float)
  pub backend : State
  pub metrics : InMemoryMetrics Float

-- A response: its status, the code of its error, and its body where it has no error.
pub record Response (Float : Type 0) : Type 0 where
  pub status_code : ℕ
  pub error_code : String
  pub body : Option (Reply Float)

module _ {Float State : Type 0} where
  abbrev pub handled : Result (Reply Float) → State → InMemoryMetrics Float → Handled Float State
  handled result s m = record { result = result; backend = s; metrics = m }

  -- The `try` around `generate`, and what follows it.
  unfoldable pub answer :
      String → String → Result String → State → InMemoryMetrics Float → Handled Float State
  answer model prompt (err e) s m =
      handled (err (http_exception 502 "backend_generation_failed" "Backend generation failed")) s
        (record_backend_generation_error model "backend_generation_failed" m)
  answer model prompt (ok content) s m =
      handled (ok (completion (completion_response model prompt content))) s
        (record_generated_text model content m)

  module _ (backend : ModelBackend Float State) (allowlist : List String) where
    -- The handler behind the check of the model and the choice of the prompt.
    unfoldable pub complete :
        ChatCompletionRequest Float
        → Result String
        → State
        → InMemoryMetrics Float
        → Handled Float State
    complete payload (err e) s m = handled (err e) s m
    complete payload (ok prompt) s m =
        let options = generation_options payload in
        let (content, s') = backend.generate prompt payload.model options s in
        if payload.stream
        then handled (ok (streaming prompt payload.model options)) s m
        else answer payload.model prompt content s' m

    unfoldable pub chat_completions :
        ChatCompletionRequest Float → State → InMemoryMetrics Float → Handled Float State
    chat_completions payload s m =
        complete payload
          (ensure_model_allowed allowlist payload.model >> last_user_message payload.messages) s m

    unfoldable pub ready : State → InMemoryMetrics Float → Handled Float State
    ready s m =
        handled
          (if backend.ready s
            then ok (status_text "ready")
            else err (http_exception 503 "backend_not_ready" "Backend is not ready"))
          s m

    unfoldable pub models : State → InMemoryMetrics Float → Handled Float State
    models s m =
        handled (ok (model_list (filter_allowed_models allowlist (backend.list_models s)))) s m

-- `http_exception_handler`; an exception of another kind goes through.
unfoldable pub to_response : {Float : Type 0} → Result (Reply Float) → Result (Response Float)
to_response (ok reply) = ok (record { status_code = 200; error_code = ""; body = some reply })
to_response (err (http_exception status code message)) =
    ok (record { status_code = status; error_code = code; body = none })
to_response (err e) = err e

module _ (F : FloatOps) where
  open F use {Float}

  -- The middleware behind `call_next`.
  unfoldable pub record_response :
      String → String → Float → Response Float → InMemoryMetrics Float → InMemoryMetrics Float
  record_response route method duration_ms response m =
      let counted = record_request F route method response.status_code duration_ms m in
      if is_empty response.error_code
      then counted
      else record_http_error route response.status_code response.error_code counted

  -- A handler with the exception handler and the middleware around it.
  unfoldable pub serve :
      {State : Type 0}
      → String
      → String
      → Float
      → Handled Float State
      → Result (Response Float) × State × InMemoryMetrics Float
  serve route method duration_ms h = elim (to_response h.result) [
    | err e ↦ (err e, h.backend, h.metrics)
    | ok response ↦
        (ok response, h.backend, record_response route method duration_ms response h.metrics)
  ]
