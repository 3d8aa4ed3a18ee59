-- ===== src/App/Traces.antt =====
-- app.py: the spans of a chat request. A trace is the list of the calls on the tracer; the spans of
-- a streamed reply are those of its generator, which runs behind the handler.
mod Same
pub mod Blind
pub mod Streams
mod Tests
use mac_llm_ops_lab.Prelude.{
  pos, ℕ, leb, String, Bool, true, false, ◌&&◌, not, Option, none, some, List, [], ◌∷◌, ◌++◌, ◌==◌,
  string_eq, if◌then◌else◌,
}
use mac_llm_ops_lab.Py.Str.{◌<>◌, is_empty, token_count}
use mac_llm_ops_lab.Py.Number.{str_of_nat}
use mac_llm_ops_lab.Py.Dict.{Dict}
use mac_llm_ops_lab.Py.Float.{FloatOps}
use mac_llm_ops_lab.Py.Value.{Value, int, float, str}
use mac_llm_ops_lab.Py.Result.{Result, ok, err, ◌>>◌}
use mac_llm_ops_lab.Observability.{
  Observability, TracerCall, set_attribute, SpanKind, internal, server, client, flag, number, real,
  text, texts, on_span, with_span, mark_span_error,
}
use mac_llm_ops_lab.Metrics.{InMemoryMetrics}
use mac_llm_ops_lab.App.Request.{
  ChatCompletionRequest, ModelBackend, last_user_message, ensure_model_allowed, generation_options,
}
use mac_llm_ops_lab.App.Stream.{Finish, stopped, failed, cancelled, unstarted, Streamed}
use mac_llm_ops_lab.App.Chat.{Response, Handled, to_response, chat_completions}

-- What the spans of a request are told of it by the middleware and the settings.
pub record RequestContext : Type 0 where
  pub request_id : String
  pub backend_kind : String

abbrev pub is_started : Finish → Bool
is_started unstarted = false
is_started _ = true

module _ (F : FloatOps) where
  open F use {Float, decimal}

  unfoldable pub scheduler_span_attributes : String → RequestContext → Dict String (Value Float)
  scheduler_span_attributes model context =
      ("mac_llm_ops.request.id", str context.request_id)
      ∷ ("mac_llm_ops.backend.kind", str context.backend_kind)
      ∷ ("mac_llm_ops.model.id", str model)
      ∷ ("mac_llm_ops.queue.wait_ms", float (decimal 0 1))
      ∷ []

  abbrev provider_of : String → String
  provider_of kind = if kind == "openai-compatible" then "openai-compatible" else "local"

  unfoldable pub backend_span_attributes :
      String → String → RequestContext → Dict String (Value Float)
  backend_span_attributes model prompt context =
      ("mac_llm_ops.request.id", str context.request_id)
      ∷ ("mac_llm_ops.backend.kind", str context.backend_kind)
      ∷ ("mac_llm_ops.model.id", str model)
      ∷ ("gen_ai.operation.name", str "chat")
      ∷ ("gen_ai.provider.name", str (provider_of context.backend_kind))
      ∷ ("gen_ai.request.model", str model)
      ∷ ("gen_ai.usage.input_tokens", int (pos (token_count prompt)))
      ∷ []

  module _ (str_of : Value Float → String) (o : Observability) (context : RequestContext) where
    -- The two spans around a generation or a stream.
    abbrev pub dispatch :
        String → String → String → List (TracerCall Float) → List (TracerCall Float)
    dispatch name model prompt calls =
        with_span o str_of "mac_llm_ops.scheduler.dispatch" internal
          (scheduler_span_attributes model context)
          (with_span o str_of (name <> model) client (backend_span_attributes model prompt context)
            calls)

    abbrev usage : String → ℕ → List (TracerCall Float)
    usage model output_tokens =
        set_attribute "gen_ai.usage.output_tokens" (number (pos output_tokens))
        ∷ set_attribute "gen_ai.response.model" (text model)
        ∷ []

    abbrev reasons : String → TracerCall Float
    reasons reason = set_attribute "gen_ai.response.finish_reasons" (texts (reason ∷ []))

    -- The branches behind the loop of `_stream_events`.
    abbrev pub finish_calls : String → ℕ → Finish → List (TracerCall Float)
    finish_calls model output_tokens cancelled = on_span o (
        usage model output_tokens
        ++ (reasons "cancelled" ∷ set_attribute "mac_llm_ops.stream.cancelled" (flag true) ∷ []))
    finish_calls model output_tokens failed =
        on_span o (usage model output_tokens) ++ mark_span_error o "backend_stream_failed"
    finish_calls model output_tokens stopped =
        on_span o (usage model output_tokens ++ (reasons "stop" ∷ []))
    finish_calls model output_tokens unstarted = []

    -- The spans of a streamed reply; a generator that never started opens none.
    unfoldable pub stream_trace : String → String → Streamed Float → List (TracerCall Float)
    stream_trace model prompt s =
        if is_started s.finish
        then dispatch "gen_ai.stream " model prompt (finish_calls model s.output_tokens s.finish)
        else []

    abbrev pub generate_calls : String → Result String → List (TracerCall Float)
    generate_calls model (err e) = mark_span_error o "backend_generation_failed"
    generate_calls model (ok content) =
        on_span o (usage model (token_count content) ++ (reasons "stop" ∷ []))

    module _ {State : Type 0} (backend : ModelBackend Float State) (allowlist : List String) where
      -- The spans that the handler opens, where it comes to a prompt.
      unfoldable pub handler_trace :
          ChatCompletionRequest Float → Result String → State → List (TracerCall Float)
      handler_trace payload (err e) s = []
      handler_trace payload (ok prompt) s =
          let (content, s') =
            backend.generate prompt payload.model (generation_options payload) s in
          if payload.stream
          then []
          else dispatch "gen_ai.chat " payload.model prompt (generate_calls payload.model content)

      unfoldable pub chat_trace : ChatCompletionRequest Float → State → List (TracerCall Float)
      chat_trace payload s =
          handler_trace payload
            (ensure_model_allowed allowlist payload.model >> last_user_message payload.messages) s

    -- What the middleware tells its span behind `call_next`.
    unfoldable pub response_calls :
        String → Float → String → Response Float → List (TracerCall Float)
    response_calls route duration_ms model_id response =
        on_span o (
          set_attribute "http.route" (text route)
          ∷ set_attribute "http.response.status_code" (number (pos response.status_code))
          ∷ set_attribute "mac_llm_ops.http.duration_ms" (real duration_ms)
          ∷ [])
        ++ ((if is_empty model_id
              then []
              else on_span o (set_attribute "mac_llm_ops.model.id" (text model_id) ∷ []))
            ++ (if is_empty response.error_code
                then if leb 500 response.status_code
                  then mark_span_error o (str_of_nat response.status_code)
                  else []
                else on_span o (set_attribute "error.type" (text response.error_code) ∷ [])
                  ++ (if leb 500 response.status_code
                      then mark_span_error o response.error_code
                      else [])))

    abbrev pub result_calls :
        String → Float → String → Result (Response Float) → List (TracerCall Float)
    result_calls route duration_ms model_id (err e) = mark_span_error o "unhandled_exception"
    result_calls route duration_ms model_id (ok response) =
        response_calls route duration_ms model_id response

    -- The span of a request. `path` is the route before the framework has found it, `inner` what the
    -- handler calls.
    unfoldable pub request_trace :
        String
        → String
        → String
        → Float
        → String
        → List (TracerCall Float)
        → Result (Response Float)
        → List (TracerCall Float)
    request_trace method path route duration_ms model_id inner result =
        with_span o str_of (method <> " " <> path) server
          (("http.request.method", str method)
            ∷ ("http.route", str path)
            ∷ ("mac_llm_ops.request.id", str context.request_id)
            ∷ ("mac_llm_ops.backend.kind", str context.backend_kind)
            ∷ [])
          (inner ++ result_calls route duration_ms model_id result)

    -- A chat request, with its handler, the exception handler and the middleware.
    unfoldable pub chat_request_trace :
        {State : Type 0}
        → ModelBackend Float State
        → List String
        → String
        → String
        → String
        → Float
        → ChatCompletionRequest Float
        → State
        → InMemoryMetrics Float
        → List (TracerCall Float)
    chat_request_trace backend allowlist method path route duration_ms payload s m =
        request_trace method path route duration_ms payload.model
          (chat_trace backend allowlist payload s)
          (to_response (chat_completions backend allowlist payload s m).result)
