-- ===== src/App/Traces/Tests.antt =====
-- Traces of concrete requests.
use mac_llm_ops_lab.Prelude.{ℕ, String, ◌≡◌, refl, true, false, none, some, [], ◌∷◌, string_eq}
use mac_llm_ops_lab.Py.Str.{is_space, token_count, split}
use mac_llm_ops_lab.Py.Float.{milli}
use mac_llm_ops_lab.Py.Value.{Value}
use mac_llm_ops_lab.Py.Result.{ok}
use mac_llm_ops_lab.Metrics.{empty}
use mac_llm_ops_lab.Observability.{Observability}
use mac_llm_ops_lab.App.Request.{
  ChatCompletionRequest, Chunks, ModelBackend, last_user, last_user_message,
}
use mac_llm_ops_lab.App.Stream.{stream_events}
use mac_llm_ops_lab.App.Traces.{RequestContext, stream_trace, chat_request_trace}
use mac_llm_ops_lab.App.Traces.Blind.{chat_request_trace-Alike}
use mac_llm_ops_lab.App.Traces.Streams.{stream_trace-AllAlike}

abbrev tracing : Observability
tracing = record {
  enabled = true;
  endpoint = some "http://localhost:4318/v1/traces";
  resource_attributes = [];
  has_tracer = true;
}

abbrev context : RequestContext
context = record { request_id = "r"; backend_kind = "fake" }

abbrev echo : ModelBackend ℕ (Unit {0})
echo = record {
  ready = λ s. true;
  list_models = λ s. [];
  generate = λ prompt model options s. (ok prompt, s);
}

abbrev asking : String → ChatCompletionRequest ℕ
asking content = record {
  model = "m";
  messages = record { role = "user"; content = content } ∷ [];
  stream = false;
  temperature = none;
  top_p = none;
  max_tokens = none;
  max_completion_tokens = none;
  stop = none;
  seed = none;
  logit_bias = none;
  user = none;
  tools = none;
  tool_choice = none;
  stream_options = none;
}

abbrev no_text : Value ℕ → String
no_text v = ""

asked : last_user_message (asking "a secret").messages ≡ ok "a secret"
unfolding last_user_message last_user
asked = refl

asked_other : last_user_message (asking "two words").messages ≡ ok "two words"
unfolding last_user_message last_user
asked_other = refl

two_words : token_count "a secret" ≡ token_count "two words"
unfolding token_count split is_space
two_words = refl

chat_request_trace-Alike_example :
    chat_request_trace milli no_text tracing context echo [] "POST" "/v1/chat/completions"
      "/v1/chat/completions" 7
      (asking "a secret")
      tt
      (empty {Float = ℕ})
    ≡ chat_request_trace milli no_text tracing context echo [] "POST" "/v1/chat/completions"
        "/v1/chat/completions" 7
        (asking "two words")
        tt
        (empty {Float = ℕ})
chat_request_trace-Alike_example =
    chat_request_trace-Alike milli no_text tracing context echo [] "POST" "/v1/chat/completions"
      "/v1/chat/completions" 7 (asking "a secret") (asking "two words") "a secret" "two words" tt tt
      empty empty refl refl asked asked_other two_words two_words

abbrev secret : Chunks
secret = record { chunks = "a secret" ∷ []; failed = true }

abbrev other : Chunks
other = record { chunks = "two words" ∷ []; failed = true }

stream_trace-AllAlike_example :
    stream_trace milli no_text tracing context "m" "a secret"
      (stream_events "m" secret (some 3) (empty {Float = ℕ}))
    ≡ stream_trace milli no_text tracing context "m" "two words"
        (stream_events "m" other (some 3) (empty {Float = ℕ}))
stream_trace-AllAlike_example =
    stream_trace-AllAlike milli no_text tracing context "m" "a secret" "two words" secret other
      (some 3) empty two_words refl (two_words, tt)
