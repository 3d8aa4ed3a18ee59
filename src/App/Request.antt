-- ===== src/App/Request.antt =====
-- app.py: the chat request, the allowlist, the prompt, the options for the backend, and the
-- interface of a backend.
pub mod Prompt
use mac_llm_ops_lab.Prelude.{
  String, Bool, not, ◌||◌, Option, none, some, List, [], ◌∷◌, elem, is_nil, ◌==◌, string_eq,
  if◌then◌else◌,
}
use mac_llm_ops_lab.Py.Dict.{Dict}
use mac_llm_ops_lab.Py.Value.{Value, bool, dict, field, end}
use mac_llm_ops_lab.Py.Result.{Result, ok, err, index_error, http_exception, raise_if}

pub record ChatMessage : Type 0 where
  pub role : String
  pub content : String

-- A request that the framework has validated. `stream_options` is its `include_usage`.
pub record ChatCompletionRequest (Float : Type 0) : Type 0 where
  pub model : String
  pub messages : List ChatMessage
  pub stream : Bool
  pub temperature : Option (Value Float)
  pub top_p : Option (Value Float)
  pub max_tokens : Option (Value Float)
  pub max_completion_tokens : Option (Value Float)
  pub stop : Option (Value Float)
  pub seed : Option (Value Float)
  pub logit_bias : Option (Value Float)
  pub user : Option (Value Float)
  pub tools : Option (Value Float)
  pub tool_choice : Option (Value Float)
  pub stream_options : Option (Option Bool)

-- What a backend's stream delivers: its chunks, and whether it raises behind the last of them.
pub record Chunks : Type 0 where
  pub chunks : List String
  pub failed : Bool

-- The protocol `ModelBackend`, as far as the handlers call it. `State` is what a call can change.
pub record ModelBackend (Float State : Type 0) : Type 0 where
  pub ready : State → Bool
  pub list_models : State → List (Dict String (Value Float))
  pub generate : String → String → Dict String (Value Float) → State → Result String × State

-- The content of the last message of a user, or else of the last message. The request has at least
-- one message.
abbrev last_of : List ChatMessage → Result String
last_of [] = err index_error
last_of (m ∷ []) = ok m.content
last_of (m ∷ n ∷ ms) = last_of (n ∷ ms)

unfoldable pub last_user : List ChatMessage → Option String
last_user [] = none
last_user (m ∷ ms) = elim (last_user ms) [
  | some content ↦ some content
  | none ↦ if m.role == "user" then some m.content else none
]

unfoldable pub last_user_message : List ChatMessage → Result String
last_user_message messages = elim (last_user messages) [
  | some content ↦ ok content
  | none ↦ last_of messages
]

abbrev pub is_allowed : List String → String → Bool
is_allowed allowlist model = is_nil allowlist || elem model allowlist

unfoldable pub ensure_model_allowed : List String → String → Result (Unit {0})
ensure_model_allowed allowlist model =
    raise_if (not (is_allowed allowlist model))
      (http_exception 404 "model_not_allowed" "Model is not allowed")

module _ {Float : Type 0} where
  -- The loop over the names: `if value is not None: options[name] = value`. The names are distinct.
  abbrev pub options_of : Dict String (Option (Value Float)) → Dict String (Value Float)
  options_of [] = []
  options_of ((name, none) ∷ fields) = options_of fields
  options_of ((name, some value) ∷ fields) = (name, value) ∷ options_of fields

  abbrev pub stream_option : Option (Option Bool) → Option (Value Float)
  stream_option (some (some b)) = some (dict (field "include_usage" (bool b) end))
  stream_option _ = none

  abbrev pub option_fields : ChatCompletionRequest Float → Dict String (Option (Value Float))
  option_fields payload =
      ("temperature", payload.temperature)
      ∷ ("top_p", payload.top_p)
      ∷ ("max_tokens", payload.max_tokens)
      ∷ ("max_completion_tokens", payload.max_completion_tokens)
      ∷ ("stop", payload.stop)
      ∷ ("seed", payload.seed)
      ∷ ("logit_bias", payload.logit_bias)
      ∷ ("user", payload.user)
      ∷ ("tools", payload.tools)
      ∷ ("tool_choice", payload.tool_choice)
      ∷ ("stream_options", stream_option payload.stream_options)
      ∷ []

  unfoldable pub generation_options : ChatCompletionRequest Float → Dict String (Value Float)
  generation_options payload = options_of (option_fields payload)
