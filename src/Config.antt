-- ===== src/Config.antt =====
-- config.py: the settings, read from the environment. The environment is a dictionary. `Settings`
-- is a pydantic model: of its validation only `backend_kind` can fail here, since every other value
-- that is handed to it has the declared type.
mod Accepted
mod Tests
use mac_llm_ops_lab.Prelude.{
  String, Bool, true, false, not, ◌||◌, Option, none, some, List, [], ◌∷◌, map, keep, any, ◌==◌,
  string_eq, if◌then◌else◌,
}
use mac_llm_ops_lab.Py.Str.{strip, split_on, lowers_to, is_empty}
use mac_llm_ops_lab.Py.Dict.{Dict, get}
use mac_llm_ops_lab.Py.Float.{FloatOps}
use mac_llm_ops_lab.Py.Result.{Result, ok, err, value_error, ◌>>=◌, ◌>>◌, raise_if}

pub record Settings (Float : Type 0) : Type 0 where
  pub service_name : String
  pub request_id_header : String
  pub model_allowlist : List String
  pub capture_request_bodies : Bool
  pub backend_kind : String
  pub openai_base_url : String
  pub openai_api_key : Option String
  pub openai_timeout_seconds : Float
  pub otel_enabled : Bool
  pub otel_exporter_otlp_traces_endpoint : Option String
  pub otel_capture_content : Bool
  pub otel_export_timeout_seconds : Float
  pub phoenix_project_name : String

unfoldable pub parse_csv : String → List String
parse_csv value = map strip (keep (λ item. not (is_empty (strip item))) (split_on b',' value))

unfoldable pub parse_bool : String → Result Bool
parse_bool value =
    let normalized = strip value in
    if any (lowers_to normalized) ("1" ∷ "true" ∷ "yes" ∷ "on" ∷ [])
    then ok true
    else if any (lowers_to normalized) ("0" ∷ "false" ∷ "no" ∷ "off" ∷ [])
    then ok false
    else err (value_error "Invalid boolean setting")

-- `if value := source.get(name)`: a variable that is not set, or empty, does not count.
unfoldable pub env_value : Dict String String → String → Option String
env_value source name = elim (get name source) [
  | none ↦ none
  | some value ↦ if is_empty value then none else some value
]

abbrev pub or_else : {A : Type 0} → Option A → A → A
or_else none default = default
or_else (some a) default = a

-- `a or b`, for two lookups
abbrev pub first_value : Option String → Option String → Option String
first_value none b = b
first_value (some a) b = some a

abbrev pub bool_or : Option String → Bool → Result Bool
bool_or none default = ok default
bool_or (some value) default = parse_bool value

unfoldable pub is_backend_kind : String → Bool
is_backend_kind kind = kind == "fake" || kind == "openai-compatible"

module _ (F : FloatOps) where
  open F use {Float, decimal, parse}

  abbrev pub float_or : Option String → Float → Result Float
  float_or none default = ok default
  float_or (some value) default = elim (parse value) [
    | none ↦ err (value_error "could not convert string to float")
    | some x ↦ ok x
  ]

  -- The values for `Settings`, from those that are parsed and from the rest of the environment.
  unfoldable pub build_settings :
      (String → Option String) → Bool → Float → Bool → Bool → Float → Settings Float
  build_settings value capture_request_bodies openai_timeout_seconds otel_enabled
        otel_capture_content otel_export_timeout_seconds =
      record {
        service_name = or_else (value "MAC_LLM_OPS_SERVICE_NAME") "mac-llm-ops-lab";
        request_id_header = or_else (value "MAC_LLM_OPS_REQUEST_ID_HEADER") "x-request-id";
        model_allowlist = elim (value "MAC_LLM_OPS_MODEL_ALLOWLIST") [
          | none ↦ []
          | some list ↦ parse_csv list
        ];
        capture_request_bodies = capture_request_bodies;
        backend_kind = or_else (value "MAC_LLM_OPS_BACKEND_KIND") "fake";
        openai_base_url = or_else (value "MAC_LLM_OPS_OPENAI_BASE_URL") "http://127.0.0.1:28100/v1";
        openai_api_key = value "MAC_LLM_OPS_OPENAI_API_KEY";
        openai_timeout_seconds = openai_timeout_seconds;
        otel_enabled = otel_enabled;
        otel_exporter_otlp_traces_endpoint =
            first_value (value "MAC_LLM_OPS_OTEL_EXPORTER_OTLP_TRACES_ENDPOINT") (
              first_value (value "MAC_LLM_OPS_PHOENIX_COLLECTOR_ENDPOINT")
                (value "PHOENIX_COLLECTOR_ENDPOINT"));
        otel_capture_content = otel_capture_content;
        otel_export_timeout_seconds = otel_export_timeout_seconds;
        phoenix_project_name =
            or_else
              (first_value (value "MAC_LLM_OPS_PHOENIX_PROJECT_NAME")
                (value "PHOENIX_PROJECT_NAME"))
              "mac-llm-ops-lab";
      }

  -- `Settings(**values)`
  unfoldable pub validate_settings : Settings Float → Result (Settings Float)
  validate_settings s =
      if is_backend_kind s.backend_kind then ok s else err (value_error "backend_kind")

  unfoldable pub load_settings : Dict String String → Result (Settings Float)
  load_settings source = do
    let value = env_value source
    capture_request_bodies ← bool_or (value "MAC_LLM_OPS_CAPTURE_REQUEST_BODIES") false
    openai_timeout_seconds ← float_or (value "MAC_LLM_OPS_OPENAI_TIMEOUT_SECONDS") (decimal 300 1)
    otel_enabled ← bool_or (value "MAC_LLM_OPS_OTEL_ENABLED") false
    otel_capture_content ← bool_or (value "MAC_LLM_OPS_OTEL_CAPTURE_CONTENT") false
    otel_export_timeout_seconds ←
        float_or (value "MAC_LLM_OPS_OTEL_EXPORT_TIMEOUT_SECONDS") (decimal 100 1)
    validate_settings (
        build_settings value capture_request_bodies openai_timeout_seconds otel_enabled
          otel_capture_content otel_export_timeout_seconds)
