-- ===== src/Observability.antt =====
-- observability.py: what the program hands to the tracer. The tracer itself and the exporter are
-- outside: a trace is the list of the calls on it, in order. `str_of` is Python's `str` of an object
-- that stands in a list.
pub mod Sanitized
mod Tests
use mac_llm_ops_lab.Prelude.{
  ℤ, ℕ, zero, suc, String, Bool, true, false, ◌&&◌, Option, none, some, List, [], ◌∷◌, ◌++◌, map,
  string_eq, if◌then◌else◌,
}
use mac_llm_ops_lab.Py.Str.{is_empty}
use mac_llm_ops_lab.Py.Dict.{Dict, put}
use mac_llm_ops_lab.Py.Value.{Value, null, bool, int, float, str, list, dict, items_of}
use mac_llm_ops_lab.Config.{Settings}

pub data AttributeValue (Float : Type 0) : Type 0 where
  flag : Bool → AttributeValue Float
  number : ℤ → AttributeValue Float
  real : Float → AttributeValue Float
  text : String → AttributeValue Float
  texts : List String → AttributeValue Float

abbrev pub Attributes : Type 0 → Type 0
Attributes Float = Dict String (AttributeValue Float)

-- `s[:n]`
unfoldable pub first_chars : ℕ → String → String
first_chars zero s = String.[]
first_chars (suc n) String.[] = String.[]
first_chars (suc n) (String.◌∷◌ c s) = String.◌∷◌ c (first_chars n s)

abbrev pub max_attribute_string_length : ℕ
max_attribute_string_length = 256

module _ {Float : Type 0} (str_of : Value Float → String) where
  unfoldable pub sanitize_attribute_value : Value Float → Option (AttributeValue Float)
  sanitize_attribute_value (bool b) = some (flag b)
  sanitize_attribute_value (int n) = some (number n)
  sanitize_attribute_value (float x) = some (real x)
  sanitize_attribute_value (str s) = some (text (first_chars max_attribute_string_length s))
  sanitize_attribute_value (list items) =
      some (
        texts
          (map (λ item. first_chars max_attribute_string_length (str_of item)) (items_of items)))
  sanitize_attribute_value null = none
  sanitize_attribute_value (dict fields) = none

  abbrev pub put_some : String → Option (AttributeValue Float) → Attributes Float → Attributes Float
  put_some key none safe = safe
  put_some key (some value) safe = put key value safe

  -- The loop over the items, on what is collected so far.
  abbrev pub sanitize_items : Dict String (Value Float) → Attributes Float → Attributes Float
  sanitize_items [] safe = safe
  sanitize_items ((key, value) ∷ items) safe =
      sanitize_items items (put_some key (sanitize_attribute_value value) safe)

  unfoldable pub sanitize_attributes : Dict String (Value Float) → Attributes Float
  sanitize_attributes attributes = sanitize_items attributes []

pub record Observability : Type 0 where
  pub enabled : Bool
  pub endpoint : Option String
  pub resource_attributes : Dict String String
  -- `tracer is not None`
  pub has_tracer : Bool

unfoldable pub resource_attributes : {Float : Type 0} → Settings Float → Dict String String
resource_attributes settings =
    ("service.name", settings.service_name)
    ∷ ("service.namespace", "mac-llm-ops-lab")
    ∷ ("phoenix.project.name", settings.phoenix_project_name)
    ∷ []

abbrev pub default_otlp_http_traces_endpoint : String
default_otlp_http_traces_endpoint = "http://localhost:4318/v1/traces"

-- `endpoint or DEFAULT_OTLP_HTTP_TRACES_ENDPOINT`
abbrev pub endpoint_or_default : Option String → String
endpoint_or_default none = default_otlp_http_traces_endpoint
endpoint_or_default (some endpoint) =
    if is_empty endpoint then default_otlp_http_traces_endpoint else endpoint

unfoldable pub configure_observability : {Float : Type 0} → Settings Float → Observability
configure_observability settings =
    if settings.otel_enabled
    then record {
      enabled = true;
      endpoint = some (endpoint_or_default settings.otel_exporter_otlp_traces_endpoint);
      resource_attributes = resource_attributes settings;
      has_tracer = true;
    }
    else record {
      enabled = false;
      endpoint = none;
      resource_attributes = resource_attributes settings;
      has_tracer = false;
    }

pub data SpanKind : Type 0 where
  internal server client : SpanKind

pub data TracerCall (Float : Type 0) : Type 0 where
  start_span : String → SpanKind → Attributes Float → TracerCall Float
  set_attribute : String → AttributeValue Float → TracerCall Float
  set_status_error : TracerCall Float
  end_span : TracerCall Float

-- `not (not self.enabled or self.tracer is None)`
abbrev pub is_live : Observability → Bool
is_live o = o.enabled && o.has_tracer

module _ {Float : Type 0} (o : Observability) where
  -- Calls on a span of `o`: a `NoopSpan` does nothing.
  abbrev pub on_span : List (TracerCall Float) → List (TracerCall Float)
  on_span calls = if is_live o then calls else []

  -- `with observability.start_span(...)`, around what its body calls.
  unfoldable pub with_span :
      (Value Float → String)
      → String
      → SpanKind
      → Dict String (Value Float)
      → List (TracerCall Float)
      → List (TracerCall Float)
  with_span str_of name kind attributes body =
      on_span (start_span name kind (sanitize_attributes str_of attributes) ∷ [])
      ++ (body ++ on_span (end_span ∷ []))

  unfoldable pub mark_span_error : String → List (TracerCall Float)
  mark_span_error error_type =
      on_span (set_attribute "error.type" (text error_type) ∷ set_status_error ∷ [])
