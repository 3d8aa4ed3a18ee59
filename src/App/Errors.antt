-- ===== src/App/Errors.antt =====
-- app.py: the identifier of a request, the bodies of errors, and the snapshot of the metrics.
-- `header` is the framework's lookup of a request's header, `fresh` what `uuid4().hex` gives, and
-- `str_of` Python's `str` of an object.
mod Named
use mac_llm_ops_lab.Prelude.{
  ℕ, String, Bool, Option, none, some, List, [], ◌∷◌, is_nil, string_eq, if◌then◌else◌,
}
use mac_llm_ops_lab.Py.Str.{is_empty}
use mac_llm_ops_lab.Py.Dict.{Dict, get, put}
use mac_llm_ops_lab.Py.Value.{Value, dict, Fields, fields_of, end}
use mac_llm_ops_lab.Py.Result.{Result, ok, ◌>>=◌}
use mac_llm_ops_lab.Config.{or_else}
use mac_llm_ops_lab.Metrics.{InMemoryMetrics, Snapshot, snapshot}

-- `a or b`, for a lookup and a text
abbrev pub given_or : Option String → String → String
given_or none fresh = fresh
given_or (some id) fresh = if is_empty id then fresh else id

-- `request.headers.get(request_id_header) or uuid4().hex`
unfoldable pub request_id_of : (String → Option String) → String → String → String
request_id_of header request_id_header fresh = given_or (header request_id_header) fresh

pub record ErrorResponse : Type 0 where
  pub status_code : ℕ
  pub code : String
  pub message : String
  pub request_id : String
  pub headers : Dict String String

-- The name of the header, where the application has settings or not.
abbrev pub request_id_header_of : Option String → String
request_id_header_of none = "x-request-id"
request_id_header_of (some name) = name

-- `request_id` is that of the request's state, if it has one.
unfoldable pub error_response :
    Option String → Option String → String → ℕ → String → String → ErrorResponse
error_response settings_header request_id fresh status_code code message =
    let id = or_else request_id fresh in
    record {
      status_code = status_code;
      code = code;
      message = message;
      request_id = id;
      headers = (request_id_header_of settings_header, id) ∷ [];
    }

module _ {Float : Type 0} (str_of : Value Float → String) where
  -- `exc.detail if isinstance(exc.detail, dict) else {}`
  abbrev pub detail_of : Value Float → Fields Float
  detail_of (dict fields) = fields
  detail_of _ = end

  -- `str(detail.get(name, default))`
  abbrev pub text_at : Fields Float → String → String → String
  text_at detail name default = elim (get name (fields_of detail)) [
    | none ↦ default
    | some v ↦ str_of v
  ]

  unfoldable pub http_exception_handler :
      Option String → Option String → String → ℕ → Value Float → ErrorResponse
  http_exception_handler settings_header request_id fresh status_code detail =
      error_response settings_header request_id fresh status_code
        (text_at (detail_of detail) "code" "http_error")
        (text_at (detail_of detail) "message" "Request failed")

unfoldable pub validation_exception_handler : Option String → Option String → String → ErrorResponse
validation_exception_handler settings_header request_id fresh =
    error_response settings_header request_id fresh 422 "request_validation_failed"
      "Request validation failed"

-- `response.headers[request_id_header] = request_id`
unfoldable pub with_request_id : String → String → ErrorResponse → ErrorResponse
with_request_id request_id_header request_id response = record response {
  headers = put request_id_header request_id response.headers;
}

-- The snapshot, with the metrics of a backend that has any. `B` is what the backend gives.
pub record MetricsSnapshot (Float B : Type 0) : Type 0 where
  pub snapshot : Snapshot Float
  pub backend_batch_metrics : Option (Dict String B)

-- `if backend_metrics := ...`: an empty dictionary does not count.
abbrev pub if_any : {B : Type 0} → Option (Dict String B) → Option (Dict String B)
if_any none = none
if_any (some d) = if is_nil d then none else some d

unfoldable pub metrics_snapshot :
    {Float B : Type 0}
    → InMemoryMetrics Float
    → Option (Dict String B)
    → Result (MetricsSnapshot Float B)
metrics_snapshot m backend_metrics =
    snapshot m >>= λ s. ok (record { snapshot = s; backend_batch_metrics = if_any backend_metrics })
