-- ===== src/Config/Tests.antt =====
-- Settings from concrete environments.
use mac_llm_ops_lab.Prelude.{ℕ, String, ◌≡◌, refl, ◌⊎◌, true, false, some, none, [], ◌∷◌}
use mac_llm_ops_lab.Py.Str.{is_space, strip, split_on, lowers_to}
use mac_llm_ops_lab.Py.Dict.{Dict, get}
use mac_llm_ops_lab.Py.Float.{milli}
use mac_llm_ops_lab.Py.Result.{ok, err, value_error}
use mac_llm_ops_lab.Config.{
  Settings, parse_csv, parse_bool, env_value, is_backend_kind, build_settings, validate_settings,
  load_settings, first_value,
}
use mac_llm_ops_lab.Config.Accepted.{AllTrimmed, parse_csv-AllTrimmed, load_settings-accepted}

abbrev env : Dict String String
env =
    ("MAC_LLM_OPS_MODEL_ALLOWLIST", " a, ,b ,")
    ∷ ("MAC_LLM_OPS_OTEL_ENABLED", "ON")
    ∷ ("PHOENIX_COLLECTOR_ENDPOINT", "http://phoenix")
    ∷ ("MAC_LLM_OPS_OPENAI_TIMEOUT_SECONDS", "1.5")
    ∷ ("MAC_LLM_OPS_BACKEND_KIND", "")
    ∷ []

abbrev settings : Settings ℕ
settings = record {
  service_name = "mac-llm-ops-lab";
  request_id_header = "x-request-id";
  model_allowlist = "a" ∷ "b" ∷ [];
  capture_request_bodies = false;
  backend_kind = "fake";
  openai_base_url = "http://127.0.0.1:28100/v1";
  openai_api_key = none;
  openai_timeout_seconds = 1500;
  otel_enabled = true;
  otel_exporter_otlp_traces_endpoint = some "http://phoenix";
  otel_capture_content = false;
  otel_export_timeout_seconds = 10000;
  phoenix_project_name = "mac-llm-ops-lab";
}

loads : load_settings milli env ≡ ok settings
unfolding load_settings build_settings validate_settings is_backend_kind env_value get parse_bool
    parse_csv strip is_space split_on lowers_to
loads = refl

unknown_backend :
    load_settings milli (("MAC_LLM_OPS_BACKEND_KIND", "vllm") ∷ [])
    ≡ err (value_error "backend_kind")
unfolding load_settings build_settings validate_settings is_backend_kind env_value get
unknown_backend = refl

parse_csv-AllTrimmed_test : AllTrimmed (parse_csv " a, ,b ,")
parse_csv-AllTrimmed_test = parse_csv-AllTrimmed " a, ,b ,"

load_settings-accepted_example :
    ((settings.backend_kind ≡ "fake") ⊎ (settings.backend_kind ≡ "openai-compatible"))
    × AllTrimmed settings.model_allowlist
    × (settings.otel_exporter_otlp_traces_endpoint
        ≡ first_value (env_value env "MAC_LLM_OPS_OTEL_EXPORTER_OTLP_TRACES_ENDPOINT") (
            first_value
              (env_value env "MAC_LLM_OPS_PHOENIX_COLLECTOR_ENDPOINT")
              (env_value env "PHOENIX_COLLECTOR_ENDPOINT")))
load_settings-accepted_example = load_settings-accepted milli env settings loads
