-- ===== src/Catalog.antt =====
-- model_catalog.py: the approved models and the gate before a model is downloaded or run.
mod Gate
mod Tests
use mac_llm_ops_lab.Prelude.{
  ℕ, String, Bool, true, false, not, ◌&&◌, Option, none, some, List, [], ◌∷◌, any, string_eq,
  if◌then◌else◌,
}
use mac_llm_ops_lab.Py.Str.{strip, lowers_to, is_empty}
use mac_llm_ops_lab.Py.Dict.{Dict, get}
use mac_llm_ops_lab.Py.Float.{FloatOps}
use mac_llm_ops_lab.Py.Result.{Result, ok, err, value_error, key_error, ◌>>=◌}
use mac_llm_ops_lab.Guard.{
  Decision, RuntimePreflightPlan, RuntimePreflightReport, missing_patterns,
  build_runtime_preflight_report, default_memory_ceiling_gib,
}

abbrev pub cache_ignore_patterns : List String
cache_ignore_patterns = "model-cache/" ∷ "models/" ∷ []

pub record ApprovedModelEntry (Float : Type 0) : Type 0 where
  pub model_id : String
  pub backend_id : String
  pub display_name : String
  pub source_url : String
  pub revision : String
  pub license : String
  pub library_name : String
  pub pipeline_tag : String
  pub tags : List String
  pub cache_root : String
  pub model_weights_gib : Float
  pub kv_cache_gib : Float
  pub runtime_overhead_gib : Float
  pub service_overhead_gib : Float

pub record ModelCard : Type 0 where
  pub model_id : String
  pub source_url : String
  pub revision : String
  pub license : String
  pub library_name : String
  pub pipeline_tag : String
  pub tags : List String
  pub cache_root : String

-- The entries that a report lacks for an unknown model are `none`.
pub record GateReport (Float : Type 0) : Type 0 where
  pub schema_version : String
  pub model_id : String
  pub model_card : Option ModelCard
  pub missing_ignore_patterns : Option (List String)
  pub preflight_report : Option (RuntimePreflightReport Float)
  pub decision : Decision

abbrev pub decide : Bool → String → String → Decision
decide allowed reason_code message = record {
  allowed = allowed;
  reason_code = reason_code;
  message = message;
}

unfoldable pub model_card : {Float : Type 0} → ApprovedModelEntry Float → ModelCard
model_card entry = record {
  model_id = entry.model_id;
  source_url = entry.source_url;
  revision = entry.revision;
  license = entry.license;
  library_name = entry.library_name;
  pipeline_tag = entry.pipeline_tag;
  tags = entry.tags;
  cache_root = entry.cache_root;
}

unfoldable pub missing_cache_ignore_patterns : String → List String
missing_cache_ignore_patterns = missing_patterns cache_ignore_patterns

-- `_parse_bool` of model_catalog.py: a blank value is `False`.
unfoldable pub parse_bool : String → Result Bool
parse_bool value =
    let normalized = strip value in
    if any (lowers_to normalized) ("1" ∷ "true" ∷ "yes" ∷ "on" ∷ [])
    then ok true
    else if any (lowers_to normalized) ("0" ∷ "false" ∷ "no" ∷ "off" ∷ "" ∷ [])
    then ok false
    else err (value_error "Invalid boolean setting")

module _ (F : FloatOps) where
  open F use {Float, decimal, add, round3}

  unfoldable pub entry_total_gib : ApprovedModelEntry Float → Float
  entry_total_gib entry = round3 (
      add (add (add entry.model_weights_gib entry.kv_cache_gib) entry.runtime_overhead_gib)
        entry.service_overhead_gib)

  -- `_APPROVED_MODELS`
  abbrev pub approved_models : Dict String (ApprovedModelEntry Float)
  approved_models =
      (
        "mlx-community/Qwen3-0.6B-8bit",
        record {
          model_id = "mlx-community/Qwen3-0.6B-8bit";
          backend_id = "vllm-mlx";
          display_name = "Qwen3 0.6B 8-bit MLX";
          source_url = "https://huggingface.co/mlx-community/Qwen3-0.6B-8bit";
          revision = "11de96878523501bcaa86104e3c186de07ff9068";
          license = "apache-2.0";
          library_name = "mlx";
          pipeline_tag = "text-generation";
          tags = "8-bit" ∷ "conversational" ∷ "mlx" ∷ "qwen3" ∷ "text-generation" ∷ [];
          cache_root = "model-cache/huggingface";
          model_weights_gib = decimal 12 1;
          kv_cache_gib = decimal 20 1;
          runtime_overhead_gib = decimal 10 1;
          service_overhead_gib = decimal 5 1;
        },
      )
      ∷ []

  unfoldable pub get_approved_model_entry : String → Result (ApprovedModelEntry Float)
  get_approved_model_entry model_id = elim (get model_id approved_models) [
    | none ↦ err key_error
    | some entry ↦ ok entry
  ]

  -- The plan that the gate hands to the preflight.
  unfoldable pub plan_of : ApprovedModelEntry Float → Bool → RuntimePreflightPlan Float
  plan_of entry explicitly_approved = record {
    backend_id = entry.backend_id;
    model_id = entry.model_id;
    explicitly_authorized = explicitly_approved;
    model_weights_gib = entry.model_weights_gib;
    kv_cache_gib = entry.kv_cache_gib;
    runtime_overhead_gib = entry.runtime_overhead_gib;
    service_overhead_gib = entry.service_overhead_gib;
    memory_ceiling_gib = default_memory_ceiling_gib F;
  }

  -- The decision for a model of the catalog, from the two checks.
  unfoldable pub gate_decision : List String → RuntimePreflightReport Float → Decision
  gate_decision (pattern ∷ patterns) preflight =
      decide false "runtime_cache_not_ignored"
        "Runtime model cache paths must be excluded from git."
  gate_decision [] preflight =
      if not preflight.decision.allowed
      then preflight.decision
      else decide true "model_download_gate_passed"
          "Model catalog, approval, memory, and cache policy passed."

  unfoldable pub report_for :
      String → Option (ApprovedModelEntry Float) → Bool → String → GateReport Float
  report_for model_id none explicitly_approved gitignore_text = record {
    schema_version = "approved-model-catalog/v1";
    model_id = model_id;
    model_card = none;
    missing_ignore_patterns = none;
    preflight_report = none;
    decision = decide false "model_not_in_catalog" "Model is not in the approved local catalog.";
  }
  report_for model_id (some entry) explicitly_approved gitignore_text =
      let missing = missing_cache_ignore_patterns gitignore_text in
      let preflight = build_runtime_preflight_report F (plan_of entry explicitly_approved) in
      record {
        schema_version = "approved-model-catalog/v1";
        model_id = model_id;
        model_card = some (model_card entry);
        missing_ignore_patterns = some missing;
        preflight_report = some preflight;
        decision = gate_decision missing preflight;
      }

  unfoldable pub build_model_download_gate_report : String → Bool → String → GateReport Float
  build_model_download_gate_report model_id explicitly_approved gitignore_text =
      report_for model_id (get model_id approved_models) explicitly_approved gitignore_text

  -- `main`: the exit status, from the model, the approval variable and the ignore file.
  unfoldable pub exit_status : String → String → String → Result ℕ
  exit_status model_id approved gitignore_text = parse_bool approved >>= λ explicitly_approved.
      let report = build_model_download_gate_report model_id explicitly_approved gitignore_text in
      ok (if report.decision.allowed then 0 else 2)
