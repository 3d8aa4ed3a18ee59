-- ===== src/Artifacts/Record.antt =====
-- runtime_artifacts.py: the evidence manifest and the execution record. The record is kept as its
-- four parts beside the version; `to_fields` is its JSON object. `float_is` is `==` between a float
-- and 1 or 0, which a Boolean is equal to.
pub mod Canonical
pub mod Grounded
use mac_llm_ops_lab.Prelude.{
  ℕ, ℤ, pos, eqb_ℤ, String, Bool, true, false, not, ◌&&◌, ◌||◌, List, [], ◌∷◌, ◌==◌, string_eq,
  if◌then◌else◌,
}
use mac_llm_ops_lab.Py.Str.{◌<>◌}
use mac_llm_ops_lab.Py.Value.{
  Value, null, bool, int, float, str, list, dict, Items, nil, cons, Fields, end, field, items_of,
}
use mac_llm_ops_lab.Py.Result.{Result, Error, ok, err, value_error, ◌>>=◌, ◌>>◌, raise_if}
use mac_llm_ops_lab.Artifacts.Checks.{
  value_at, mapping_field, sequence_field, is_text, validated_non_empty_string, validated_command,
  validated_non_empty_mapping, validated_host, validated_ports, validate_schema_version,
  validated_artifact_dir, validated_log_path,
}

pub record ExecutionRecord (Float : Type 0) : Type 0 where
  pub can_execute : Bool
  pub reason_code : String
  pub preflight_report : Fields Float
  pub evidence_manifest : Fields Float

-- What `_validated_preflight_decision` returns.
pub record PreflightDecision : Type 0 where
  pub allowed : Bool
  pub reason_code : String

module _ {Float : Type 0} where
  abbrev pub items : List (Value Float) → Items Float
  items [] = nil
  items (v ∷ vs) = cons v (items vs)

  unfoldable pub build_runtime_evidence_manifest :
      Value Float
      → Items Float
      → String
      → String
      → Fields Float
      → Value Float
      → Value Float
      → Fields Float
      → Fields Float
      → Result (Fields Float)
  build_runtime_evidence_manifest git_sha command artifact_dir log_path host backend_id model_id
        runtime_config ports =
      do
        sha ← validated_non_empty_string git_sha "git_sha"
        backend ← validated_non_empty_string backend_id "backend_id"
        model ← validated_non_empty_string model_id "model_id"
        parts ← validated_command (items_of command)
        dir ← validated_artifact_dir artifact_dir
        log ← validated_log_path log_path dir
        host_labels ← validated_host host
        config ← validated_non_empty_mapping runtime_config "runtime_config"
        port_map ← validated_ports ports
        ok (
            field "schema_version" (str "runtime-evidence-manifest/v1") (
              field "git_sha" (str sha) (
                field "command" (list (items parts)) (
                  field "artifact_dir" (str dir) (
                    field "log_path" (str log) (
                      field "host" (dict host_labels) (
                        field "backend"
                          (dict (field "id" (str backend) (field "model_id" (str model) end)))
                          (field "runtime_config" (dict config)
                            (field "ports" (dict port_map) end)))))))))

  unfoldable pub validate_evidence_manifest_payload : Fields Float → Result (Unit {0})
  validate_evidence_manifest_payload manifest = do
    backend ← mapping_field manifest "backend"
    sha ← validated_non_empty_string (value_at "git_sha" manifest) "git_sha"
    command ← sequence_field manifest "command"
    parts ← validated_command (items_of command)
    dir_text ← validated_non_empty_string (value_at "artifact_dir" manifest) "artifact_dir"
    dir ← validated_artifact_dir dir_text
    log_text ← validated_non_empty_string (value_at "log_path" manifest) "log_path"
    log ← validated_log_path log_text dir
    host ← mapping_field manifest "host"
    labels ← validated_host host
    id ← validated_non_empty_string (value_at "id" backend) "backend_id"
    model ← validated_non_empty_string (value_at "model_id" backend) "model_id"
    config ← mapping_field manifest "runtime_config"
    filled ← validated_non_empty_mapping config "runtime_config"
    ports ← mapping_field manifest "ports"
    checked ← validated_ports ports
    ok tt

  -- `a == b`, where `b` has been checked to be a text.
  abbrev pub same_text : Value Float → Value Float → Bool
  same_text a (str t) = is_text a t
  same_text a _ = false

  unfoldable pub validate_preflight_manifest_consistency :
      Fields Float → Fields Float → Result (Unit {0})
  validate_preflight_manifest_consistency preflight manifest = do
    backend ← mapping_field manifest "backend"
    raise_if (not (same_text (value_at "backend_id" preflight) (value_at "id" backend)))
        (value_error "backend id mismatch between preflight and manifest")
    raise_if (not (same_text (value_at "model_id" preflight) (value_at "model_id" backend)))
        (value_error "model id mismatch between preflight and manifest")

  abbrev pub as_bool : Value Float → Result Bool
  as_bool (bool b) = ok b
  as_bool _ = err (value_error "decision.allowed must be a boolean")

  unfoldable pub validated_preflight_decision : Fields Float → Result PreflightDecision
  validated_preflight_decision preflight = do
    decision ← mapping_field preflight "decision"
    allowed ← as_bool (value_at "allowed" decision)
    reason_code ←
        validated_non_empty_string (value_at "reason_code" decision) "decision.reason_code"
    ok (record { allowed = allowed; reason_code = reason_code })

  unfoldable pub build_runtime_execution_record :
      Fields Float → Fields Float → Result (ExecutionRecord Float)
  build_runtime_execution_record preflight manifest = do
    validate_schema_version preflight "runtime-preflight/v1" "preflight_report"
    validate_schema_version manifest "runtime-evidence-manifest/v1" "evidence_manifest"
    validate_evidence_manifest_payload manifest
    validate_preflight_manifest_consistency preflight manifest
    decision ← validated_preflight_decision preflight
    ok (record {
      can_execute = decision.allowed;
      reason_code = decision.reason_code;
      preflight_report = preflight;
      evidence_manifest = manifest;
    })

  abbrev pub to_fields : ExecutionRecord Float → Fields Float
  to_fields r = field "schema_version" (str "runtime-execution-record/v1") (
      field "can_execute" (bool r.can_execute) (
        field "reason_code" (str r.reason_code) (
          field "preflight_report" (dict r.preflight_report)
            (field "evidence_manifest" (dict r.evidence_manifest) end))))

  module _ (float_is : Float → ℕ → Bool) where
    -- `value == b`, for a Boolean `b`, which is 1 or 0 to Python.
    abbrev pub is_bool : Value Float → Bool → Bool
    is_bool (bool c) b = if b then c else not c
    is_bool (int n) b = eqb_ℤ n (pos (if b then 1 else 0))
    is_bool (float x) b = float_is x (if b then 1 else 0)
    is_bool _ b = false

    -- The comparisons of a record that was read with the record that is built from its parts.
    unfoldable pub matches : Fields Float → ExecutionRecord Float → Result (ExecutionRecord Float)
    matches given r = do
      raise_if (not (is_bool (value_at "can_execute" given) r.can_execute))
          (value_error "can_execute must match the preflight decision")
      raise_if (not (is_text (value_at "reason_code" given) r.reason_code))
          (value_error "reason_code must match the preflight decision")
      ok r

    unfoldable pub canonical_runtime_execution_record :
        Fields Float → Result (ExecutionRecord Float)
    canonical_runtime_execution_record given = do
      validate_schema_version given "runtime-execution-record/v1" "record"
      preflight ← mapping_field given "preflight_report"
      manifest ← mapping_field given "evidence_manifest"
      r ← build_runtime_execution_record preflight manifest
      matches given r
