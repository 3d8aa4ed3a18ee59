-- ===== src/Artifacts/Tests.antt =====
-- Records and bundles on concrete values.
use mac_llm_ops_lab.Prelude.{ℕ, pos, String, ◌≡◌, refl, true, eqb, [], ◌∷◌, string_eq}
use mac_llm_ops_lab.Py.Str.{is_space, lstrip, rstrip, strip, split_on, join, str_ltb}
use mac_llm_ops_lab.Py.Dict.{Dict, get, contains, keys}
use mac_llm_ops_lab.Py.Value.{Value, bool, int, str, list, dict, nil, cons, Fields, end, field}
use mac_llm_ops_lab.Py.FilePath.{
  root_of, parse_path, parts, is_absolute, as_posix, is_relative_to, suffix,
}
use mac_llm_ops_lab.Py.Sorted.{IsSorted, insert_item, sort_items}
use mac_llm_ops_lab.Py.Result.{ok}
use mac_llm_ops_lab.Artifacts.Checks.{
  value_at, mapping_field, sequence_field, validated_non_empty_string, validated_command,
  validated_non_empty_mapping, validated_host, validated_ports, validate_schema_version,
  validated_relative_path, validated_artifact_dir, validated_log_path, validated_bundle_path,
}
use mac_llm_ops_lab.Artifacts.Record.{
  ExecutionRecord, build_runtime_evidence_manifest, validate_evidence_manifest_payload,
  validate_preflight_manifest_consistency, validated_preflight_decision,
  build_runtime_execution_record, to_fields, matches, canonical_runtime_execution_record,
}
use mac_llm_ops_lab.Artifacts.Record.Canonical.{canonical-to_fields}
use mac_llm_ops_lab.Artifacts.Record.Grounded.{build_runtime_execution_record-IsGrounded}
use mac_llm_ops_lab.Artifacts.Bundle.{
  BundleIndex, checked_evidence, validated_evidence_files, build_runtime_evidence_bundle_index,
}
use mac_llm_ops_lab.Artifacts.Bundle.Files.{
  AllWithin, labels, build_runtime_evidence_bundle_index-AllWithin,
}

abbrev preflight : Fields ℕ
preflight = field "schema_version" (str "runtime-preflight/v1") (
    field "backend_id" (str "mlx") (
      field "model_id" (str "qwen") (
        field "decision"
          (dict (field "allowed" (bool true) (field "reason_code" (str "passed") end))) end)))

abbrev host : Fields ℕ
host = field "os" (str "macOS") (field "chip" (str "M2") (field "memory_gib" (int (pos 64)) end))

abbrev config : Fields ℕ
config = field "max_tokens" (int (pos 16)) end

abbrev ports : Fields ℕ
ports = field "api" (int (pos 28000)) end

abbrev manifest : Fields ℕ
manifest = field "schema_version" (str "runtime-evidence-manifest/v1") (
    field "git_sha" (str "abc") (
      field "command" (list (cons (str "make") nil)) (
        field "artifact_dir" (str "artifacts/runtime/run") (
          field "log_path" (str "artifacts/runtime/run/api.log") (
            field "host" (dict host) (
              field "backend" (dict (field "id" (str "mlx") (field "model_id" (str "qwen") end)))
                (field "runtime_config" (dict config) (field "ports" (dict ports) end))))))))

builds_manifest :
    build_runtime_evidence_manifest
      (str "abc")
      (cons (str "make") nil)
      "artifacts/runtime//run"
      "artifacts/runtime/run/./api.log"
      host
      (str "mlx")
      (str "qwen")
      config
      ports
    ≡ ok manifest
unfolding build_runtime_evidence_manifest validated_non_empty_string validated_command
    validated_artifact_dir validated_log_path validated_relative_path validated_host
    validated_non_empty_mapping validated_ports strip lstrip rstrip is_space parse_path parts
    is_absolute as_posix is_relative_to suffix root_of split_on join contains
builds_manifest = refl

abbrev execution : ExecutionRecord ℕ
execution = record {
  can_execute = true;
  reason_code = "passed";
  preflight_report = preflight;
  evidence_manifest = manifest;
}

builds : build_runtime_execution_record preflight manifest ≡ ok execution
unfolding build_runtime_execution_record validate_schema_version validate_evidence_manifest_payload
    validate_preflight_manifest_consistency validated_preflight_decision mapping_field
    sequence_field value_at get validated_non_empty_string validated_command validated_artifact_dir
    validated_log_path validated_relative_path validated_host validated_non_empty_mapping
    validated_ports strip lstrip rstrip is_space parse_path parts is_absolute as_posix
    is_relative_to suffix root_of split_on join contains
builds = refl

canonical-to_fields_example :
    canonical_runtime_execution_record eqb (to_fields execution) ≡ ok execution
canonical-to_fields_example = canonical-to_fields eqb preflight manifest execution builds

build_runtime_execution_record-IsGrounded_example :
    (preflight ≡ preflight)
    × (manifest ≡ manifest)
    × (decision : Fields ℕ) × (mapping_field preflight "decision" ≡ ok decision)
    × (value_at "allowed" decision ≡ bool true)
    × (value_at "reason_code" decision ≡ str "passed")
    × (backend : Fields ℕ) × (mapping_field manifest "backend" ≡ ok backend)
    × (value_at "backend_id" preflight ≡ value_at "id" backend)
    × (value_at "model_id" preflight ≡ value_at "model_id" backend)
    × (dir_text dir log_text log : String) × (value_at "artifact_dir" manifest ≡ str dir_text)
    × (validated_artifact_dir dir_text ≡ ok dir)
    × (value_at "log_path" manifest ≡ str log_text)
    × (validated_log_path log_text dir ≡ ok log)
build_runtime_execution_record-IsGrounded_example =
    build_runtime_execution_record-IsGrounded preflight manifest execution builds

abbrev files : Dict String (Value ℕ)
files =
    ("metrics", str "artifacts/runtime/run/metrics.json")
    ∷ ("api", str "artifacts/runtime/run/api.log")
    ∷ []

abbrev index : BundleIndex
index = record {
  schema_version = "runtime-evidence-bundle/v1";
  artifact_dir = "artifacts/runtime/run";
  execution_record_path = "artifacts/runtime/run/execution-record.json";
  log_path = "artifacts/runtime/run/api.log";
  can_execute = true;
  reason_code = "passed";
  evidence_files =
      ("api", "artifacts/runtime/run/api.log")
      ∷ ("metrics", "artifacts/runtime/run/metrics.json")
      ∷ [];
}

indexes : build_runtime_evidence_bundle_index eqb (to_fields execution) files ≡ ok index
unfolding build_runtime_evidence_bundle_index validated_evidence_files checked_evidence
    validated_bundle_path canonical_runtime_execution_record matches sort_items insert_item str_ltb
    build_runtime_execution_record validate_schema_version validate_evidence_manifest_payload
    validate_preflight_manifest_consistency validated_preflight_decision mapping_field
    sequence_field value_at get validated_non_empty_string validated_command validated_artifact_dir
    validated_log_path validated_relative_path validated_host validated_non_empty_mapping
    validated_ports strip lstrip rstrip is_space parse_path parts is_absolute as_posix
    is_relative_to suffix root_of split_on join contains
indexes = refl

build_runtime_evidence_bundle_index-AllWithin_example :
    (r : ExecutionRecord ℕ) × (canonical_runtime_execution_record eqb (to_fields execution) ≡ ok r)
    × (true ≡ r.can_execute)
    × ("passed" ≡ r.reason_code)
    × (labels index.evidence_files ≡ keys (sort_items files))
    × IsSorted (sort_items files)
    × AllWithin "artifacts/runtime/run" index.evidence_files
build_runtime_evidence_bundle_index-AllWithin_example =
    build_runtime_evidence_bundle_index-AllWithin eqb (to_fields execution) files index indexes
