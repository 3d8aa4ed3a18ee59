-- ===== src/Contracts/Manifest.antt =====
-- backend_contracts.py: the manifest of a benchmark's artifacts, built and read again.
pub mod Canonical
use mac_llm_ops_lab.Prelude.{String, not, List, string_eq}
use mac_llm_ops_lab.Py.Str.{◌<>◌}
use mac_llm_ops_lab.Py.Value.{Value, str, list, dict, Items, Fields, end, field, items_of}
use mac_llm_ops_lab.Py.Result.{Result, ok, value_error, ◌>>=◌, ◌>>◌, raise_if}
use mac_llm_ops_lab.Artifacts.Checks.{
  value_at, mapping_field, sequence_field, is_text, validated_non_empty_string, validated_command,
  validated_host, validated_artifact_dir,
}
use mac_llm_ops_lab.Artifacts.Record.{items}
use mac_llm_ops_lab.Contracts.Checks.{
  validated_json_path_in_artifact_dir, validated_high_ports, validated_env, validated_no_leak_scan,
}

abbrev pub schema : String
schema = "vllm-mlx-benchmark-artifact-manifest/v1"

-- The arguments of `build_benchmark_artifact_manifest`.
pub record ManifestArgs (Float : Type 0) : Type 0 where
  pub git_sha : Value Float
  pub command : Items Float
  pub artifact_dir : String
  pub raw_benchmark_path : String
  pub summary_path : String
  pub model_id : Value Float
  pub model_revision : Value Float
  pub host : Fields Float
  pub ports : Fields Float
  pub env : Fields Float
  pub no_leak_scan : Fields Float

module _ {Float : Type 0} where
  unfoldable pub manifest_of :
      String
      → List (Value Float)
      → String
      → String
      → String
      → String
      → String
      → Fields Float
      → Fields Float
      → Fields Float
      → Fields Float
      → Fields Float
  manifest_of sha parts dir raw summary model revision host ports env scan =
      field "schema_version" (str schema) (
        field "git_sha" (str sha) (
          field "command" (list (items parts)) (
            field "artifact_dir" (str dir) (
              field "raw_benchmark_path" (str raw) (
                field "summary_path" (str summary) (
                  field "model"
                    (dict (field "id" (str model) (field "revision" (str revision) end)))
                    (field "host" (dict host) (
                      field "ports" (dict ports)
                        (field "env" (dict env) (field "no_leak_scan" (dict scan) end))))))))))

  unfoldable pub build_benchmark_artifact_manifest : ManifestArgs Float → Result (Fields Float)
  build_benchmark_artifact_manifest a = do
    dir ← validated_artifact_dir a.artifact_dir
    sha ← validated_non_empty_string a.git_sha "git_sha"
    parts ← validated_command (items_of a.command)
    raw ← validated_json_path_in_artifact_dir a.raw_benchmark_path dir "raw_benchmark_path"
    summary ← validated_json_path_in_artifact_dir a.summary_path dir "summary_path"
    model ← validated_non_empty_string a.model_id "model_id"
    revision ← validated_non_empty_string a.model_revision "model_revision"
    host ← validated_host a.host
    ports ← validated_high_ports a.ports
    env ← validated_env a.env
    scan ← validated_no_leak_scan a.no_leak_scan dir
    ok (manifest_of sha parts dir raw summary model revision host ports env scan)

  -- The arguments that a manifest names.
  unfoldable pub manifest_args : Fields Float → Result (ManifestArgs Float)
  manifest_args manifest = do
    model ← mapping_field manifest "model"
    sha ← validated_non_empty_string (value_at "git_sha" manifest) "git_sha"
    command ← sequence_field manifest "command"
    dir ← validated_non_empty_string (value_at "artifact_dir" manifest) "artifact_dir"
    raw ← validated_non_empty_string (value_at "raw_benchmark_path" manifest) "raw_benchmark_path"
    summary ← validated_non_empty_string (value_at "summary_path" manifest) "summary_path"
    id ← validated_non_empty_string (value_at "id" model) "model_id"
    revision ← validated_non_empty_string (value_at "revision" model) "model_revision"
    host ← mapping_field manifest "host"
    ports ← mapping_field manifest "ports"
    env ← mapping_field manifest "env"
    scan ← mapping_field manifest "no_leak_scan"
    ok (record {
      git_sha = str sha;
      command = command;
      artifact_dir = dir;
      raw_benchmark_path = raw;
      summary_path = summary;
      model_id = str id;
      model_revision = str revision;
      host = host;
      ports = ports;
      env = env;
      no_leak_scan = scan;
    })

  unfoldable pub canonical_benchmark_artifact_manifest : Fields Float → Result (Fields Float)
  canonical_benchmark_artifact_manifest manifest = do
    raise_if (not (is_text (value_at "schema_version" manifest) schema))
        (value_error ("schema_version must be " <> schema))
    args ← manifest_args manifest
    build_benchmark_artifact_manifest args
