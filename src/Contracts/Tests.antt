-- ===== src/Contracts/Tests.antt =====
-- Benchmark manifests on concrete values.
mod Summary
use mac_llm_ops_lab.Prelude.{ℕ, pos, String, ◌≡◌, refl, true, [], ◌∷◌}
use mac_llm_ops_lab.Py.Str.{is_space, lstrip, rstrip, strip, split_on, join}
use mac_llm_ops_lab.Py.Dict.{get, contains}
use mac_llm_ops_lab.Py.Value.{bool, int, str, nil, cons, Fields, end, field}
use mac_llm_ops_lab.Py.FilePath.{
  root_of, parse_path, parts, is_absolute, as_posix, is_relative_to, suffix,
}
use mac_llm_ops_lab.Py.Result.{ok, err, value_error}
use mac_llm_ops_lab.Artifacts.Checks.{
  value_at, validated_non_empty_string, validated_command, validated_non_empty_mapping,
  validated_host, validated_relative_path, validated_artifact_dir,
}
use mac_llm_ops_lab.Contracts.Checks.{
  validated_json_path_in_artifact_dir, validated_high_ports, validated_env, validated_no_leak_scan,
}
use mac_llm_ops_lab.Contracts.Manifest.{
  ManifestArgs, manifest_of, build_benchmark_artifact_manifest,
  canonical_benchmark_artifact_manifest,
}
use mac_llm_ops_lab.Contracts.Manifest.Canonical.{canonical-build}

abbrev host : Fields ℕ
host = field "os" (str "macOS") (field "chip" (str "M2") (field "memory_gib" (int (pos 64)) end))

abbrev scan : String → Fields ℕ
scan path =
    field "path" (str path) (field "passed" (bool true) (field "findings_count" (int (pos 0)) end))

abbrev arguments : ManifestArgs ℕ
arguments = record {
  git_sha = str "abc";
  command = cons (str "make") nil;
  artifact_dir = "artifacts/runtime//run/";
  raw_benchmark_path = "artifacts/runtime/run/./raw.json";
  summary_path = "artifacts/runtime/run/summary.json";
  model_id = str "qwen";
  model_revision = str "main";
  host = host;
  ports = field "api" (int (pos 28000)) end;
  env = field "MODE" (str "bench") end;
  no_leak_scan = scan "artifacts/runtime/run//scan.json";
}

abbrev built : Fields ℕ
built =
    manifest_of "abc" (str "make" ∷ []) "artifacts/runtime/run" "artifacts/runtime/run/raw.json"
      "artifacts/runtime/run/summary.json" "qwen" "main" host (field "api" (int (pos 28000)) end)
      (field "MODE" (str "bench") end) (scan "artifacts/runtime/run/scan.json")

builds : build_benchmark_artifact_manifest arguments ≡ ok built
unfolding build_benchmark_artifact_manifest manifest_of validated_non_empty_string validated_command
    validated_artifact_dir validated_relative_path validated_json_path_in_artifact_dir
    validated_host validated_non_empty_mapping validated_high_ports validated_env
    validated_no_leak_scan value_at get contains strip lstrip rstrip is_space parse_path parts
    is_absolute as_posix is_relative_to suffix root_of split_on join
builds = refl

canonical-build_example : canonical_benchmark_artifact_manifest built ≡ ok built
canonical-build_example = canonical-build arguments built builds

-- A port below the range, and a scan with findings.
low_port :
    validated_high_ports {Float = ℕ} (field "api" (int (pos 8000)) end)
    ≡ err (value_error "ports must use non-empty names and values in 20000-50000")
unfolding validated_high_ports validated_non_empty_mapping
low_port = refl

found_leak :
    validated_no_leak_scan {Float = ℕ}
      (field "path"
        (str "artifacts/runtime/run/scan.json")
        (field "passed" (bool true) (field "findings_count" (int (pos 2)) end)))
      "artifacts/runtime/run"
    ≡ err (value_error "no_leak_scan findings_count must be 0")
unfolding validated_no_leak_scan validated_non_empty_mapping validated_non_empty_string
    validated_json_path_in_artifact_dir validated_relative_path value_at get strip lstrip rstrip
    is_space parse_path parts is_absolute as_posix is_relative_to suffix root_of split_on join
found_leak = refl
