-- ===== src/Contracts/Files.antt =====
-- backend_contracts.py: writing and loading a benchmark's manifest. Making directories and the text of
-- the JSON are left out, so that a file stands with the object that it holds.
mod Again
use mac_llm_ops_lab.Prelude.{String, string_eq}
use mac_llm_ops_lab.Py.Value.{Value, dict, Fields}
use mac_llm_ops_lab.Py.FilePath.{PurePath}
use mac_llm_ops_lab.Py.Result.{Result, ok, err, value_error, ◌>>=◌}
use mac_llm_ops_lab.Artifacts.Checks.{value_at, text_of}
use mac_llm_ops_lab.Artifacts.Files.{in_artifact_dir}
use mac_llm_ops_lab.Contracts.Manifest.{canonical_benchmark_artifact_manifest}

module _ {Float : Type 0} where
  unfoldable pub write_benchmark_artifact_manifest :
      Fields Float → String → Result (PurePath × Fields Float)
  write_benchmark_artifact_manifest manifest output_root = do
    canonical ← canonical_benchmark_artifact_manifest manifest
    let artifact_dir = text_of (value_at "artifact_dir" canonical)
    ok (in_artifact_dir output_root artifact_dir "benchmark-artifact-manifest.json", canonical)

  -- The payload is what the JSON text says.
  unfoldable pub load_benchmark_artifact_manifest : Value Float → Result (Fields Float)
  load_benchmark_artifact_manifest (dict manifest) = canonical_benchmark_artifact_manifest manifest
  load_benchmark_artifact_manifest _ =
      err (value_error "benchmark artifact manifest JSON must contain an object")
