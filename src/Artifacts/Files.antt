-- ===== src/Artifacts/Files.antt =====
-- runtime_artifacts.py: where an execution record and a bundle's index are written, and reading a
-- record. Making the directories and the text of the JSON are left out, so that a file stands with
-- what it holds.
mod Placed
use mac_llm_ops_lab.Prelude.{ℕ, Bool, String, Option, none, some, string_eq}
use mac_llm_ops_lab.Py.Dict.{Dict}
use mac_llm_ops_lab.Py.Value.{Value, dict, Fields}
use mac_llm_ops_lab.Py.FilePath.{PurePath, parse_path, join_path}
use mac_llm_ops_lab.Py.Result.{Result, ok, err, value_error, ◌>>=◌}
use mac_llm_ops_lab.Artifacts.Checks.{value_at, text_of}
use mac_llm_ops_lab.Artifacts.Record.{ExecutionRecord, canonical_runtime_execution_record}
use mac_llm_ops_lab.Artifacts.Bundle.{BundleIndex, build_runtime_evidence_bundle_index}

-- `output_root / artifact_dir / name`
abbrev pub in_artifact_dir : String → String → String → PurePath
in_artifact_dir output_root artifact_dir name =
    join_path (join_path (parse_path output_root) (parse_path artifact_dir)) (parse_path name)

module _ {Float : Type 0} (float_is : Float → ℕ → Bool) where
  unfoldable pub write_runtime_execution_record :
      Fields Float → String → Result (PurePath × ExecutionRecord Float)
  write_runtime_execution_record record_fields output_root = do
    canonical ← canonical_runtime_execution_record float_is record_fields
    let artifact_dir = text_of (value_at "artifact_dir" canonical.evidence_manifest)
    ok (in_artifact_dir output_root artifact_dir "execution-record.json", canonical)

  -- The payload is what the JSON text says.
  unfoldable pub load_runtime_execution_record : Value Float → Result (ExecutionRecord Float)
  load_runtime_execution_record (dict fields) = canonical_runtime_execution_record float_is fields
  load_runtime_execution_record _ =
      err (value_error "execution record JSON must contain a JSON object")

  unfoldable pub write_runtime_evidence_bundle_index :
      Fields Float → Dict String (Value Float) → String → Result (PurePath × BundleIndex)
  write_runtime_evidence_bundle_index execution_record evidence_files output_root = do
    index ← build_runtime_evidence_bundle_index float_is execution_record evidence_files
    ok (in_artifact_dir output_root index.artifact_dir "evidence-bundle.json", index)
