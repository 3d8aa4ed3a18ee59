-- ===== src/Artifacts/Bundle.antt =====
-- runtime_artifacts.py: the index of an evidence bundle. `str(x)` is applied to texts only, which the
-- canonical record has checked.
pub mod Files
use mac_llm_ops_lab.Prelude.{ℕ, String, Bool, List, [], ◌∷◌}
use mac_llm_ops_lab.Py.Str.{◌<>◌}
use mac_llm_ops_lab.Py.Dict.{Dict}
use mac_llm_ops_lab.Py.Value.{Value, str, Fields}
use mac_llm_ops_lab.Py.Sorted.{sort_items}
use mac_llm_ops_lab.Py.Result.{Result, ok, ◌>>=◌}
use mac_llm_ops_lab.Artifacts.Checks.{
  value_at, text_of, validated_non_empty_string, validated_bundle_path,
}
use mac_llm_ops_lab.Artifacts.Record.{ExecutionRecord, canonical_runtime_execution_record}

-- `evidence_files` is the list of the labels and their paths.
pub record BundleIndex : Type 0 where
  pub schema_version : String
  pub artifact_dir : String
  pub execution_record_path : String
  pub log_path : String
  pub can_execute : Bool
  pub reason_code : String
  pub evidence_files : List (String × String)

module _ {Float : Type 0} where
  -- One round of the loop, and the loop over the sorted items.
  unfoldable pub checked_evidence : String → String × Value Float → Result (String × String)
  checked_evidence artifact_dir (label, path) = do
    normalized_label ← validated_non_empty_string {Float = Float} (str label) "evidence file label"
    normalized_path ← validated_bundle_path path artifact_dir "evidence file path"
    ok (normalized_label, normalized_path)

  abbrev pub checked_all : String → Dict String (Value Float) → Result (List (String × String))
  checked_all artifact_dir [] = ok []
  checked_all artifact_dir (entry ∷ entries) = do
    checked ← checked_evidence artifact_dir entry
    rest ← checked_all artifact_dir entries
    ok (checked ∷ rest)

  unfoldable pub validated_evidence_files :
      Dict String (Value Float) → String → Result (List (String × String))
  validated_evidence_files evidence_files artifact_dir =
      checked_all artifact_dir (sort_items evidence_files)

  unfoldable pub build_runtime_evidence_bundle_index :
      (Float → ℕ → Bool) → Fields Float → Dict String (Value Float) → Result BundleIndex
  build_runtime_evidence_bundle_index float_is execution_record evidence_files = do
    canonical ← canonical_runtime_execution_record float_is execution_record
    let artifact_dir = text_of (value_at "artifact_dir" canonical.evidence_manifest)
    files ← validated_evidence_files evidence_files artifact_dir
    ok (record {
      schema_version = "runtime-evidence-bundle/v1";
      artifact_dir = artifact_dir;
      execution_record_path = artifact_dir <> "/execution-record.json";
      log_path = text_of (value_at "log_path" canonical.evidence_manifest);
      can_execute = canonical.can_execute;
      reason_code = canonical.reason_code;
      evidence_files = files;
    })
