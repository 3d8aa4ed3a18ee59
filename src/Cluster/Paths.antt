-- ===== src/Cluster/Paths.antt =====
-- cluster.py: the checks of relative paths, of the artifact directory, and of evidence files.
pub mod Inside
use mac_llm_ops_lab.Prelude.{
  String, Bool, true, false, not, ◌&&◌, ◌||◌, List, [], ◌∷◌, elem, ◌==◌, string_eq,
}
use mac_llm_ops_lab.Py.Str.{◌<>◌}
use mac_llm_ops_lab.Py.Value.{Value}
use mac_llm_ops_lab.Py.FilePath.{
  PurePath, parse_path, parts, is_absolute, as_posix, is_relative_to, suffix,
}
use mac_llm_ops_lab.Py.Result.{Result, ok, value_error, ◌>>=◌, ◌>>◌, raise_if}
use mac_llm_ops_lab.Cluster.Checks.{non_empty_string}

abbrev pub is_traversal : PurePath → Bool
is_traversal path = is_absolute path || elem ".." (parts path)

-- `len(parts) >= 3 and parts[:2] == ("artifacts", "runtime")`
abbrev pub under_runtime : List String → Bool
under_runtime (a ∷ b ∷ c ∷ rest) = a == "artifacts" && b == "runtime"
under_runtime _ = false

module _ {Float : Type 0} where
  unfoldable pub relative_path : Value Float → String → Result PurePath
  relative_path value field_name = do
    text ← non_empty_string value field_name
    let path = parse_path text
    raise_if (is_traversal path)
        (value_error (field_name <> " must be a relative path without traversal"))
    ok path

  unfoldable pub validated_artifact_dir : Value Float → Result String
  validated_artifact_dir value = do
    path ← relative_path value "artifact_dir"
    raise_if (not (under_runtime (parts path)))
        (value_error "artifact_dir must be under artifacts/runtime/")
    ok (as_posix path)

  unfoldable pub validated_evidence_path : Value Float → String → String → String → Result String
  validated_evidence_path value artifact_dir field_name expected_suffix = do
    path ← relative_path value field_name
    raise_if (not (is_relative_to path (parse_path artifact_dir)))
        (value_error (field_name <> " must be inside artifact_dir"))
    raise_if (not (suffix path == expected_suffix))
        (value_error (field_name <> " must end with " <> expected_suffix))
    ok (as_posix path)
