-- ===== src/Contracts/Checks.antt =====
-- backend_contracts.py, the checks of single values that differ from those of runtime_artifacts.py.
-- The others are the same code there, and are taken from Artifacts/Checks.antt.
pub mod Again
pub mod Paths
use mac_llm_ops_lab.Prelude.{
  pos, leb_ℤ, eqb_ℤ, String, Bool, true, false, not, ◌&&◌, all, ◌==◌, string_eq,
}
use mac_llm_ops_lab.Py.Str.{◌<>◌, strip, is_empty}
use mac_llm_ops_lab.Py.Value.{Value, bool, int, str, Fields, end, field, fields_of}
use mac_llm_ops_lab.Py.FilePath.{parse_path, as_posix, is_relative_to, suffix}
use mac_llm_ops_lab.Py.Result.{Result, ok, value_error, ◌>>=◌, ◌>>◌, raise_if}
use mac_llm_ops_lab.Artifacts.Checks.{
  value_at, validated_non_empty_string, validated_non_empty_mapping, validated_relative_path,
}

unfoldable pub validated_json_path_in_artifact_dir : String → String → String → Result String
validated_json_path_in_artifact_dir value artifact_dir name = do
  path ← validated_relative_path value name
  raise_if (not (is_relative_to path (parse_path artifact_dir)))
      (value_error (name <> " must be inside artifact_dir"))
  raise_if (not (suffix path == ".json")) (value_error (name <> " must point to a .json file"))
  ok (as_posix path)

module _ {Float : Type 0} where
  abbrev is_high_port : String × Value Float → Bool
  is_high_port (name, int port) =
      not (is_empty name) && leb_ℤ (pos 20000) port && leb_ℤ port (pos 50000)
  is_high_port (name, _) = false

  unfoldable pub validated_high_ports : Fields Float → Result (Fields Float)
  validated_high_ports ports = do
    normalized ← validated_non_empty_mapping ports "ports"
    raise_if (not (all is_high_port (fields_of normalized)))
        (value_error "ports must use non-empty names and values in 20000-50000")
    ok normalized

  abbrev is_variable : String × Value Float → Bool
  is_variable (name, str value) = not (is_empty (strip name)) && not (is_empty (strip value))
  is_variable (name, _) = false

  unfoldable pub validated_env : Fields Float → Result (Fields Float)
  validated_env env = do
    normalized ← validated_non_empty_mapping env "env"
    raise_if (not (all is_variable (fields_of normalized)))
        (value_error "env must use non-empty string names and values")
    ok normalized

  -- `value is True`
  abbrev pub is_true : Value Float → Bool
  is_true (bool b) = b
  is_true _ = false

  abbrev pub is_zero : Value Float → Bool
  is_zero (int n) = eqb_ℤ n (pos 0)
  is_zero _ = false

  unfoldable pub validated_no_leak_scan : Fields Float → String → Result (Fields Float)
  validated_no_leak_scan no_leak_scan artifact_dir = do
    normalized ← validated_non_empty_mapping no_leak_scan "no_leak_scan"
    text ← validated_non_empty_string (value_at "path" normalized) "no_leak_scan.path"
    path ← validated_json_path_in_artifact_dir text artifact_dir "no_leak_scan.path"
    raise_if (not (is_true (value_at "passed" normalized)))
        (value_error "no_leak_scan must have passed=true")
    raise_if (not (is_zero (value_at "findings_count" normalized)))
        (value_error "no_leak_scan findings_count must be 0")
    ok (
        field "path" (str path)
          (field "passed" (bool true) (field "findings_count" (int (pos 0)) end)))
