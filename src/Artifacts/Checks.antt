-- ===== src/Artifacts/Checks.antt =====
-- runtime_artifacts.py, the checks of single values. `fields` are those of a mapping.
use mac_llm_ops_lab.Prelude.{
  pos, leb_ℤ, String, Bool, true, false, not, ◌&&◌, ◌||◌, none, some, List, [], ◌∷◌, keep, all,
  is_nil, elem, ◌==◌, string_eq,
}
use mac_llm_ops_lab.Py.Str.{◌<>◌, strip, is_empty, join}
use mac_llm_ops_lab.Py.Dict.{get, contains}
use mac_llm_ops_lab.Py.Value.{Value, null, int, str, list, dict, Items, Fields, fields_of}
use mac_llm_ops_lab.Py.FilePath.{
  PurePath, parse_path, parts, is_absolute, as_posix, is_relative_to, suffix,
}
use mac_llm_ops_lab.Py.Result.{Result, Error, ok, err, value_error, ◌>>=◌, ◌>>◌, raise_if}

abbrev pub required_host_labels : List String
required_host_labels = "os" ∷ "chip" ∷ "memory_gib" ∷ []

module _ {Float : Type 0} where
  -- `source.get(name)`
  unfoldable pub value_at : String → Fields Float → Value Float
  value_at name source = elim (get name (fields_of source)) [ none ↦ null | some v ↦ v ]

  abbrev as_mapping : Value Float → Error → Result (Fields Float)
  as_mapping (dict fields) e = ok fields
  as_mapping _ e = err e

  unfoldable pub mapping_field : Fields Float → String → Result (Fields Float)
  mapping_field source name =
      as_mapping (value_at name source) (value_error (name <> " must be a mapping"))

  abbrev as_sequence : Value Float → Error → Result (Items Float)
  as_sequence (list items) e = ok items
  as_sequence _ e = err e

  unfoldable pub sequence_field : Fields Float → String → Result (Items Float)
  sequence_field source name =
      as_sequence (value_at name source) (value_error (name <> " must be a sequence"))

  abbrev is_blank : Value Float → Bool
  is_blank (str s) = is_empty (strip s)
  is_blank _ = true

  abbrev pub text_of : Value Float → String
  text_of (str s) = s
  text_of _ = ""

  unfoldable pub validated_non_empty_string : Value Float → String → Result String
  validated_non_empty_string value name =
      raise_if (is_blank value) (value_error (name <> " must be non-empty")) >> ok (text_of value)

  abbrev is_part : Value Float → Bool
  is_part (str s) = not (is_empty s)
  is_part _ = false

  unfoldable pub validated_command : List (Value Float) → Result (List (Value Float))
  validated_command command =
      raise_if (is_nil command || not (all is_part command))
        (value_error "command must contain at least one non-empty part")
      >> ok command

  unfoldable pub validated_non_empty_mapping : Fields Float → String → Result (Fields Float)
  validated_non_empty_mapping fields name =
      raise_if (is_nil (fields_of fields)) (value_error (name <> " must be non-empty")) >> ok fields

  unfoldable pub validated_host : Fields Float → Result (Fields Float)
  validated_host host = do
    normalized ← validated_non_empty_mapping host "host"
    let missing = keep (λ label. not (contains label (fields_of normalized))) required_host_labels
    raise_if (not (is_nil missing))
        (value_error ("host is missing required labels: " <> join ", " missing))
    ok normalized

  abbrev is_port : String × Value Float → Bool
  is_port (name, int port) = not (is_empty name) && not (leb_ℤ port (pos 0))
  is_port (name, _) = false

  unfoldable pub validated_ports : Fields Float → Result (Fields Float)
  validated_ports ports = do
    raise_if (is_nil (fields_of ports)) (value_error "ports must be non-empty")
    raise_if (not (all is_port (fields_of ports)))
        (value_error "ports must use non-empty names and positive values")
    ok ports

  -- `value == text`
  abbrev pub is_text : Value Float → String → Bool
  is_text (str s) text = s == text
  is_text _ text = false

  unfoldable pub validate_schema_version : Fields Float → String → String → Result (Unit {0})
  validate_schema_version source expected name =
      raise_if (not (is_text (value_at "schema_version" source) expected))
        (value_error (name <> " schema_version must be " <> expected))

unfoldable pub validated_relative_path : String → String → Result PurePath
validated_relative_path value name =
    let path = parse_path value in
    raise_if (is_empty value || is_absolute path || elem ".." (parts path))
      (value_error (name <> " must be a relative path without traversal"))
    >> ok path

abbrev pub under_runtime : List String → Bool
under_runtime (a ∷ b ∷ c ∷ rest) = a == "artifacts" && b == "runtime"
under_runtime _ = false

unfoldable pub validated_artifact_dir : String → Result String
validated_artifact_dir artifact_dir = do
  path ← validated_relative_path artifact_dir "artifact_dir"
  raise_if (not (under_runtime (parts path)))
      (value_error "artifact_dir must be under artifacts/runtime/")
  ok (as_posix path)

unfoldable pub validated_log_path : String → String → Result String
validated_log_path log_path artifact_dir = do
  path ← validated_relative_path log_path "log_path"
  raise_if (not (is_relative_to path (parse_path artifact_dir)))
      (value_error "log_path must be inside artifact_dir")
  raise_if (not (suffix path == ".log")) (value_error "log_path must point to a .log file")
  ok (as_posix path)

unfoldable pub validated_bundle_path :
    {Float : Type 0} → Value Float → String → String → Result String
validated_bundle_path value artifact_dir name = do
  text ← validated_non_empty_string value name
  path ← validated_relative_path text name
  raise_if (not (is_relative_to path (parse_path artifact_dir)))
      (value_error (name <> " must be inside artifact_dir"))
  ok (as_posix path)
