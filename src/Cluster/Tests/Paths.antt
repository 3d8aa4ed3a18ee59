-- ===== src/Cluster/Tests/Paths.antt =====
-- Paths on concrete values.
use mac_llm_ops_lab.Prelude.{ℕ, ◌≡◌, refl, true, false, elem, string_eq}
use mac_llm_ops_lab.Py.Str.{is_space, lstrip, rstrip, strip, split_on, join}
use mac_llm_ops_lab.Py.Value.{str}
use mac_llm_ops_lab.Py.FilePath.{
  root_of, parse_path, parts, is_absolute, as_posix, is_relative_to, suffix,
}
use mac_llm_ops_lab.Py.Result.{ok, err, value_error}
use mac_llm_ops_lab.Cluster.Checks.{non_empty_string}
use mac_llm_ops_lab.Cluster.Paths.{
  under_runtime, relative_path, validated_artifact_dir, validated_evidence_path,
}
use mac_llm_ops_lab.Cluster.Paths.Inside.{
  validated_artifact_dir-IsUnder, validated_evidence_path-IsInside,
}

under :
    validated_artifact_dir {Float = ℕ} (str "artifacts//runtime/./run/")
    ≡ ok "artifacts/runtime/run"
unfolding validated_artifact_dir relative_path non_empty_string strip lstrip rstrip is_space
    parse_path parts is_absolute as_posix root_of split_on join
under = refl

validated_artifact_dir-IsUnder_test :
    (is_absolute (parse_path "artifacts/runtime/run") ≡ false)
    × (elem ".." (parts (parse_path "artifacts/runtime/run")) ≡ false)
    × (under_runtime (parts (parse_path "artifacts/runtime/run")) ≡ true)
    × (as_posix (parse_path "artifacts/runtime/run") ≡ "artifacts/runtime/run")
validated_artifact_dir-IsUnder_test =
    validated_artifact_dir-IsUnder (str "artifacts//runtime/./run/") "artifacts/runtime/run" under

inside :
    validated_evidence_path {Float = ℕ}
      (str "artifacts/runtime/run/api.log")
      "artifacts/runtime/run"
      "api_log"
      ".log"
    ≡ ok "artifacts/runtime/run/api.log"
unfolding validated_evidence_path relative_path non_empty_string strip lstrip rstrip is_space
    parse_path parts is_absolute as_posix root_of split_on join is_relative_to suffix
inside = refl

outside :
    validated_evidence_path {Float = ℕ}
      (str "artifacts/runtime/run/../api.log")
      "artifacts/runtime/run"
      "api_log"
      ".log"
    ≡ err (value_error "api_log must be a relative path without traversal")
unfolding validated_evidence_path relative_path non_empty_string strip lstrip rstrip is_space
    parse_path parts is_absolute root_of split_on
outside = refl

validated_evidence_path-IsInside_example :
    (is_absolute (parse_path "artifacts/runtime/run/api.log") ≡ false)
    × (elem ".." (parts (parse_path "artifacts/runtime/run/api.log")) ≡ false)
    × (is_relative_to
          (parse_path "artifacts/runtime/run/api.log")
          (parse_path "artifacts/runtime/run")
        ≡ true)
    × (suffix (parse_path "artifacts/runtime/run/api.log") ≡ ".log")
    × (as_posix (parse_path "artifacts/runtime/run/api.log") ≡ "artifacts/runtime/run/api.log")
validated_evidence_path-IsInside_example =
    validated_evidence_path-IsInside (str "artifacts/runtime/run/api.log") "artifacts/runtime/run"
      "api_log" ".log" "artifacts/runtime/run/api.log" inside
