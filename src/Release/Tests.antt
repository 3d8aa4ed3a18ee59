-- ===== src/Release/Tests.antt =====
-- Releases on concrete files.
use mac_llm_ops_lab.Prelude.{
  ℕ, String, ◌≡◌, ◌↔◌, refl, Bool, true, false, ◌||◌, ◌&&◌, none, some, List, [], ◌∷◌, leb, length,
  is_nil,
}
use mac_llm_ops_lab.Py.Str.{str_ltb, split_on, strip, lstrip, rstrip, is_space}
use mac_llm_ops_lab.Py.Dict.{Dict, get}
use mac_llm_ops_lab.Py.Value.{bool, str, list, Fields, obj, arr}
use mac_llm_ops_lab.Py.FilePath.{parse_path, parts, is_absolute, join_path, root_of}
use mac_llm_ops_lab.Py.Result.{ok}
use mac_llm_ops_lab.Py.Sorted.{sort_items, insert_item, AllItems}
use mac_llm_ops_lab.Py.Regex.{match_at, match_lines, lines_from, after_prefix, greedy}
use mac_llm_ops_lab.Artifacts.Checks.{value_at, validated_non_empty_string}
use mac_llm_ops_lab.Release.{
  Finding, ReleaseReport, normalized, rstrip_slash, forbidden_path_findings, occurs_in,
  private_fragment_findings, secret_pattern_findings, copyright_notice_findings, file_findings,
  scan_public_release_files, validate_report, is_runtime_artifact_path, report_target,
}
use mac_llm_ops_lab.Release.Clean.{IsClean, scan-IsClean}

abbrev ascii_word : ℕ → Bool
ascii_word c =
    leb b'a' c && leb c b'z'
    || leb b'A' c && leb c b'Z'
    || leb b'0' c && leb c b'9'
    || leb b'_' c && leb c b'_'

abbrev one_clean_one_not : Dict String String
one_clean_one_not = ("src/a.py", "x = 1") ∷ ("data\\b", "\nHF_TOKEN: hf_abcdefghij0123456789") ∷ []

abbrev two_findings : List Finding
two_findings =
    record { kind = "forbidden_tracked_path"; path = "data/b"; pattern = "data/"; line = none }
    ∷ record {
      kind = "secret_pattern";
      path = "data/b";
      pattern = "huggingface_token";
      line = some 2;
    }
    ∷ []

abbrev failed_report : ReleaseReport
failed_report = record {
  schema_version = "public-release-check/v1";
  git_sha = "abc";
  passed = false;
  scanned_files_count = 2;
  findings_count = 2;
  findings = two_findings;
  checks =
      "forbidden_tracked_paths" ∷ "private_machine_paths" ∷ "secret_patterns"
      ∷ "copyright_notice_patterns" ∷ [];
}

failed_scan :
    scan_public_release_files ascii_word {Float = ℕ} one_clean_one_not (str "abc")
    ≡ ok failed_report
unfolding scan_public_release_files validated_non_empty_string strip lstrip rstrip is_space
    sort_items insert_item str_ltb file_findings normalized rstrip_slash forbidden_path_findings
    private_fragment_findings occurs_in secret_pattern_findings copyright_notice_findings
    match_lines lines_from match_at after_prefix greedy
failed_scan = refl

scan-IsClean_example :
    ((false ≡ true) ↔ AllItems (IsClean ascii_word) one_clean_one_not)
    × (2 ≡ length one_clean_one_not)
    × (2 ≡ length two_findings)
    × (false ≡ is_nil two_findings)
scan-IsClean_example =
    scan-IsClean ascii_word {Float = ℕ} one_clean_one_not (str "abc") failed_report failed_scan

abbrev a_report : Fields ℕ
a_report = obj (
    ("schema_version", str "public-release-check/v1")
    ∷ ("passed", bool true)
    ∷ ("findings", list (arr []))
    ∷ [])

-- The test of the path reads no `..`, so a report may leave the directory.
leaves_runtime :
    report_target a_report "/repo" "artifacts/runtime/../../x"
    ≡ ok (parse_path "/repo/artifacts/runtime/../../x")
unfolding report_target validate_report is_runtime_artifact_path value_at get parse_path root_of
    split_on parts is_absolute join_path
leaves_runtime = refl
