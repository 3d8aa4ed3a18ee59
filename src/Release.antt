-- ===== src/Release.antt =====
-- release_readiness.py: the scan of the files that would be published, and the check of a report.
-- The files that git lists and writing the report are outside. `is_word` is what `\w` matches.
pub mod Clean
mod Tests
use Prim.Native.Char.{Char, code}
use mac_llm_ops_lab.Prelude.{
  ℕ, String, Bool, true, false, not, ◌&&◌, ◌||◌, Option, none, some, List, [], ◌∷◌, ◌++◌, leb, eqb,
  map, any, is_nil, length, ◌==◌, string_eq, if◌then◌else◌,
}
use mac_llm_ops_lab.Py.Str.{◌<>◌, is_empty, is_space, strip, starts_with, cons_unless}
use mac_llm_ops_lab.Py.Dict.{Dict}
use mac_llm_ops_lab.Py.Value.{Value, null, bool, int, float, str, list, dict, Fields}
use mac_llm_ops_lab.Py.FilePath.{PurePath, parse_path, parts, is_absolute, join_path}
use mac_llm_ops_lab.Py.Sorted.{sort_items}
use mac_llm_ops_lab.Py.Result.{Result, ok, err, value_error, ◌>>=◌, ◌>>◌, raise_if}
use mac_llm_ops_lab.Py.Regex.{Piece, word_boundary, literal, one_of, run, same_folded, match_lines}
use mac_llm_ops_lab.Artifacts.Checks.{value_at, is_text, validated_non_empty_string}

abbrev pub forbidden_tracked_prefixes : List String
forbidden_tracked_prefixes =
    ".env" ∷ "artifacts/" ∷ "benchmarks/raw/" ∷ "data/" ∷ "model-cache/" ∷ "models/" ∷ "secrets/"
    ∷ "site/" ∷ "traces/" ∷ []

abbrev pub private_machine_fragments : List String
private_machine_fragments = "/Users/" ∷ "Calibre Library" ∷ ".books/" ∷ []

abbrev is_lower : ℕ → Bool
is_lower c = leb b'a' c && leb c b'z'

abbrev is_upper : ℕ → Bool
is_upper c = leb b'A' c && leb c b'Z'

abbrev is_digit : ℕ → Bool
is_digit c = leb b'0' c && leb c b'9'

abbrev is_alnum : ℕ → Bool
is_alnum c = is_lower c || is_upper c || is_digit c

abbrev is_key_char : ℕ → Bool
is_key_char c = is_alnum c || eqb c b'_' || eqb c b'-'

abbrev exact : String → Piece
exact t = literal eqb t

abbrev spaces : Piece
spaces = run is_space 0 none

abbrev colon_or_equals : Piece
colon_or_equals = run (λ c. eqb c b':' || eqb c b'=') 1 (some 1)

abbrev pub secret_patterns : Dict String (List Piece)
secret_patterns =
    (
      "openai_api_key",
      word_boundary
          ∷ exact "OPENAI_API_KEY"
          ∷ spaces
          ∷ colon_or_equals
          ∷ spaces
          ∷ exact "sk-"
          ∷ run is_key_char 1 none
          ∷ [],
    )
    ∷ ("openai_secret_key", word_boundary ∷ exact "sk-" ∷ run is_alnum 20 none ∷ [])
    ∷ (
      "huggingface_token",
      word_boundary
          ∷ exact "HF_TOKEN"
          ∷ spaces
          ∷ colon_or_equals
          ∷ spaces
          ∷ exact "hf_"
          ∷ run is_alnum 20 none
          ∷ [],
    )
    ∷ (
      "aws_access_key",
      word_boundary
          ∷ exact "AKIA"
          ∷ run (λ c. is_digit c || is_upper c) 16 (some 16)
          ∷ word_boundary
          ∷ [],
    )
    ∷ (
      "google_api_key",
      word_boundary ∷ exact "AIza" ∷ run is_key_char 35 (some 35) ∷ word_boundary ∷ [],
    )
    ∷ (
      "private_key",
      exact "-----BEGIN "
          ∷ run (λ c. is_upper c || eqb c b' ') 0 none
          ∷ exact "PRIVATE KEY-----"
          ∷ [],
    )
    ∷ []

abbrev any_char : ℕ → Bool
any_char c = true

abbrev pub copyright_notice_patterns : Dict String (List Piece)
copyright_notice_patterns =
    (
      "third_party_copyright_notice",
      literal same_folded "Copyright"
          ∷ run any_char 0 (some 180)
          ∷ literal same_folded "All rights reserved"
          ∷ [],
    )
    ∷ (
      "third_party_reproduction_notice",
      literal same_folded "No part of this "
          ∷ one_of same_folded ("publication" ∷ "work" ∷ "material" ∷ "book" ∷ [])
          ∷ run any_char 0 (some 160)
          ∷ one_of same_folded ("reproduced" ∷ "transmitted" ∷ [])
          ∷ [],
    )
    ∷ []

-- `line` is missing where the finding is about the path or the whole text.
pub record Finding : Type 0 where
  pub kind : String
  pub path : String
  pub pattern : String
  pub line : Option ℕ

pub record ReleaseReport : Type 0 where
  pub schema_version : String
  pub git_sha : String
  pub passed : Bool
  pub scanned_files_count : ℕ
  pub findings_count : ℕ
  pub findings : List Finding
  pub checks : List String

-- `path.replace("\\", "/")`
unfoldable pub normalized : String → String
normalized String.[] = String.[]
normalized (String.◌∷◌ c s) = String.◌∷◌ (if eqb (code c) 92 then "/" else c) (normalized s)

unfoldable pub rstrip_slash : String → String
rstrip_slash String.[] = String.[]
rstrip_slash (String.◌∷◌ c s) = cons_unless (eqb (code c) b'/') c (rstrip_slash s)

abbrev pub is_under : String → String → Bool
is_under path prefix = path == rstrip_slash prefix || starts_with path prefix

abbrev first_forbidden : List String → String → List Finding
first_forbidden [] path = []
first_forbidden (prefix ∷ prefixes) path =
    let rest = first_forbidden prefixes path in
    if is_under path prefix
    then record { kind = "forbidden_tracked_path"; path = path; pattern = prefix; line = none } ∷ []
    else rest

unfoldable pub forbidden_path_findings : String → List Finding
unfolding rstrip_slash
forbidden_path_findings path = first_forbidden forbidden_tracked_prefixes path

-- `fragment in text`
unfoldable pub occurs_in : String → String → Bool
occurs_in fragment String.[] = is_empty fragment
occurs_in fragment (String.◌∷◌ c s) = starts_with (String.◌∷◌ c s) fragment || occurs_in fragment s

abbrev fragment_findings : List String → String → String → List Finding
fragment_findings [] path text = []
fragment_findings (fragment ∷ fragments) path text =
    let rest = fragment_findings fragments path text in
    if occurs_in fragment text
    then record { kind = "private_machine_path"; path = path; pattern = fragment; line = none }
      ∷ rest
    else rest

unfoldable pub private_fragment_findings : String → String → List Finding
unfolding occurs_in
private_fragment_findings path text = fragment_findings private_machine_fragments path text

module _ (is_word : ℕ → Bool) where
  -- A finding of the kind for each match of each pattern.
  abbrev pub pattern_findings : String → Dict String (List Piece) → String → String → List Finding
  pattern_findings kind [] path text = []
  pattern_findings kind ((name, ps) ∷ patterns) path text =
      map (λ line. record { kind = kind; path = path; pattern = name; line = some line })
        (match_lines is_word ps text)
      ++ pattern_findings kind patterns path text

  unfoldable pub secret_pattern_findings : String → String → List Finding
  secret_pattern_findings path text = pattern_findings "secret_pattern" secret_patterns path text

  unfoldable pub copyright_notice_findings : String → String → List Finding
  copyright_notice_findings path text =
      pattern_findings "copyright_notice_pattern" copyright_notice_patterns path text

  -- The findings of one file.
  unfoldable pub file_findings : String → String → List Finding
  file_findings path text =
      forbidden_path_findings (normalized path)
      ++ (private_fragment_findings (normalized path) text
          ++ (secret_pattern_findings (normalized path) text
              ++ copyright_notice_findings (normalized path) text))

  abbrev pub all_findings : Dict String String → List Finding
  all_findings [] = []
  all_findings ((path, text) ∷ files) = file_findings path text ++ all_findings files

  unfoldable pub scan_public_release_files :
      {Float : Type 0} → Dict String String → Value Float → Result ReleaseReport
  scan_public_release_files files git_sha =
      let findings = all_findings (sort_items files) in
      validated_non_empty_string git_sha "git_sha" >>= λ sha. ok (record {
        schema_version = "public-release-check/v1";
        git_sha = sha;
        passed = is_nil findings;
        scanned_files_count = length files;
        findings_count = length findings;
        findings = findings;
        checks =
            "forbidden_tracked_paths" ∷ "private_machine_paths" ∷ "secret_patterns"
            ∷ "copyright_notice_patterns" ∷ [];
      })

abbrev is_bool : {Float : Type 0} → Value Float → Bool
is_bool (bool b) = true
is_bool _ = false

abbrev is_list : {Float : Type 0} → Value Float → Bool
is_list (list vs) = true
is_list _ = false

unfoldable pub validate_report : {Float : Type 0} → Fields Float → Result (Unit {0})
validate_report report = do
  raise_if (not (is_text (value_at "schema_version" report) "public-release-check/v1"))
      (value_error "report schema_version must be public-release-check/v1")
  raise_if (not (is_bool (value_at "passed" report)))
      (value_error "report passed must be a boolean")
  raise_if (not (is_list (value_at "findings" report)))
      (value_error "report findings must be a list")

abbrev pub has_pair : List String → Bool
has_pair [] = false
has_pair (a ∷ rest) = starts_pair a rest || has_pair rest
  where
    starts_pair : String → List String → Bool
    starts_pair a [] = false
    starts_pair a (b ∷ rest) = a == "artifacts" && b == "runtime"

unfoldable pub is_runtime_artifact_path : PurePath → Bool
is_runtime_artifact_path path = has_pair (parts path)

-- `write_public_release_report`: the path that is written to
unfoldable pub report_target : {Float : Type 0} → Fields Float → String → String → Result PurePath
report_target report output_root output_path =
    let target = join_path (parse_path output_root) (parse_path output_path) in
    validate_report report
    >> raise_if (not (is_runtime_artifact_path target))
        (value_error "output_path must be under artifacts/runtime/")
    >> ok target
