-- ===== src/Release/Clean.antt =====
-- When a release passes the scan.
use mac_llm_ops_lab.Prelude.{
  ℕ, String, ◌≡◌, ◌↔◌, refl, sym, Bool, true, false, List, [], ◌∷◌, ◌++◌, map, is_nil, length, All,
  Bool-cases, inl, inr,
}
use mac_llm_ops_lab.Py.Dict.{Dict}
use mac_llm_ops_lab.Py.Value.{Value}
use mac_llm_ops_lab.Py.Sorted.{sort_items, AllItems, sort_items-AllItems, sort_items-AllItems_again}
use mac_llm_ops_lab.Py.Result.{ok, bind-ok, ok_inj}
use mac_llm_ops_lab.Py.Regex.{Piece, match_lines}
use mac_llm_ops_lab.Py.Regex.Laws.{NoMatch, match_lines-nil}
use mac_llm_ops_lab.Artifacts.Checks.{validated_non_empty_string}
use mac_llm_ops_lab.Release.{
  ReleaseReport, forbidden_tracked_prefixes, private_machine_fragments, secret_patterns,
  copyright_notice_patterns, normalized, is_under, first_forbidden, forbidden_path_findings,
  occurs_in, fragment_findings, private_fragment_findings, pattern_findings,
  secret_pattern_findings, copyright_notice_findings, file_findings, all_findings,
  scan_public_release_files,
}

append-nil : {A : Type 0} (xs ys : List A) → (xs ++ ys ≡ []) ↔ (xs ≡ []) × (ys ≡ [])
append-nil [] ys = (λ h. (refl, h), λ p. p.1)
append-nil (x ∷ xs) ys = (λ h. cc, λ p. let e = p.0 in cc)

map-nil : {A B : Type 0} (f : A → B) (xs : List A) → (map f xs ≡ []) ↔ (xs ≡ [])
map-nil f [] = (λ h. refl, λ h. refl)
map-nil f (x ∷ xs) = (λ h. cc, λ h. cc)

is_nil-nil : {A : Type 0} (xs : List A) → (is_nil xs ≡ true) ↔ (xs ≡ [])
is_nil-nil [] = (λ h. refl, λ h. refl)
is_nil-nil (x ∷ xs) = (λ h. cc, λ h. cc)

forbidden-nil :
    (prefixes : List String) (path : String)
    → (first_forbidden prefixes path ≡ []) ↔ All (λ p. is_under path p ≡ false) prefixes
forbidden-nil [] path = (λ h. tt, λ a. refl)
forbidden-nil (p ∷ prefixes) path = elim (Bool-cases (is_under path p)) [
  | inl under ↦ rw under (λ h. cc, λ a. cc (a.0))
  | inr free ↦ let ih = forbidden-nil prefixes path in rw free (λ h. (refl, ih.0 h), λ a. ih.1 a.1)
]

fragments-nil :
    (fragments : List String) (path text : String)
    → (fragment_findings fragments path text ≡ []) ↔ All (λ f. occurs_in f text ≡ false) fragments
fragments-nil [] path text = (λ h. tt, λ a. refl)
fragments-nil (f ∷ fragments) path text = elim (Bool-cases (occurs_in f text)) [
  | inl found ↦ rw found (λ h. cc, λ a. cc (a.0))
  | inr free ↦
      let ih = fragments-nil fragments path text in rw free (λ h. (refl, ih.0 h), λ a. ih.1 a.1)
]

module _ (is_word : ℕ → Bool) where
  -- No pattern of the table matches anywhere in the text.
  abbrev pub NoPattern : Dict String (List Piece) → String → Type 0
  NoPattern [] text = Unit
  NoPattern ((name, ps) ∷ patterns) text = NoMatch is_word ps text × NoPattern patterns text

  -- A file that may be published.
  abbrev pub IsClean : String → String → Type 0
  IsClean path text =
      All (λ p. is_under (normalized path) p ≡ false) forbidden_tracked_prefixes
      × All (λ f. occurs_in f text ≡ false) private_machine_fragments
      × NoPattern secret_patterns text
      × NoPattern copyright_notice_patterns text

  patterns-nil :
      (kind : String) (patterns : Dict String (List Piece)) (path text : String)
      → (pattern_findings is_word kind patterns path text ≡ []) ↔ NoPattern patterns text
  patterns-nil kind [] path text = (λ h. tt, λ a. refl)
  patterns-nil kind ((name, ps) ∷ patterns) path text =
      let a = append-nil _ (pattern_findings is_word kind patterns path text) in
      let m = map-nil _ (match_lines is_word ps text) in
      let l = match_lines-nil is_word ps text in
      let ih = patterns-nil kind patterns path text in
      (λ h. let (x, y) = a.0 h in (l.0 (m.0 x), ih.0 y), λ w. a.1 (m.1 (l.1 w.0), ih.1 w.1))

  file_findings-IsClean :
      (path text : String) → (file_findings is_word path text ≡ []) ↔ IsClean path text
  unfolding file_findings forbidden_path_findings private_fragment_findings secret_pattern_findings
      copyright_notice_findings
  file_findings-IsClean path text =
      let p = normalized path in
      let f = forbidden-nil forbidden_tracked_prefixes p in
      let g = fragments-nil private_machine_fragments p text in
      let s = patterns-nil "secret_pattern" secret_patterns p text in
      let c = patterns-nil "copyright_notice_pattern" copyright_notice_patterns p text in
      let a1 = append-nil (forbidden_path_findings p) _ in
      let a2 = append-nil (private_fragment_findings p text) _ in
      let a3 = append-nil (secret_pattern_findings is_word p text) _ in
      (
        λ h.
            let (x, rest) = a1.0 h in
            let (y, rest') = a2.0 rest in let (z, w) = a3.0 rest' in (f.0 x, g.0 y, s.0 z, c.0 w),
        λ (x, y, z, w). a1.1 (f.1 x, a2.1 (g.1 y, a3.1 (s.1 z, c.1 w))),
      )

  all_findings-IsClean :
      (files : Dict String String) → (all_findings is_word files ≡ []) ↔ AllItems IsClean files
  all_findings-IsClean [] = (λ h. tt, λ a. refl)
  all_findings-IsClean ((path, text) ∷ files) =
      let a = append-nil (file_findings is_word path text) (all_findings is_word files) in
      let f = file_findings-IsClean path text in
      let ih = all_findings-IsClean files in
      (λ h. let (x, y) = a.0 h in (f.0 x, ih.0 y), λ w. a.1 (f.1 w.0, ih.1 w.1))

  -- A scan passes exactly where every file is clean: its path, with slashes for backslashes, is not
  -- under a forbidden prefix, its text holds no path of a private machine, and no pattern of a
  -- secret or of a copyright notice matches at any place of it. The report counts all files and all
  -- its findings.
  pub scan-IsClean :
      {Float : Type 0} (files : Dict String String) (sha : Value Float) (r : ReleaseReport)
      → scan_public_release_files is_word files sha ≡ ok r
      → ((r.passed ≡ true) ↔ AllItems IsClean files)
        × (r.scanned_files_count ≡ length files)
        × (r.findings_count ≡ length r.findings)
        × (r.passed ≡ is_nil r.findings)
  unfolding scan_public_release_files
  scan-IsClean files sha r h =
      let (s, valid, e) = bind-ok (validated_non_empty_string sha "git_sha") _ h in
      let n = is_nil-nil (all_findings is_word (sort_items files)) in
      let c = all_findings-IsClean (sort_items files) in
      rw (sym (ok_inj e)) (
        (
          λ p. sort_items-AllItems_again IsClean files (c.0 (n.0 p)),
          λ w. n.1 (c.1 (sort_items-AllItems IsClean files w)),
        ),
        refl,
        refl,
        refl,
      )
