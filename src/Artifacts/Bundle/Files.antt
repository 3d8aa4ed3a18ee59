-- ===== src/Artifacts/Bundle/Files.antt =====
-- The files of a bundle stand inside its directory, in the order of their labels.
use mac_llm_ops_lab.Prelude.{
  negated, ℕ, String, ◌≡◌, refl, sym, ap, ◌∙◌, Bool, true, false, not, ◌||◌, List, [], ◌∷◌, arith,
  elem, string_eq,
}
use mac_llm_ops_lab.Py.Str.{is_empty}
use mac_llm_ops_lab.Py.Dict.{Dict, keys}
use mac_llm_ops_lab.Py.Value.{Value, str, Fields}
use mac_llm_ops_lab.Py.FilePath.{PurePath, parse_path, parts, is_absolute, as_posix, is_relative_to}
use mac_llm_ops_lab.Py.FilePath.Laws.{parse_path-as_posix}
use mac_llm_ops_lab.Py.Sorted.{sort_items, IsSorted, sort_items-IsSorted}
use mac_llm_ops_lab.Py.Result.{ok, bind-ok, raise_if-ok, ok_inj}
use mac_llm_ops_lab.Artifacts.Checks.{
  value_at, text_of, validated_non_empty_string, validated_relative_path, validated_bundle_path,
}
use mac_llm_ops_lab.Artifacts.Record.{ExecutionRecord, canonical_runtime_execution_record}
use mac_llm_ops_lab.Artifacts.Record.Grounded.{non_empty-ok}
use mac_llm_ops_lab.Artifacts.Bundle.{
  BundleIndex, checked_evidence, checked_all, validated_evidence_files,
  build_runtime_evidence_bundle_index,
}

-- A path, read again: relative, without `..`, inside the directory.
abbrev pub IsWithin : String → String → Type 0
IsWithin dir path =
    (is_absolute (parse_path path) ≡ false)
    × (elem ".." (parts (parse_path path)) ≡ false)
    × (is_relative_to (parse_path path) (parse_path dir) ≡ true)

abbrev pub AllWithin : String → List (String × String) → Type 0
AllWithin dir [] = Unit
AllWithin dir ((label, path) ∷ files) = IsWithin dir path × AllWithin dir files

abbrev pub labels : List (String × String) → List String
labels [] = []
labels ((label, path) ∷ files) = label ∷ labels files

accepted :
    (empty absolute upward : Bool)
    → (empty || absolute || upward) ≡ false
    → (absolute ≡ false) × (upward ≡ false)
accepted empty absolute upward h = (ground arith, ground arith)

relative_path-ok :
    (text name : String) (p : PurePath)
    → validated_relative_path text name ≡ ok p
    → (parse_path (as_posix p) ≡ p) × (is_absolute p ≡ false) × (elem ".." (parts p) ≡ false)
unfolding validated_relative_path
relative_path-ok text name p h =
    let r =
      raise_if-ok
        (is_empty text || is_absolute (parse_path text) || elem ".." (parts (parse_path text))) _ _
        h in
    let free =
      accepted (is_empty text) (is_absolute (parse_path text)) (elem ".." (parts (parse_path text)))
        r.0 in
    rw (sym (ok_inj r.1)) (parse_path-as_posix text free.0, free.0, free.1)

str_inj : {Float : Type 0} {s t : String} → ◌≡◌ {A = Value Float} (str s) (str t) → t ≡ s
str_inj h = cc

module _ {Float : Type 0} (dir : String) where
  bundle_path-ok :
      (v : Value Float) (name path : String)
      → validated_bundle_path v dir name ≡ ok path
      → IsWithin dir path
  unfolding validated_bundle_path
  bundle_path-ok v name path h =
      let t = bind-ok (validated_non_empty_string v name) _ h in
      let p = bind-ok (validated_relative_path t.0 name) _ t.2 in
      let r = raise_if-ok (not (is_relative_to p.0 (parse_path dir))) _ _ p.2 in
      let found = relative_path-ok t.0 name p.0 p.1 in
      rw (ap parse_path (sym (ok_inj r.1)) ∙ found.0)
        (found.1, found.2, negated (is_relative_to p.0 (parse_path dir)) r.0)

  evidence-ok :
      (label : String) (v : Value Float) (entry : String × String)
      → checked_evidence dir (label, v) ≡ ok entry
      → (entry.0 ≡ label) × IsWithin dir entry.1
  unfolding checked_evidence
  evidence-ok label v entry h =
      let l =
        bind-ok (validated_non_empty_string {Float = Float} (str label) "evidence file label") _
          h in
      let p = bind-ok (validated_bundle_path v dir "evidence file path") _ l.2 in
      rw (sym (ok_inj p.2)) (
        str_inj (non_empty-ok (str label) "evidence file label" l.0 l.1),
        bundle_path-ok v "evidence file path" p.0 p.1,
      )

  all-ok :
      (d : Dict String (Value Float)) (files : List (String × String))
      → checked_all dir d ≡ ok files
      → (labels files ≡ keys d) × AllWithin dir files
  all-ok [] files h = rw (sym (ok_inj h)) (refl, tt)
  all-ok ((label, v) ∷ d) files h =
      let c = bind-ok (checked_evidence dir (label, v)) _ h in
      let r = bind-ok (checked_all dir d) _ c.2 in
      let here = evidence-ok label v c.0 c.1 in
      let there = all-ok d r.0 r.1 in
      rw (sym (ok_inj r.2))
        (ap (λ k. k ∷ labels r.0) here.0 ∙ ap (λ ks. label ∷ ks) there.0, (here.1, there.1))

-- A bundle's index can be executed as its canonical record says, with the record's reason. Its files
-- have the given labels, each once for each time it is given, in the order of the texts, and every
-- path is relative, has no `..`, and stands inside the bundle's directory.
pub build_runtime_evidence_bundle_index-AllWithin :
    {Float : Type 0} (float_is : Float → ℕ → Bool) (given : Fields Float)
    (files : Dict String (Value Float)) (index : BundleIndex)
    → build_runtime_evidence_bundle_index float_is given files ≡ ok index
    → (r : ExecutionRecord Float) × (canonical_runtime_execution_record float_is given ≡ ok r)
      × (index.can_execute ≡ r.can_execute)
      × (index.reason_code ≡ r.reason_code)
      × (labels index.evidence_files ≡ keys (sort_items files))
      × IsSorted (sort_items files)
      × AllWithin index.artifact_dir index.evidence_files
unfolding build_runtime_evidence_bundle_index validated_evidence_files
build_runtime_evidence_bundle_index-AllWithin float_is given files index h =
    let r = bind-ok (canonical_runtime_execution_record float_is given) _ h in
    let dir = text_of (value_at "artifact_dir" r.0.evidence_manifest) in
    let f = bind-ok (validated_evidence_files files dir) _ r.2 in
    let within = all-ok dir (sort_items files) f.0 f.1 in
    rw (sym (ok_inj f.2)) (r.0, r.1, refl, refl, within.0, sort_items-IsSorted files, within.1)
