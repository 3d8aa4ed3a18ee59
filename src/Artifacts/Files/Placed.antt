-- ===== src/Artifacts/Files/Placed.antt =====
-- The files of a runtime stand under artifacts/runtime, behind the output's root.
use mac_llm_ops_lab.Prelude.{
  negated, ℕ, String, ◌≡◌, sym, ap, ◌∙◌, Bool, true, false, not, ◌||◌, arith, elem, string_eq,
}
use mac_llm_ops_lab.Py.Str.{is_empty}
use mac_llm_ops_lab.Py.Dict.{Dict}
use mac_llm_ops_lab.Py.Value.{Value, Fields}
use mac_llm_ops_lab.Py.FilePath.{PurePath, parse_path, parts, is_absolute}
use mac_llm_ops_lab.Py.Result.{ok, bind-ok, raise_if-ok, ok_inj}
use mac_llm_ops_lab.Artifacts.Checks.{
  value_at, is_text, text_of, under_runtime, validated_relative_path, validated_artifact_dir,
  validate_schema_version, mapping_field,
}
use mac_llm_ops_lab.Artifacts.Record.{
  ExecutionRecord, build_runtime_execution_record, is_bool, matches,
  canonical_runtime_execution_record,
}
use mac_llm_ops_lab.Artifacts.Record.Grounded.{build_runtime_execution_record-IsGrounded}
use mac_llm_ops_lab.Artifacts.Bundle.{
  BundleIndex, validated_evidence_files, build_runtime_evidence_bundle_index,
}
use mac_llm_ops_lab.Artifacts.Files.{
  in_artifact_dir, write_runtime_execution_record, write_runtime_evidence_bundle_index,
}

-- A text that is a relative path without `..` under artifacts/runtime.
abbrev pub IsUnderRuntime : String → Type 0
IsUnderRuntime dir =
    (is_absolute (parse_path dir) ≡ false)
    × (elem ".." (parts (parse_path dir)) ≡ false)
    × (under_runtime (parts (parse_path dir)) ≡ true)

accepted :
    (empty absolute upward : Bool)
    → (empty || absolute || upward) ≡ false
    → (absolute ≡ false) × (upward ≡ false)
accepted empty absolute upward h = (ground arith, ground arith)

dir-ok : (text dir : String) → validated_artifact_dir text ≡ ok dir → IsUnderRuntime text
unfolding validated_artifact_dir validated_relative_path
dir-ok text dir h =
    let p = bind-ok (validated_relative_path text "artifact_dir") _ h in
    let path = parse_path text in
    let q = raise_if-ok (is_empty text || is_absolute path || elem ".." (parts path)) _ _ p.1 in
    let r = raise_if-ok (not (under_runtime (parts p.0))) _ _ p.2 in
    let free = accepted (is_empty text) (is_absolute path) (elem ".." (parts path)) q.0 in
    (
      free.0,
      free.1,
      ap (λ x. under_runtime (parts x)) (ok_inj q.1) ∙ negated (under_runtime (parts p.0)) r.0,
    )

module _ {Float : Type 0} (float_is : Float → ℕ → Bool) where
  canonical-dir :
      (given : Fields Float) (r : ExecutionRecord Float)
      → canonical_runtime_execution_record float_is given ≡ ok r
      → IsUnderRuntime (text_of (value_at "artifact_dir" r.evidence_manifest))
  unfolding canonical_runtime_execution_record matches
  canonical-dir given r h =
      let v = bind-ok (validate_schema_version given "runtime-execution-record/v1" "record") _ h in
      let p = bind-ok (mapping_field given "preflight_report") _ v.2 in
      let m = bind-ok (mapping_field given "evidence_manifest") _ p.2 in
      let b = bind-ok (build_runtime_execution_record p.0 m.0) _ m.2 in
      let x =
        raise_if-ok (not (is_bool float_is (value_at "can_execute" given) b.0.can_execute)) _ _
          b.2 in
      let y = raise_if-ok (not (is_text (value_at "reason_code" given) b.0.reason_code)) _ _ x.1 in
      let g = build_runtime_execution_record-IsGrounded p.0 m.0 b.0 b.1 in
      let text = ap text_of (ap (value_at "artifact_dir") g.1 ∙ g.14) in
      rw (sym (ok_inj y.1), text) (dir-ok g.10 g.11 g.15)

  -- An execution record is written to execution-record.json, behind the output's root in the
  -- directory that its manifest names, which is a relative path without `..` under artifacts/runtime.
  write_record-IsUnderRuntime :
      (given : Fields Float) (root : String) (path : PurePath) (r : ExecutionRecord Float)
      → write_runtime_execution_record float_is given root ≡ ok (path, r)
      → IsUnderRuntime (text_of (value_at "artifact_dir" r.evidence_manifest))
        × (path
            ≡ in_artifact_dir root
                (text_of (value_at "artifact_dir" r.evidence_manifest))
                "execution-record.json")
  unfolding write_runtime_execution_record
  write_record-IsUnderRuntime given root path r h =
      let c = bind-ok (canonical_runtime_execution_record float_is given) _ h in
      let pair = ok_inj c.2 in
      rw (sym (ap (λ q. q.1) pair)) (canonical-dir given c.0 c.1, sym (ap (λ q. q.0) pair))

  -- The index of a bundle is written to evidence-bundle.json, behind the output's root in the
  -- directory that it names, which is a relative path without `..` under artifacts/runtime.
  write_index-IsUnderRuntime :
      (given : Fields Float) (files : Dict String (Value Float)) (root : String) (path : PurePath)
      (index : BundleIndex)
      → write_runtime_evidence_bundle_index float_is given files root ≡ ok (path, index)
      → IsUnderRuntime index.artifact_dir
        × (path ≡ in_artifact_dir root index.artifact_dir "evidence-bundle.json")
  unfolding write_runtime_evidence_bundle_index build_runtime_evidence_bundle_index
  write_index-IsUnderRuntime given files root path index h =
      let i = bind-ok (build_runtime_evidence_bundle_index float_is given files) _ h in
      let c = bind-ok (canonical_runtime_execution_record float_is given) _ i.1 in
      let dir = text_of (value_at "artifact_dir" c.0.evidence_manifest) in
      let f = bind-ok (validated_evidence_files files dir) _ c.2 in
      let pair = ok_inj i.2 in
      rw (sym (ap (λ q. q.1) pair)) (
        rw (ap (λ x. x.artifact_dir) (sym (ok_inj f.2))) (canonical-dir given c.0 c.1),
        sym (ap (λ q. q.0) pair),
      )
