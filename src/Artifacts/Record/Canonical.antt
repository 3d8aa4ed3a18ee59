-- ===== src/Artifacts/Record/Canonical.antt =====
-- Execution records: what a record that is built says, and that reading it again gives it back.
use mac_llm_ops_lab.Prelude.{ℕ, ◌≡◌, refl, sym, ap, ◌∙◌, Bool, true, false, ==_refl, string_eq}
use mac_llm_ops_lab.Py.Dict.{get}
use mac_llm_ops_lab.Py.Value.{bool, Fields}
use mac_llm_ops_lab.Py.Result.{ok, bind-ok, ok_inj}
use mac_llm_ops_lab.Artifacts.Checks.{value_at, mapping_field, validate_schema_version}
use mac_llm_ops_lab.Artifacts.Record.{
  ExecutionRecord, validate_evidence_manifest_payload, validate_preflight_manifest_consistency,
  validated_preflight_decision, build_runtime_execution_record, to_fields, is_bool, matches,
  canonical_runtime_execution_record,
}

is_bool_refl :
    {Float : Type 0} (float_is : Float → ℕ → Bool) (b : Bool) → is_bool float_is (bool b) b ≡ true
is_bool_refl float_is true = refl
is_bool_refl float_is false = refl

module _ {Float : Type 0} (float_is : Float → ℕ → Bool) where
  build-parts :
      (p m : Fields Float) (r : ExecutionRecord Float)
      → build_runtime_execution_record p m ≡ ok r
      → (r.preflight_report ≡ p) × (r.evidence_manifest ≡ m)
  unfolding build_runtime_execution_record
  build-parts p m r h =
      let a = bind-ok (validate_schema_version p "runtime-preflight/v1" "preflight_report") _ h in
      let b =
        bind-ok (validate_schema_version m "runtime-evidence-manifest/v1" "evidence_manifest") _
          a.2 in
      let c = bind-ok (validate_evidence_manifest_payload m) _ b.2 in
      let d = bind-ok (validate_preflight_manifest_consistency p m) _ c.2 in
      let e = bind-ok (validated_preflight_decision p) _ d.2 in rw (sym (ok_inj e.2)) (refl, refl)

  canonical_parts :
      (r : ExecutionRecord Float)
      → build_runtime_execution_record r.preflight_report r.evidence_manifest ≡ ok r
      → canonical_runtime_execution_record float_is (to_fields r) ≡ ok r
  unfolding canonical_runtime_execution_record validate_schema_version mapping_field value_at
      matches get
  canonical_parts r h = rw (h, is_bool_refl float_is r.can_execute, ==_refl r.reason_code) refl

  -- A record that is built from a preflight report and a manifest, written as a JSON object and
  -- read again, is accepted and is the same record.
  pub canonical-to_fields :
      (preflight manifest : Fields Float) (r : ExecutionRecord Float)
      → build_runtime_execution_record preflight manifest ≡ ok r
      → canonical_runtime_execution_record float_is (to_fields r) ≡ ok r
  canonical-to_fields preflight manifest r h =
      let same = build-parts preflight manifest r h in
      canonical_parts r (
        ap (λ x. build_runtime_execution_record x r.evidence_manifest) same.0
        ∙ ap (λ y. build_runtime_execution_record preflight y) same.1
        ∙ h)
