-- ===== src/Artifacts/Record/Grounded.antt =====
-- What an execution record rests on.
use mac_llm_ops_lab.Prelude.{negated, String, ◌≡◌, refl, sym, ap, Bool, true, false, not, string_eq}
use mac_llm_ops_lab.Py.Value.{Value, null, bool, int, float, str, list, dict, Fields, items_of}
use mac_llm_ops_lab.Py.Result.{Error, ok, raise_if, bind-ok, raise_if-ok, ok_inj}
use mac_llm_ops_lab.Artifacts.Checks.{
  value_at, mapping_field, sequence_field, is_text, validated_non_empty_string, validated_command,
  validate_schema_version, validated_artifact_dir, validated_log_path,
}
use mac_llm_ops_lab.Artifacts.Record.{
  ExecutionRecord, PreflightDecision, validate_evidence_manifest_payload, same_text,
  validate_preflight_manifest_consistency, as_bool, validated_preflight_decision,
  build_runtime_execution_record,
}

raise_if-passed : (bad : Bool) (e : Error) {t : Unit {0}} → raise_if bad e ≡ ok t → bad ≡ false
raise_if-passed true e h = cc
raise_if-passed false e h = refl

module _ {Float : Type 0} where
  as_bool-ok : (v : Value Float) (b : Bool) → as_bool v ≡ ok b → v ≡ bool b
  as_bool-ok (bool c) b h = ap bool (ok_inj h)
  as_bool-ok null b h = cc
  as_bool-ok (int n) b h = cc
  as_bool-ok (float x) b h = cc
  as_bool-ok (str s) b h = cc
  as_bool-ok (list x) b h = cc
  as_bool-ok (dict x) b h = cc

  pub non_empty-ok :
      (v : Value Float) (name s : String) → validated_non_empty_string v name ≡ ok s → v ≡ str s
  unfolding validated_non_empty_string
  non_empty-ok (str t) name s h = ap str (ok_inj (raise_if-ok _ _ _ h).1)
  non_empty-ok null name s h = cc
  non_empty-ok (bool b) name s h = cc
  non_empty-ok (int n) name s h = cc
  non_empty-ok (float x) name s h = cc
  non_empty-ok (list x) name s h = cc
  non_empty-ok (dict x) name s h = cc

  is_text-same : (v : Value Float) (t : String) → is_text v t ≡ true → v ≡ str t
  is_text-same (str s) t h = ap str ((string_eq.beq_iff s t).0 h)
  is_text-same null t h = cc
  is_text-same (bool b) t h = cc
  is_text-same (int n) t h = cc
  is_text-same (float x) t h = cc
  is_text-same (list x) t h = cc
  is_text-same (dict x) t h = cc

  same_text-same : (v w : Value Float) → same_text v w ≡ true → v ≡ w
  same_text-same v (str t) h = is_text-same v t h
  same_text-same v null h = cc
  same_text-same v (bool b) h = cc
  same_text-same v (int n) h = cc
  same_text-same v (float x) h = cc
  same_text-same v (list x) h = cc
  same_text-same v (dict x) h = cc

  decision-ok :
      (preflight : Fields Float) (d : PreflightDecision)
      → validated_preflight_decision preflight ≡ ok d
      → (decision : Fields Float) × (mapping_field preflight "decision" ≡ ok decision)
        × (value_at "allowed" decision ≡ bool d.allowed)
        × (value_at "reason_code" decision ≡ str d.reason_code)
  unfolding validated_preflight_decision
  decision-ok preflight d h =
      let m = bind-ok (mapping_field preflight "decision") _ h in
      let a = bind-ok (as_bool (value_at "allowed" m.0)) _ m.2 in
      let r =
        bind-ok (validated_non_empty_string (value_at "reason_code" m.0) "decision.reason_code") _
          a.2 in
      rw (sym (ok_inj r.2)) (
        m.0,
        m.1,
        as_bool-ok (value_at "allowed" m.0) a.0 a.1,
        non_empty-ok (value_at "reason_code" m.0) "decision.reason_code" r.0 r.1,
      )

  consistency-ok :
      (preflight manifest : Fields Float) {t : Unit {0}}
      → validate_preflight_manifest_consistency preflight manifest ≡ ok t
      → (backend : Fields Float) × (mapping_field manifest "backend" ≡ ok backend)
        × (value_at "backend_id" preflight ≡ value_at "id" backend)
        × (value_at "model_id" preflight ≡ value_at "model_id" backend)
  unfolding validate_preflight_manifest_consistency
  consistency-ok preflight manifest h =
      let b = bind-ok (mapping_field manifest "backend") _ h in
      let i =
        raise_if-ok (not (same_text (value_at "backend_id" preflight) (value_at "id" b.0))) _ _
          b.2 in
      let m = raise_if-passed _ _ i.1 in
      (
        b.0,
        b.1,
        same_text-same (value_at "backend_id" preflight) (value_at "id" b.0)
            (negated (same_text (value_at "backend_id" preflight) (value_at "id" b.0)) i.0),
        same_text-same (value_at "model_id" preflight) (value_at "model_id" b.0)
            (negated (same_text (value_at "model_id" preflight) (value_at "model_id" b.0)) m),
      )

  paths-ok :
      (manifest : Fields Float) {t : Unit {0}}
      → validate_evidence_manifest_payload manifest ≡ ok t
      → (dir_text dir log_text log : String) × (value_at "artifact_dir" manifest ≡ str dir_text)
        × (validated_artifact_dir dir_text ≡ ok dir)
        × (value_at "log_path" manifest ≡ str log_text)
        × (validated_log_path log_text dir ≡ ok log)
  unfolding validate_evidence_manifest_payload
  paths-ok manifest h =
      let b = bind-ok (mapping_field manifest "backend") _ h in
      let s = bind-ok (validated_non_empty_string (value_at "git_sha" manifest) "git_sha") _ b.2 in
      let q = bind-ok (sequence_field manifest "command") _ s.2 in
      let c = bind-ok (validated_command (items_of q.0)) _ q.2 in
      let t =
        bind-ok (validated_non_empty_string (value_at "artifact_dir" manifest) "artifact_dir") _
          c.2 in
      let d = bind-ok (validated_artifact_dir t.0) _ t.2 in
      let l =
        bind-ok (validated_non_empty_string (value_at "log_path" manifest) "log_path") _ d.2 in
      let p = bind-ok (validated_log_path l.0 d.0) _ l.2 in
      (
        t.0,
        d.0,
        l.0,
        p.0,
        non_empty-ok (value_at "artifact_dir" manifest) "artifact_dir" t.0 t.1,
        d.1,
        non_empty-ok (value_at "log_path" manifest) "log_path" l.0 l.1,
        p.1,
      )

  -- An execution record that is built keeps the preflight report and the manifest. It can be
  -- executed exactly as the report's decision says, with that decision's reason; the report and the
  -- manifest name the same backend and the same model; and the manifest's directory and log file are
  -- texts that the checks of paths accept.
  pub build_runtime_execution_record-IsGrounded :
      (preflight manifest : Fields Float) (r : ExecutionRecord Float)
      → build_runtime_execution_record preflight manifest ≡ ok r
      → (r.preflight_report ≡ preflight)
        × (r.evidence_manifest ≡ manifest)
        × (decision : Fields Float) × (mapping_field preflight "decision" ≡ ok decision)
        × (value_at "allowed" decision ≡ bool r.can_execute)
        × (value_at "reason_code" decision ≡ str r.reason_code)
        × (backend : Fields Float) × (mapping_field manifest "backend" ≡ ok backend)
        × (value_at "backend_id" preflight ≡ value_at "id" backend)
        × (value_at "model_id" preflight ≡ value_at "model_id" backend)
        × (dir_text dir log_text log : String) × (value_at "artifact_dir" manifest ≡ str dir_text)
        × (validated_artifact_dir dir_text ≡ ok dir)
        × (value_at "log_path" manifest ≡ str log_text)
        × (validated_log_path log_text dir ≡ ok log)
  unfolding build_runtime_execution_record
  build_runtime_execution_record-IsGrounded p m r h =
      let a = bind-ok (validate_schema_version p "runtime-preflight/v1" "preflight_report") _ h in
      let b =
        bind-ok (validate_schema_version m "runtime-evidence-manifest/v1" "evidence_manifest") _
          a.2 in
      let c = bind-ok (validate_evidence_manifest_payload m) _ b.2 in
      let d = bind-ok (validate_preflight_manifest_consistency p m) _ c.2 in
      let e = bind-ok (validated_preflight_decision p) _ d.2 in
      let decided = decision-ok p e.0 e.1 in
      let agreed = consistency-ok p m d.1 in
      let paths = paths-ok m c.1 in
      rw (sym (ok_inj e.2)) (
        refl, refl, decided.0, decided.1, decided.2, decided.3, agreed.0, agreed.1, agreed.2,
        agreed.3, paths.0, paths.1, paths.2, paths.3, paths.4, paths.5, paths.6, paths.7,
      )
