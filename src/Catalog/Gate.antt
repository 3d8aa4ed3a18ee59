-- ===== src/Catalog/Gate.antt =====
-- When the gate opens.
use mathlib.Core.Path.{subst, sym}
use mathlib.Core.Option.{some-injective}
use mac_llm_ops_lab.Prelude.{
  String, ◌≡◌, refl, ◌↔◌, Bool, true, false, not, Option, none, some, List, [], ◌∷◌, arith,
  string_eq, if◌then◌else◌, sym,
}
use mac_llm_ops_lab.Py.Float.{FloatOps}
use mac_llm_ops_lab.Py.Dict.{get}
use mac_llm_ops_lab.Guard.{build_runtime_preflight_report, RuntimePreflightReport}
use mac_llm_ops_lab.Guard.Preflight.{IsCleared, preflight_allowed}
use mac_llm_ops_lab.Guard.Ignore.{stands_alone, missing_patterns_lem}
use mac_llm_ops_lab.Catalog.{
  ApprovedModelEntry, approved_models, plan_of, gate_decision, report_for,
  missing_cache_ignore_patterns, build_model_download_gate_report,
}

-- Two tests that each keep a pattern when they fail keep nothing exactly if both pass.
two_kept :
    (x y : String) (a b : Bool)
    → ((let rest = if not b then y ∷ [] else [] in if not a then x ∷ rest else rest) ≡ [])
      ↔ ((a ≡ true) × (b ≡ true))
two_kept x y true true = (λ h. (refl, refl), λ h. refl)
two_kept x y true false = (λ h. cc, λ h. cc (h.1))
two_kept x y false true = (λ h. cc, λ h. cc (h.0))
two_kept x y false false = (λ h. cc, λ h. cc (h.0))

missing_cache-nil :
    (text : String)
    → (missing_cache_ignore_patterns text ≡ [])
      ↔ ((stands_alone text "model-cache/" ≡ true) × (stands_alone text "models/" ≡ true))
unfolding missing_cache_ignore_patterns
missing_cache-nil text = rw (missing_patterns_lem ("model-cache/" ∷ "models/" ∷ []) text refl) (
    two_kept "model-cache/" "models/" (stands_alone text "model-cache/")
      (stands_alone text "models/"))

module _ (F : FloatOps) where
  open F use {Float}

  -- The gate is open for an entry of the catalog: both cache paths stand alone on lines of the
  -- ignore file, and the preflight clears the entry's plan.
  pub record IsOpen (entry : ApprovedModelEntry Float) (approved : Bool) (text : String)
      : Type 0 where
    pub model_cache : stands_alone text "model-cache/" ≡ true
    pub models : stands_alone text "models/" ≡ true
    pub cleared : IsCleared F (plan_of F entry approved)

  gate_decision-allowed :
      (missing : List String) (r : RuntimePreflightReport Float)
      → ((gate_decision F missing r).allowed ≡ true)
        ↔ ((missing ≡ []) × (r.decision.allowed ≡ true))
  unfolding gate_decision
  gate_decision-allowed [] r = (λ h. (refl, ground arith), λ h. ground arith)
  gate_decision-allowed (p ∷ ps) r = (λ h. cc, λ h. cc (h.0))

  -- The decision for what the catalog has under the name.
  report_for-allowed :
      (model_id : String) (found : Option (ApprovedModelEntry Float)) (approved : Bool)
      (text : String)
      → ((report_for F model_id found approved text).decision.allowed ≡ true)
        ↔ ((entry : ApprovedModelEntry Float) × (found ≡ some entry) × IsOpen entry approved text)
  unfolding report_for
  report_for-allowed model_id none approved text = (λ h. cc, λ o. cc (o.1))
  report_for-allowed model_id (some entry) approved text =
      let report = build_runtime_preflight_report F (plan_of F entry approved) in
      let both = gate_decision-allowed (missing_cache_ignore_patterns text) report in
      let paths = missing_cache-nil text in
      let clear = preflight_allowed F (plan_of F entry approved) in
      (
        λ h. (
          entry,
          refl,
          record {
            model_cache = (paths.0 (both.0 h).0).0;
            models = (paths.0 (both.0 h).0).1;
            cleared = clear.0 (both.0 h).1;
          },
        ),
        λ o. both.1 (
          paths.1 (o.2.model_cache, o.2.models),
          clear.1 (
              subst (λ e. IsCleared F (plan_of F e approved)) (sym (some-injective entry o.0 o.1))
                o.2.cleared),
        ),
      )

  -- The gate allows a model exactly if the catalog has it, each of the two cache paths stands alone
  -- on a line of the ignore file, and the preflight clears the entry's plan: figures that are not
  -- negative, the approval given, and a total within the ceiling.
  pub gate_allowed :
      (model_id : String) (approved : Bool) (text : String)
      → ((build_model_download_gate_report F model_id approved text).decision.allowed ≡ true) ↔ (
          (entry : ApprovedModelEntry Float) × (get model_id (approved_models F) ≡ some entry)
          × IsOpen entry approved text)
  unfolding build_model_download_gate_report
  gate_allowed model_id approved text =
      report_for-allowed model_id (get model_id (approved_models F)) approved text
