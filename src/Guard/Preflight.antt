-- ===== src/Guard/Preflight.antt =====
-- When the preflight passes, and which reason it gives first.
use mac_llm_ops_lab.Prelude.{◌≡◌, ◌↔◌, true, false, arith}
use mac_llm_ops_lab.Py.Float.{FloatOps}
use mac_llm_ops_lab.Guard.{
  RuntimePreflightPlan, estimated_total_gib, has_negative_memory_estimate,
  evaluate_runtime_preflight, build_runtime_preflight_report,
}

module _ (F : FloatOps) where
  open F use {Float, decimal, lt}

  -- What has to hold of a plan for its model to run.
  pub record IsCleared (plan : RuntimePreflightPlan Float) : Type 0 where
    pub weights : lt plan.model_weights_gib (decimal 0 0) ≡ false
    pub kv_cache : lt plan.kv_cache_gib (decimal 0 0) ≡ false
    pub runtime : lt plan.runtime_overhead_gib (decimal 0 0) ≡ false
    pub service : lt plan.service_overhead_gib (decimal 0 0) ≡ false
    pub ceiling : lt plan.memory_ceiling_gib (decimal 0 0) ≡ false
    pub authorized : plan.explicitly_authorized ≡ true
    pub fits : lt plan.memory_ceiling_gib (estimated_total_gib F plan) ≡ false

  -- The preflight report allows the run exactly if no memory figure is negative, the run is
  -- authorized, and the ceiling is not below the estimated total.
  pub preflight_allowed :
      (plan : RuntimePreflightPlan Float)
      → ((build_runtime_preflight_report F plan).decision.allowed ≡ true) ↔ IsCleared plan
  unfolding build_runtime_preflight_report evaluate_runtime_preflight has_negative_memory_estimate
  preflight_allowed plan = (λ h. ground arith, λ c. ground arith)
