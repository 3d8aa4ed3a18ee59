-- ===== src/Guard/Tests.antt =====
-- The preflight at concrete plans.
use mac_llm_ops_lab.Prelude.{ℕ, String, ◌≡◌, refl, ◌↔◌, true, [], ◌∷◌}
use mac_llm_ops_lab.Py.Float.{milli}
use mac_llm_ops_lab.Guard.{
  RuntimePreflightPlan, build_runtime_preflight_report, evaluate_runtime_preflight,
  missing_patterns, missing_runtime_ignore_patterns, estimated_total_gib,
  has_negative_memory_estimate,
}
use mac_llm_ops_lab.Guard.Preflight.{IsCleared, preflight_allowed}
use mac_llm_ops_lab.Guard.Ignore.{missing_patterns_lem, missing_runtime_ignore_patterns_lem}
use mac_llm_ops_lab.Py.Str.{is_space, strip, splitlines}

abbrev plan : RuntimePreflightPlan ℕ
plan = record {
  backend_id = "vllm-mlx";
  model_id = "m";
  explicitly_authorized = true;
  model_weights_gib = 1200;
  kv_cache_gib = 2000;
  runtime_overhead_gib = 1000;
  service_overhead_gib = 500;
  memory_ceiling_gib = 24000;
}

too_large :
    (evaluate_runtime_preflight milli (record plan { kv_cache_gib = 22000 })).reason_code
    ≡ "memory_ceiling_exceeded"
unfolding evaluate_runtime_preflight has_negative_memory_estimate estimated_total_gib
too_large = refl

preflight_allowed_example :
    ((build_runtime_preflight_report milli plan).decision.allowed ≡ true) ↔ IsCleared milli plan
preflight_allowed_example = preflight_allowed milli plan

abbrev ignored : String
ignored = "# models/\n  model-cache/ \r\nsecrets/"

missing_patterns_test : missing_patterns ("model-cache/" ∷ "models/" ∷ []) ignored ≡ "models/" ∷ []
unfolding strip splitlines is_space
missing_patterns_test = missing_patterns_lem ("model-cache/" ∷ "models/" ∷ []) ignored refl

missing_runtime_ignore_patterns_test :
    missing_runtime_ignore_patterns ignored
    ≡ ".env" ∷ ".env.*" ∷ "data/" ∷ "artifacts/" ∷ "benchmarks/raw/" ∷ "traces/" ∷ "models/"
      ∷ "*.sqlite*" ∷ "*.log" ∷ []
unfolding strip splitlines is_space
missing_runtime_ignore_patterns_test = missing_runtime_ignore_patterns_lem ignored
