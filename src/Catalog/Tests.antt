-- ===== src/Catalog/Tests.antt =====
-- The gate at concrete inputs.
use mac_llm_ops_lab.Prelude.{ℕ, String, ◌≡◌, refl, ◌↔◌, true, some, string_eq}
use mac_llm_ops_lab.Py.Float.{milli}
use mac_llm_ops_lab.Py.Str.{is_space, strip, splitlines, lowers_to}
use mac_llm_ops_lab.Py.Dict.{get}
use mac_llm_ops_lab.Py.Result.{ok}
use mac_llm_ops_lab.Guard.{
  missing_patterns, is_rule, build_runtime_preflight_report, evaluate_runtime_preflight,
  has_negative_memory_estimate, estimated_total_gib,
}
use mac_llm_ops_lab.Catalog.{
  ApprovedModelEntry, approved_models, build_model_download_gate_report, exit_status, parse_bool,
  plan_of, report_for, gate_decision, missing_cache_ignore_patterns,
}
use mac_llm_ops_lab.Catalog.Gate.{IsOpen, gate_allowed}

abbrev ignored : String
ignored = "model-cache/\nmodels/\n"

gate_allowed_example :
    ((build_model_download_gate_report milli "mlx-community/Qwen3-0.6B-8bit" true
        ignored).decision.allowed
      ≡ true)
    ↔ ((entry : ApprovedModelEntry ℕ) × (get "mlx-community/Qwen3-0.6B-8bit" (approved_models milli)
          ≡ some entry)
        × IsOpen milli entry true ignored)
gate_allowed_example = gate_allowed milli "mlx-community/Qwen3-0.6B-8bit" true ignored

opens : exit_status milli "mlx-community/Qwen3-0.6B-8bit" " Yes" ignored ≡ ok 0
unfolding exit_status parse_bool strip is_space lowers_to build_model_download_gate_report
    report_for get gate_decision missing_cache_ignore_patterns missing_patterns is_rule splitlines
    plan_of build_runtime_preflight_report evaluate_runtime_preflight has_negative_memory_estimate
    estimated_total_gib
opens = refl

stays_shut : exit_status milli "mlx-community/Qwen3-0.6B-8bit" "" ignored ≡ ok 2
unfolding exit_status parse_bool strip is_space lowers_to build_model_download_gate_report
    report_for get gate_decision missing_cache_ignore_patterns missing_patterns is_rule splitlines
    plan_of build_runtime_preflight_report evaluate_runtime_preflight has_negative_memory_estimate
    estimated_total_gib
stays_shut = refl
