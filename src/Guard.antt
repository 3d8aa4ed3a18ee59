-- ===== src/Guard.antt =====
-- runtime_guard.py: the preflight decision before a real model runs, and the ignore rules of the
-- repository that must stand first.
pub mod Preflight
pub mod Ignore
mod Tests
use mac_llm_ops_lab.Prelude.{
  String, Bool, true, false, not, ◌&&◌, ◌||◌, List, [], ◌∷◌, map, keep, any, elem, string_eq,
  if◌then◌else◌,
}
use mac_llm_ops_lab.Py.Str.{strip, lstrip, splitlines, is_empty, starts_with_char}
use mac_llm_ops_lab.Py.Float.{FloatOps}

abbrev pub required_runtime_ignore_patterns : List String
required_runtime_ignore_patterns =
    ".env" ∷ ".env.*" ∷ "data/" ∷ "artifacts/" ∷ "benchmarks/raw/" ∷ "traces/" ∷ "model-cache/"
    ∷ "models/" ∷ "secrets/" ∷ "*.sqlite*" ∷ "*.log" ∷ []

-- `line.strip() and not line.lstrip().startswith("#")`
unfoldable pub is_rule : String → Bool
is_rule line = not (is_empty (strip line)) && not (starts_with_char b'#' (lstrip line))

-- The set of stripped rules, kept as a list.
abbrev pub configured_patterns : String → List String
configured_patterns gitignore_text = map strip (keep is_rule (splitlines gitignore_text))

unfoldable pub missing_patterns : List String → String → List String
missing_patterns required gitignore_text =
    keep (λ pattern. not (elem pattern (configured_patterns gitignore_text))) required

unfoldable pub missing_runtime_ignore_patterns : String → List String
unfolding missing_patterns
missing_runtime_ignore_patterns = missing_patterns required_runtime_ignore_patterns

pub record RuntimePreflightPlan (Float : Type 0) : Type 0 where
  pub backend_id : String
  pub model_id : String
  pub explicitly_authorized : Bool
  pub model_weights_gib : Float
  pub kv_cache_gib : Float
  pub runtime_overhead_gib : Float
  pub service_overhead_gib : Float
  pub memory_ceiling_gib : Float

pub record RuntimePreflightDecision (Float : Type 0) : Type 0 where
  pub allowed : Bool
  pub reason_code : String
  pub message : String
  pub estimated_total_gib : Float
  pub memory_ceiling_gib : Float

-- The `decision` entry of a report.
pub record Decision : Type 0 where
  pub allowed : Bool
  pub reason_code : String
  pub message : String

pub record MemoryGib (Float : Type 0) : Type 0 where
  pub model_weights : Float
  pub kv_cache : Float
  pub runtime_overhead : Float
  pub service_overhead : Float
  pub estimated_total : Float
  pub ceiling : Float

pub record RuntimePreflightReport (Float : Type 0) : Type 0 where
  pub schema_version : String
  pub backend_id : String
  pub model_id : String
  pub explicitly_authorized : Bool
  pub memory_gib : MemoryGib Float
  pub decision : Decision

module _ (F : FloatOps) where
  open F use {Float, decimal, add, lt, round3}

  -- `DEFAULT_MEMORY_CEILING_GIB`
  abbrev pub default_memory_ceiling_gib : Float
  default_memory_ceiling_gib = decimal 240 1

  unfoldable pub estimated_total_gib : RuntimePreflightPlan Float → Float
  estimated_total_gib plan = round3 (
      add (add (add plan.model_weights_gib plan.kv_cache_gib) plan.runtime_overhead_gib)
        plan.service_overhead_gib)

  unfoldable pub has_negative_memory_estimate : RuntimePreflightPlan Float → Bool
  has_negative_memory_estimate plan =
      any (λ value. lt value (decimal 0 0))
        (plan.model_weights_gib ∷ plan.kv_cache_gib ∷ plan.runtime_overhead_gib
          ∷ plan.service_overhead_gib ∷ plan.memory_ceiling_gib ∷ [])

  unfoldable pub evaluate_runtime_preflight :
      RuntimePreflightPlan Float → RuntimePreflightDecision Float
  evaluate_runtime_preflight plan =
      let total = estimated_total_gib plan in
      let decide = λ (allowed : Bool) (reason_code message : String).
        let d : RuntimePreflightDecision Float = record {
          allowed = allowed;
          reason_code = reason_code;
          message = message;
          estimated_total_gib = total;
          memory_ceiling_gib = plan.memory_ceiling_gib;
        } in
        d in
      if has_negative_memory_estimate plan
      then decide false "invalid_memory_estimate" "Runtime memory estimates must be non-negative."
      else if not plan.explicitly_authorized
      then decide false "runtime_not_authorized"
          "Explicit authorization is required before real-model runtime execution."
      else if lt plan.memory_ceiling_gib total
      then decide false "memory_ceiling_exceeded"
          "Estimated runtime memory exceeds the configured ceiling."
      else decide true "runtime_preflight_passed" "Runtime preflight passed."

  unfoldable pub build_runtime_preflight_report :
      RuntimePreflightPlan Float → RuntimePreflightReport Float
  build_runtime_preflight_report plan =
      let decision = evaluate_runtime_preflight plan in
      record {
        schema_version = "runtime-preflight/v1";
        backend_id = plan.backend_id;
        model_id = plan.model_id;
        explicitly_authorized = plan.explicitly_authorized;
        memory_gib = record {
          model_weights = plan.model_weights_gib;
          kv_cache = plan.kv_cache_gib;
          runtime_overhead = plan.runtime_overhead_gib;
          service_overhead = plan.service_overhead_gib;
          estimated_total = decision.estimated_total_gib;
          ceiling = decision.memory_ceiling_gib;
        };
        decision = record {
          allowed = decision.allowed;
          reason_code = decision.reason_code;
          message = decision.message;
        };
      }
