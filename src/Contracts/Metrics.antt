-- ===== src/Contracts/Metrics.antt =====
-- backend_contracts.py: the summary of the samples. `is_one` is `value == 1.0`, `zero` is 0.0; a
-- sample's value is a float already, so `float(value)` is the value.
pub mod Missing
use mac_llm_ops_lab.Prelude.{
  ℕ, String, Bool, true, false, not, ◌&&◌, Option, none, some, List, [], ◌∷◌, keep, any, is_nil,
  ◌==◌, string_eq, if◌then◌else◌,
}
use mac_llm_ops_lab.Py.Dict.{Dict, get, put}
use mac_llm_ops_lab.Contracts.Prometheus.{Sample, parse_prometheus_samples}

abbrev pub required_metrics : List String
required_metrics =
    "vllm_mlx_http_requests_total" ∷ "vllm_mlx_inference_requests_total"
    ∷ "vllm_mlx_prompt_tokens_total" ∷ "vllm_mlx_completion_tokens_total" ∷ "vllm_mlx_model_loaded"
    ∷ "vllm_mlx_engine_type" ∷ "vllm_mlx_scheduler_waiting_requests"
    ∷ "vllm_mlx_scheduler_running_requests" ∷ "vllm_mlx_metal_memory_bytes" ∷ "vllm_mlx_cache_type"
    ∷ "vllm_mlx_cache_hits" ∷ "vllm_mlx_cache_misses" ∷ "vllm_mlx_cache_hit_rate"
    ∷ "vllm_mlx_cache_memory_bytes" ∷ "vllm_mlx_cache_tokens_saved" ∷ []

-- `labels.get(name, "")`
abbrev label_or : String → Dict String String → String → String
label_or name labels fallback = elim (get name labels) [ none ↦ fallback | some text ↦ text ]

pub record HttpCount (Float : Type 0) : Type 0 where
  pub method : String
  pub path : String
  pub status_code : String
  pub count : Float

pub record InferenceCount (Float : Type 0) : Type 0 where
  pub endpoint : String
  pub result : String
  pub stream : String
  pub count : Float

pub record MetricsSummary (Float : Type 0) : Type 0 where
  pub schema_version : String
  pub contract_passed : Bool
  pub missing_required_metrics : List String
  pub model_loaded : Bool
  pub engine_type : String
  pub cache_type : String
  pub http_requests : List (HttpCount Float)
  pub inference_requests : List (InferenceCount Float)
  pub prompt_tokens : Float
  pub completion_tokens : Float
  pub waiting_requests : Float
  pub running_requests : Float
  pub metal_memory_bytes : Dict String Float
  pub cache_hits : Float
  pub cache_misses : Float
  pub cache_hit_rate : Float
  pub cache_memory_bytes : Float
  pub cache_tokens_saved : Float

module _ {Float : Type 0} where
  unfoldable pub sample_value : List (Sample Float) → String → Float → Float
  sample_value [] metric_name default = default
  sample_value (s ∷ samples) metric_name default =
      if s.name == metric_name then s.value else sample_value samples metric_name default

  unfoldable pub http_request_counts : List (Sample Float) → List (HttpCount Float)
  unfolding get
  http_request_counts [] = []
  http_request_counts (s ∷ samples) =
      let rest = http_request_counts samples in
      if s.name == "vllm_mlx_http_requests_total"
      then record {
        method = label_or "method" s.labels "";
        path = label_or "path" s.labels "";
        status_code = label_or "status_code" s.labels "";
        count = s.value;
      }
        ∷ rest
      else rest

  unfoldable pub inference_request_counts : List (Sample Float) → List (InferenceCount Float)
  unfolding get
  inference_request_counts [] = []
  inference_request_counts (s ∷ samples) =
      let rest = inference_request_counts samples in
      if s.name == "vllm_mlx_inference_requests_total"
      then record {
        endpoint = label_or "endpoint" s.labels "";
        result = label_or "result" s.labels "";
        stream = label_or "stream" s.labels "";
        count = s.value;
      }
        ∷ rest
      else rest

  -- `values[kind] = value` for each sample of the metric that has a kind, in order
  abbrev put_kind : String → Dict String Float → Sample Float → Dict String Float
  put_kind metric_name values s =
      if s.name == metric_name
      then elim (get "kind" s.labels) [ none ↦ values | some kind ↦ put kind s.value values ]
      else values

  abbrev put_kinds : String → Dict String Float → List (Sample Float) → Dict String Float
  put_kinds metric_name values [] = values
  put_kinds metric_name values (s ∷ samples) =
      put_kinds metric_name (put_kind metric_name values s) samples

  unfoldable pub kind_values : List (Sample Float) → String → Dict String Float
  unfolding get put
  kind_values samples metric_name = put_kinds metric_name [] samples

  abbrev pub has_metric : List (Sample Float) → String → Bool
  has_metric samples name = any (λ s. s.name == name) samples

  unfoldable pub missing_metrics : List (Sample Float) → List String
  missing_metrics samples = keep (λ name. not (has_metric samples name)) required_metrics

  module _ (is_one : Float → Bool) (zero : Float) where
    unfoldable pub active_labeled_value : List (Sample Float) → String → String → String → String
    unfolding get
    active_labeled_value [] metric_name label_name fallback = fallback
    active_labeled_value (s ∷ samples) metric_name label_name fallback =
        if s.name == metric_name && is_one s.value
        then label_or label_name s.labels fallback
        else active_labeled_value samples metric_name label_name fallback

    unfoldable pub summary_of : List (Sample Float) → MetricsSummary Float
    summary_of samples =
        let value = λ (name : String). sample_value samples name zero in
        record {
          schema_version = "vllm-mlx-metrics-summary/v1";
          contract_passed = is_nil (missing_metrics samples);
          missing_required_metrics = missing_metrics samples;
          model_loaded = is_one (value "vllm_mlx_model_loaded");
          engine_type = active_labeled_value samples "vllm_mlx_engine_type" "engine_type" "unknown";
          cache_type = active_labeled_value samples "vllm_mlx_cache_type" "cache_type" "unknown";
          http_requests = http_request_counts samples;
          inference_requests = inference_request_counts samples;
          prompt_tokens = value "vllm_mlx_prompt_tokens_total";
          completion_tokens = value "vllm_mlx_completion_tokens_total";
          waiting_requests = value "vllm_mlx_scheduler_waiting_requests";
          running_requests = value "vllm_mlx_scheduler_running_requests";
          metal_memory_bytes = kind_values samples "vllm_mlx_metal_memory_bytes";
          cache_hits = value "vllm_mlx_cache_hits";
          cache_misses = value "vllm_mlx_cache_misses";
          cache_hit_rate = value "vllm_mlx_cache_hit_rate";
          cache_memory_bytes = value "vllm_mlx_cache_memory_bytes";
          cache_tokens_saved = value "vllm_mlx_cache_tokens_saved";
        }

    module _ (is_digit : ℕ → Bool) (inf neg_inf : Float) (to_float : String → Float) where
      unfoldable pub summarize_vllm_mlx_metrics : String → MetricsSummary Float
      summarize_vllm_mlx_metrics metrics_text =
          summary_of (parse_prometheus_samples is_digit inf neg_inf to_float metrics_text)
