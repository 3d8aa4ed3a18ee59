-- ===== src/Contracts/Policy.antt =====
-- backend_contracts.py: the workload policy. `decimal n` is the float n / 10.
use mac_llm_ops_lab.Prelude.{ℕ, pos, true, false, [], ◌∷◌}
use mac_llm_ops_lab.Py.Str.{◌<>◌}
use mac_llm_ops_lab.Py.Value.{bool, int, float, str, list, dict, Fields, arr, obj}

unfoldable pub build_benchmark_workload_policy : {Float : Type 0} → (ℕ → Float) → Fields Float
build_benchmark_workload_policy decimal = obj (
    ("schema_version", str "vllm-mlx-benchmark-policy/v1")
    ∷ (
      "source_grounding",
      list (
          arr (
            (str (
              "Mac LLM Ops Lab benchmark policy: examine hardware, generate "
              <> "representative traffic, define metrics, verify memory/KV cache, "
              <> "then compare baseline, cache, quantized, and distributed " <> "configurations."))
            ∷ (str (
                "Mac LLM Ops Lab serving policy: measure latency and throughput "
                <> "with TTFT, ITL/TPOT, end-to-end latency, and request or token "
                <> "throughput according to the user-facing workload."))
            ∷ (str (
                "OpenTelemetry performance benchmark: use warm-up before "
                <> "measurement, repeat measurements, and report CPU/memory plus the "
                <> "target platform."))
            ∷ (str (
                "OpenTelemetry GenAI semantic conventions: keep model, provider, "
                <> "operation, server, and error attributes available in trace " <> "evidence."))
            ∷ [])),
    )
    ∷ ("local_port_range", dict (obj (("min", int (pos 20000)) ∷ ("max", int (pos 50000)) ∷ [])))
    ∷ (
      "workloads",
      list (
          arr (
            (dict (
              obj (
                ("name", str "smoke_short")
                ∷ ("purpose", str "Command-surface, parser, metrics, and trace smoke only.")
                ∷ ("prompt_set", str "short")
                ∷ ("profile", str "tiny deterministic request for safe local wiring proof")
                ∷ ("production_claim_eligible", bool false)
                ∷ (
                  "output_token_targets",
                  list (arr ((int (pos 4)) ∷ (int (pos 16)) ∷ (int (pos 64)) ∷ [])),
                )
                ∷ ("concurrency_levels", list (arr ((int (pos 1)) ∷ [])))
                ∷ ("request_rates_per_second", list (arr ((float (decimal 10)) ∷ [])))
                ∷ ("burstiness", list (arr ((float (decimal 10)) ∷ [])))
                ∷ ("warmup_requests", int (pos 0))
                ∷ ("repetitions", int (pos 1))
                ∷ ("validation_policy", str "validated:false allowed only for this smoke.")
                ∷ [])))
            ∷ (dict (
                obj (
                  ("name", str "conversational_sharegpt")
                  ∷ ("purpose", str "Interactive chat baseline with realistic turn lengths.")
                  ∷ ("prompt_set", str "sharegpt")
                  ∷ ("profile", str "balanced prefill/decode conversational traffic")
                  ∷ ("production_claim_eligible", bool true)
                  ∷ (
                    "output_token_targets",
                    list (arr ((int (pos 64)) ∷ (int (pos 128)) ∷ (int (pos 256)) ∷ [])),
                  )
                  ∷ (
                    "concurrency_levels",
                    list (arr ((int (pos 1)) ∷ (int (pos 2)) ∷ (int (pos 4)) ∷ [])),
                  )
                  ∷ (
                    "request_rates_per_second",
                    list (
                        arr (
                          (float (decimal 10)) ∷ (float (decimal 20)) ∷ (float (decimal 50)) ∷ [])),
                  )
                  ∷ ("burstiness", list (arr ((float (decimal 10)) ∷ [])))
                  ∷ ("warmup_requests", int (pos 10))
                  ∷ ("repetitions", int (pos 3))
                  ∷ ("validation_policy", str "validated:true required for performance claims.")
                  ∷ [])))
            ∷ (dict (
                obj (
                  ("name", str "prefix_repetition_cache")
                  ∷ ("purpose", str "Cache and repeated-prefix behavior under controlled reuse.")
                  ∷ ("prompt_set", str "prefix_repetition")
                  ∷ ("profile", str "prefill-heavy repeated-prefix cache workload")
                  ∷ ("production_claim_eligible", bool true)
                  ∷ ("output_token_targets", list (arr ((int (pos 64)) ∷ (int (pos 128)) ∷ [])))
                  ∷ (
                    "concurrency_levels",
                    list (arr ((int (pos 1)) ∷ (int (pos 2)) ∷ (int (pos 4)) ∷ [])),
                  )
                  ∷ (
                    "request_rates_per_second",
                    list (
                        arr (
                          (float (decimal 10)) ∷ (float (decimal 20)) ∷ (float (decimal 50)) ∷ [])),
                  )
                  ∷ ("burstiness", list (arr ((float (decimal 10)) ∷ [])))
                  ∷ ("warmup_requests", int (pos 10))
                  ∷ ("repetitions", int (pos 3))
                  ∷ (
                    "prefix_repetition",
                    dict (
                        obj (
                          ("prefix_lengths", list (arr ((int (pos 256)) ∷ [])))
                          ∷ ("suffix_lengths", list (arr ((int (pos 256)) ∷ [])))
                          ∷ (
                            "unique_prefix_counts",
                            list (arr ((int (pos 5)) ∷ (int (pos 10)) ∷ [])),
                          )
                          ∷ [])),
                  )
                  ∷ ("validation_policy", str "validated:true required for performance claims.")
                  ∷ [])))
            ∷ [])),
    )
    ∷ (
      "required_metadata",
      list (
          arr (
            (str "git_sha")
            ∷ (str "command")
            ∷ (str "host_chip")
            ∷ (str "unified_memory_gb")
            ∷ (str "macos_version")
            ∷ (str "backend_name")
            ∷ (str "backend_version")
            ∷ (str "model_id")
            ∷ (str "model_revision")
            ∷ (str "quantization")
            ∷ (str "api_port")
            ∷ (str "backend_port")
            ∷ (str "phoenix_port")
            ∷ (str "otlp_grpc_port")
            ∷ (str "prompt_set")
            ∷ (str "input_token_distribution")
            ∷ (str "output_token_target")
            ∷ (str "concurrency")
            ∷ (str "request_rate_per_second")
            ∷ (str "burstiness")
            ∷ (str "warmup_requests")
            ∷ (str "repetition_index")
            ∷ (str "validated")
            ∷ [])),
    )
    ∷ (
      "required_metrics",
      list (
          arr (
            (str "ttft_ms")
            ∷ (str "e2e_latency_ms")
            ∷ (str "tpot_or_itl_ms")
            ∷ (str "total_tps")
            ∷ (str "output_tps")
            ∷ (str "requests_per_s")
            ∷ (str "prompt_tokens")
            ∷ (str "completion_tokens")
            ∷ (str "error_rate")
            ∷ (str "metal_active_gb")
            ∷ (str "metal_peak_gb")
            ∷ (str "metal_cache_gb")
            ∷ (str "cache_hit_rate")
            ∷ (str "tokens_saved")
            ∷ (str "phoenix_gen_ai_spans")
            ∷ [])),
    )
    ∷ (
      "claim_boundaries",
      list (
          arr (
            (str (
              "validated:false is smoke-only; it can prove command shape but not "
              <> "quality or production performance."))
            ∷ (str (
                "MacBook measurements are local baselines for this development "
                <> "host, with the capsule-local 24 GiB real-model memory ceiling."))
            ∷ (str (
                "Mac Studio cluster claims require Mac Studio runs with node count,"
                <> " chip, memory, network, model, routing, and trace evidence."))
            ∷ [])),
    )
    ∷ [])
