-- ===== src/Stack.antt =====
-- runtime_stack.py: the plan of the local stack.
mod Tests
use mac_llm_ops_lab.Prelude.{pos, true, false, [], ◌∷◌}
use mac_llm_ops_lab.Py.Str.{◌<>◌}
use mac_llm_ops_lab.Py.Value.{bool, int, str, list, dict, Fields, arr, obj}

module _ {Float : Type 0} where
  unfoldable pub api_service : Fields Float
  api_service = obj (
      ("name", str "api")
      ∷ ("runtime", str "docker")
      ∷ ("image", str "mac-llm-ops-lab-api:local")
      ∷ ("build_target", str "api")
      ∷ ("ports", dict (obj (("api", int (pos 28000)) ∷ [])))
      ∷ (
        "environment",
        dict (
            obj (
              ("MAC_LLM_OPS_BACKEND_KIND", str "${MAC_LLM_OPS_BACKEND_KIND:-fake}")
              ∷ (
                "MAC_LLM_OPS_OPENAI_BASE_URL",
                str "${MAC_LLM_OPS_OPENAI_BASE_URL:-http://host.docker.internal:28100/v1}",
              )
              ∷ (
                "MAC_LLM_OPS_OPENAI_TIMEOUT_SECONDS",
                str "${MAC_LLM_OPS_OPENAI_TIMEOUT_SECONDS:-30}",
              )
              ∷ ("MAC_LLM_OPS_MODEL_ALLOWLIST", str "${MAC_LLM_OPS_MODEL_ALLOWLIST:-}")
              ∷ ("MAC_LLM_OPS_OTEL_ENABLED", str "${MAC_LLM_OPS_OTEL_ENABLED:-true}")
              ∷ (
                "MAC_LLM_OPS_OTEL_EXPORTER_OTLP_TRACES_ENDPOINT",
                str
                    "${MAC_LLM_OPS_OTEL_EXPORTER_OTLP_TRACES_ENDPOINT:-http://phoenix:6006/v1/traces}",
              )
              ∷ (
                "MAC_LLM_OPS_PHOENIX_PROJECT_NAME",
                str "${MAC_LLM_OPS_PHOENIX_PROJECT_NAME:-mac-llm-ops-lab-local}",
              )
              ∷ [])),
      )
      ∷ (
        "depends_on",
        dict (
            obj (
              ("phoenix", dict (obj (("condition", str "service_started") ∷ [])))
              ∷ ("postgres", dict (obj (("condition", str "service_healthy") ∷ [])))
              ∷ [])),
      )
      ∷ [])

  unfoldable pub docs_service : Fields Float
  docs_service = obj (
      ("name", str "docs")
      ∷ ("runtime", str "docker")
      ∷ ("image", str "mac-llm-ops-lab-docs:local")
      ∷ ("build_target", str "docs")
      ∷ ("ports", dict (obj (("docs", int (pos 28080)) ∷ ("container", int (pos 8000)) ∷ [])))
      ∷ (
        "command",
        list (
            arr (
              (str "mkdocs")
              ∷ (str "serve")
              ∷ (str "--no-livereload")
              ∷ (str "-a")
              ∷ (str "0.0.0.0:8000")
              ∷ [])),
      )
      ∷ ("depends_on", dict (obj ([])))
      ∷ [])

  unfoldable pub postgres_service : Fields Float
  postgres_service = obj (
      ("name", str "postgres")
      ∷ ("runtime", str "docker")
      ∷ ("image", str "postgres:16")
      ∷ ("ports", dict (obj (("postgres", int (pos 25432)) ∷ [])))
      ∷ (
        "environment",
        dict (
            obj (
              ("POSTGRES_DB", str "llm_serving")
              ∷ ("POSTGRES_PASSWORD_FILE", str "/run/secrets/postgres_password")
              ∷ ("POSTGRES_USER", str "llm_serving")
              ∷ [])),
      )
      ∷ ("secrets", dict (obj (("postgres_password", str "local-placeholder") ∷ [])))
      ∷ (
        "healthcheck",
        list (
            arr (
              (str "pg_isready")
              ∷ (str "-U")
              ∷ (str "${POSTGRES_USER}")
              ∷ (str "-d")
              ∷ (str "${POSTGRES_DB}")
              ∷ [])),
      )
      ∷ ("volumes", dict (obj (("postgres-data", str "/var/lib/postgresql/data") ∷ [])))
      ∷ ("depends_on", dict (obj ([])))
      ∷ [])

  unfoldable pub phoenix_service : Fields Float
  phoenix_service = obj (
      ("name", str "phoenix")
      ∷ ("runtime", str "docker")
      ∷ ("image", str "arizephoenix/phoenix:latest")
      ∷ (
        "ports",
        dict (
            obj (
              ("ui", int (pos 26006))
              ∷ ("otlp_grpc", int (pos 24317))
              ∷ ("prometheus", int (pos 29090))
              ∷ [])),
      )
      ∷ (
        "environment",
        dict (
            obj (
              (
                "PHOENIX_SQL_DATABASE_URL",
                str ("postgresql://llm_serving:local-" <> "placeholder@postgres:5432/llm_serving"),
              )
              ∷ [])),
      )
      ∷ (
        "depends_on",
        dict (obj (("postgres", dict (obj (("condition", str "service_healthy") ∷ []))) ∷ [])),
      )
      ∷ [])

  unfoldable pub open_webui_service : Fields Float
  open_webui_service = obj (
      ("name", str "open-webui")
      ∷ ("runtime", str "docker")
      ∷ ("image", str "ghcr.io/open-webui/open-webui:main")
      ∷ ("ports", dict (obj (("ui", int (pos 23000)) ∷ ("container", int (pos 8080)) ∷ [])))
      ∷ (
        "environment",
        dict (
            obj (
              ("ENABLE_PERSISTENT_CONFIG", str "False")
              ∷ ("ENABLE_OLLAMA_API", str "False")
              ∷ ("OPENAI_API_BASE_URLS", str "http://api:8000/v1")
              ∷ ("OPENAI_API_KEYS", str "local-dev-placeholder")
              ∷ ("WEBUI_AUTH", str "False")
              ∷ [])),
      )
      ∷ ("volumes", dict (obj (("open-webui-data", str "/app/backend/data") ∷ [])))
      ∷ (
        "depends_on",
        dict (obj (("api", dict (obj (("condition", str "service_started") ∷ []))) ∷ [])),
      )
      ∷ [])

  unfoldable pub apple_silicon_backend_service : Fields Float
  apple_silicon_backend_service = obj (
      ("name", str "apple-silicon-backend")
      ∷ ("runtime", str "direct-process")
      ∷ ("enabled_by_default", bool true)
      ∷ ("candidate", str "vllm-mlx")
      ∷ (
        "gate",
        dict (
            obj (
              ("requires_explicit_authorization", bool true)
              ∷ ("requires_memory_preflight", bool true)
              ∷ ("starts_containers", bool false)
              ∷ ("downloads_models", bool false)
              ∷ [])),
      )
      ∷ (
        "cache_policy",
        dict (
            obj (
              ("model_cache", str "model-cache/")
              ∷ ("runtime_artifacts", str "artifacts/runtime/")
              ∷ [])),
      )
      ∷ [])

  unfoldable pub build_local_runtime_stack_plan : Fields Float
  build_local_runtime_stack_plan = obj (
      ("schema_version", str "runtime-stack/v1")
      ∷ ("platform", str "macos-apple-silicon")
      ∷ (
        "side_effects",
        dict (
            obj (
              ("starts_containers", bool false)
              ∷ ("downloads_models", bool false)
              ∷ ("requires_secrets", bool false)
              ∷ [])),
      )
      ∷ (
        "services",
        list (
            arr (
              (dict api_service)
              ∷ (dict docs_service)
              ∷ (dict postgres_service)
              ∷ (dict phoenix_service)
              ∷ (dict open_webui_service)
              ∷ (dict apple_silicon_backend_service)
              ∷ [])),
      )
      ∷ [])
