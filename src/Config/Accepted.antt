-- ===== src/Config/Accepted.antt =====
-- What holds of the settings that `load_settings` accepts.
use mac_llm_ops_lab.Prelude.{
  String, ◌≡◌, refl, ◌⊎◌, inl, inr, Bool, true, false, not, Option, none, some, List, [], ◌∷◌, map,
  keep, arith, string_eq, Bool-cases,
}
use mathlib.Core.Path.{subst}
use mac_llm_ops_lab.Py.Str.{strip, split_on, is_empty}
use mac_llm_ops_lab.Py.Str.Laws.{strip-strip}
use mac_llm_ops_lab.Py.Dict.{Dict}
use mac_llm_ops_lab.Py.Float.{FloatOps}
use mac_llm_ops_lab.Py.Result.{Result, ok, err, ◌>>=◌}
use mac_llm_ops_lab.Config.{
  Settings, parse_csv, env_value, first_value, bool_or, is_backend_kind, float_or, build_settings,
  validate_settings, load_settings,
}

-- Every item of a list of settings is stripped and is not empty.
abbrev pub AllTrimmed : List String → Type 0
AllTrimmed [] = Unit
AllTrimmed (x ∷ xs) = (strip x ≡ x) × (is_empty x ≡ false) × AllTrimmed xs

trimmed-AllTrimmed :
    (xs : List String) → AllTrimmed (map strip (keep (λ item. not (is_empty (strip item))) xs))
trimmed-AllTrimmed [] = tt
trimmed-AllTrimmed (x ∷ xs) = elim (Bool-cases (is_empty (strip x))) [
  | inl blank ↦ rw blank (trimmed-AllTrimmed xs)
  | inr kept ↦ rw kept (strip-strip x, kept, trimmed-AllTrimmed xs)
]

-- No item that `_parse_csv` returns is empty or has white space at either end.
pub parse_csv-AllTrimmed : (value : String) → AllTrimmed (parse_csv value)
unfolding parse_csv
parse_csv-AllTrimmed value = trimmed-AllTrimmed (split_on b',' value)

module _ (F : FloatOps) where
  open F use {Float}

  AllTrimmed-allowlist :
      (o : Option String) → AllTrimmed (elim o [ none ↦ [] | some list ↦ parse_csv list ])
  AllTrimmed-allowlist none = tt
  AllTrimmed-allowlist (some list) = parse_csv-AllTrimmed list

  -- What an accepted environment gives, as far as no value is parsed.
  abbrev Accepted : Dict String String → Settings Float → Type 0
  Accepted source s =
      ((s.backend_kind ≡ "fake") ⊎ (s.backend_kind ≡ "openai-compatible"))
      × AllTrimmed s.model_allowlist
      × (s.otel_exporter_otlp_traces_endpoint
          ≡ first_value (env_value source "MAC_LLM_OPS_OTEL_EXPORTER_OTLP_TRACES_ENDPOINT") (
              first_value (env_value source "MAC_LLM_OPS_PHOENIX_COLLECTOR_ENDPOINT")
                (env_value source "PHOENIX_COLLECTOR_ENDPOINT")))

  kind-cases :
      (kind : String) → is_backend_kind kind ≡ true → (kind ≡ "fake") ⊎ (kind ≡ "openai-compatible")
  unfolding is_backend_kind
  kind-cases kind h =
      ground (arith, string_eq.beq_iff kind "fake", string_eq.beq_iff kind "openai-compatible")

  validate_settings-ok :
      (s t : Settings Float)
      → validate_settings F s ≡ ok t
      → (is_backend_kind s.backend_kind ≡ true) × (s ≡ t)
  unfolding validate_settings
  validate_settings-ok s t h = (ground arith, ground arith)

  validated-Accepted :
      (source : Dict String String) (s : Settings Float) (a : Bool) (b : Float) (c d : Bool)
      (e : Float)
      → validate_settings F (build_settings F (env_value source) a b c d e) ≡ ok s
      → Accepted source s
  unfolding build_settings
  validated-Accepted source s a b c d e h =
      let valid = validate_settings-ok (build_settings F (env_value source) a b c d e) s h in
      subst (Accepted source) valid.1 (
        kind-cases _ valid.0,
        AllTrimmed-allowlist (env_value source "MAC_LLM_OPS_MODEL_ALLOWLIST"),
        refl,
      )

  -- The same for the whole chain, whatever the five parsed values are.
  chain-Accepted :
      (source : Dict String String) (s : Settings Float) (a : Result Bool) (b : Result Float)
      (c d : Result Bool) (e : Result Float)
      → (a >>= λ a'. b >>= λ b'. c >>= λ c'. d >>= λ d'.
          e >>= λ e'. validate_settings F (build_settings F (env_value source) a' b' c' d' e'))
        ≡ ok s
      → Accepted source s
  chain-Accepted source s (ok a) (ok b) (ok c) (ok d) (ok e) h =
      validated-Accepted source s a b c d e h
  chain-Accepted source s (err x) b c d e h = cc
  chain-Accepted source s (ok a) (err x) c d e h = cc
  chain-Accepted source s (ok a) (ok b) (err x) d e h = cc
  chain-Accepted source s (ok a) (ok b) (ok c) (err x) e h = cc
  chain-Accepted source s (ok a) (ok b) (ok c) (ok d) (err x) h = cc

  -- Accepted settings name one of the two backends, have a trimmed allowlist, and take the traces
  -- endpoint from the OTLP variable, then from the project's Phoenix variable, then from Phoenix's
  -- own.
  pub load_settings-accepted :
      (source : Dict String String) (s : Settings Float)
      → load_settings F source ≡ ok s
      → ((s.backend_kind ≡ "fake") ⊎ (s.backend_kind ≡ "openai-compatible"))
        × AllTrimmed s.model_allowlist
        × (s.otel_exporter_otlp_traces_endpoint
            ≡ first_value (env_value source "MAC_LLM_OPS_OTEL_EXPORTER_OTLP_TRACES_ENDPOINT") (
                first_value
                  (env_value source "MAC_LLM_OPS_PHOENIX_COLLECTOR_ENDPOINT")
                  (env_value source "PHOENIX_COLLECTOR_ENDPOINT")))
  unfolding load_settings
  load_settings-accepted source s h =
      let value = env_value source in
      chain-Accepted source s (bool_or (value "MAC_LLM_OPS_CAPTURE_REQUEST_BODIES") false)
        (float_or F (value "MAC_LLM_OPS_OPENAI_TIMEOUT_SECONDS") (F.decimal 300 1))
        (bool_or (value "MAC_LLM_OPS_OTEL_ENABLED") false)
        (bool_or (value "MAC_LLM_OPS_OTEL_CAPTURE_CONTENT") false)
        (float_or F (value "MAC_LLM_OPS_OTEL_EXPORT_TIMEOUT_SECONDS") (F.decimal 100 1)) h
