-- ===== src/App/Traces/Same.antt =====
-- Parts of a trace that are the same for texts with as many words.
use mac_llm_ops_lab.Prelude.{
  ℕ, String, ◌≡◌, refl, Bool, true, false, Option, none, some, List, if◌then◌else◌,
}
use mac_llm_ops_lab.Py.Str.{token_count}
use mac_llm_ops_lab.Py.Dict.{Dict}
use mac_llm_ops_lab.Py.Float.{FloatOps}
use mac_llm_ops_lab.Py.Value.{Value}
use mac_llm_ops_lab.Py.Result.{Result, ok, err}
use mac_llm_ops_lab.Metrics.{InMemoryMetrics}
use mac_llm_ops_lab.Observability.{Observability, TracerCall}
use mac_llm_ops_lab.App.Chat.{Response, streaming, handled, answer, to_response}
use mac_llm_ops_lab.App.Traces.{
  RequestContext, backend_span_attributes, dispatch, generate_calls, response_calls, result_calls,
  request_trace,
}

-- Two results that differ in the words of a text at most.
abbrev pub Alike : Result String → Result String → Type 0
Alike (err e) (err e') = Unit
Alike (ok c) (ok c') = token_count c ≡ token_count c'
Alike _ _ = ⊥

same_codes :
    {n n' : ℕ} {c c' : String}
    → ◌≡◌ {A = Option (ℕ × String)} (some (n, c)) (some (n', c'))
    → (n ≡ n') × (c ≡ c')
same_codes h = (cc, cc)

module _ (F : FloatOps) where
  open F use {Float}

  -- What the middleware reads of a response.
  abbrev pub seen : Result (Response Float) → Option (ℕ × String)
  seen (err e) = none
  seen (ok response) = some (response.status_code, response.error_code)

  -- What it reads of a chat request's response.
  abbrev pub seen_of : Bool → Bool → Result String → Option (ℕ × String)
  seen_of false stream content = some (404, "model_not_allowed")
  seen_of true true content = some (200, "")
  seen_of true false (ok content) = some (200, "")
  seen_of true false (err e) = some (502, "backend_generation_failed")

  pub seen-answered :
      {State : Type 0} (stream : Bool) (model p : String) (options : Dict String (Value Float))
      (c : Result String) (s s' : State) (m : InMemoryMetrics Float)
      → seen (
          to_response
            (if stream
              then handled (ok (streaming p model options)) s m
              else answer model p c s' m).result)
        ≡ seen_of true stream c
  unfolding to_response answer
  seen-answered true model p options c s s' m = refl
  seen-answered false model p options (ok c) s s' m = refl
  seen-answered false model p options (err e) s s' m = refl

  module _ (str_of : Value Float → String) (o : Observability) (context : RequestContext) where
    pub same_seen :
        (route model : String) (d : Float) (r r' : Result (Response Float))
        → seen r ≡ seen r'
        → result_calls F str_of o context route d model r
          ≡ result_calls F str_of o context route d model r'
    unfolding response_calls
    same_seen route model d (err e) (err e') h = refl
    same_seen route model d (err e) (ok a) h = cc
    same_seen route model d (ok a) (err e) h = cc
    same_seen route model d (ok a) (ok b) h = let (e, f) = same_codes h in rw (e, f) refl

    pub same_dispatch :
        (name model p p' : String) (calls : List (TracerCall Float))
        → token_count p ≡ token_count p'
        → dispatch F str_of o context name model p calls
          ≡ dispatch F str_of o context name model p' calls
    unfolding backend_span_attributes
    same_dispatch name model p p' calls e = rw e refl

    pub same_generate :
        (model : String) (c c' : Result String)
        → Alike c c'
        → generate_calls F str_of o context model c ≡ generate_calls F str_of o context model c'
    same_generate model (err e) (err e') a = refl
    same_generate model (ok c) (ok c') a = rw a refl
    same_generate model (ok c) (err e) a = elim a [ ]
    same_generate model (err e) (ok c) a = elim a [ ]

    pub same_request :
        (method path route model : String) (d : Float) (xs ys : List (TracerCall Float))
        (r r' : Result (Response Float))
        → xs ≡ ys
        → seen r ≡ seen r'
        → request_trace F str_of o context method path route d model xs r
          ≡ request_trace F str_of o context method path route d model ys r'
    unfolding request_trace
    same_request method path route model d xs ys r r' e h =
        rw (e, same_seen route model d r r' h) refl
