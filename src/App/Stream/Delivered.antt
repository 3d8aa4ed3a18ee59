-- ===== src/App/Stream/Delivered.antt =====
-- What a client gets of a stream, and what is recorded of it.
use mac_llm_ops_lab.Prelude.{
  ℕ, zero, suc, ◌+◌, String, ◌≡◌, refl, ap, ◌∙◌, Bool, true, false, Option, none, some, List, [],
  ◌∷◌, ◌++◌, map, length, leb, sum_of, arith, if◌then◌else◌,
}
use mac_llm_ops_lab.Py.Str.{token_count}
use mac_llm_ops_lab.Py.Float.{FloatOps}
use mac_llm_ops_lab.Metrics.{InMemoryMetrics, Event, stream_error, stream_cancellation, run, step}
use mac_llm_ops_lab.App.Request.{Chunks}
use mac_llm_ops_lab.App.Stream.{
  StreamEvent, role_event, content_event, error_event, stop_event, done, Streamed, take,
  finish_stream, stream_chunks, stream_events,
}

abbrev pub ending : Bool → List StreamEvent
ending true = error_event "backend_stream_failed" ∷ done ∷ []
ending false = stop_event ∷ done ∷ []

-- All events of a stream.
abbrev pub whole : Chunks → List StreamEvent
whole source = role_event ∷ (map content_event source.chunks ++ ending source.failed)

abbrev pub event_tokens : StreamEvent → ℕ
event_tokens (content_event chunk) = token_count chunk
event_tokens _ = 0

-- The client goes while the role event or a chunk is the last event that it took.
abbrev pub leaves_early : List String → Option ℕ → Bool
leaves_early chunks none = false
leaves_early chunks (some n) = leb n (length chunks)

-- What is recorded, for the events behind the role event.
abbrev pub recorded : {Float : Type 0} → String → List String → Bool → Option ℕ → List (Event Float)
recorded model chunks broken client =
    if leaves_early chunks client
    then stream_cancellation model ∷ []
    else if broken
    then stream_error model ∷ []
    else []

-- A client that takes no event starts nothing.
abbrev pub recorded_of : {Float : Type 0} → String → Chunks → Option ℕ → List (Event Float)
recorded_of model source none = recorded model source.chunks source.failed none
recorded_of model source (some zero) = []
recorded_of model source (some (suc n)) = recorded model source.chunks source.failed (some n)

zero_leb : (n : ℕ) → leb 0 n ≡ true
zero_leb n = ground arith

suc-leb : (n : ℕ) → leb (suc n) 0 ≡ false
suc-leb n = ground arith

leb_cons :
    (n : ℕ) (c : String) (cs : List String) → leb (suc n) (length (c ∷ cs)) ≡ leb n (length cs)
leb_cons n c cs = ground arith

take-ending :
    (broken : Bool) (client : Option ℕ) → sum_of event_tokens (take client (ending broken)) ≡ 0
take-ending true none = refl
take-ending true (some zero) = refl
take-ending true (some (suc zero)) = refl
take-ending true (some (suc (suc zero))) = refl
take-ending true (some (suc (suc (suc n)))) = refl
take-ending false none = refl
take-ending false (some zero) = refl
take-ending false (some (suc zero)) = refl
take-ending false (some (suc (suc zero))) = refl
take-ending false (some (suc (suc (suc n)))) = refl

module _ (F : FloatOps) (model : String) where
  abbrev Delivers :
      List StreamEvent
      → List (Event F.Float)
      → ℕ
      → InMemoryMetrics F.Float
      → Streamed F.Float
      → Type 0
  Delivers events calls tokens m s =
      (s.events ≡ events)
      × (s.metrics ≡ run F m calls)
      × (s.output_tokens ≡ tokens + sum_of event_tokens s.events)

  finish-Delivers :
      (broken : Bool) (client : Option ℕ) (tokens : ℕ) (m : InMemoryMetrics F.Float)
      → leaves_early [] client ≡ false
      → Delivers
          (take client (ending broken))
          (recorded model [] broken client)
          tokens
          m
          (finish_stream model broken client tokens m)
  unfolding finish_stream run step
  finish-Delivers true client tokens m h =
      (refl, rw h refl, rw (take-ending true client) (omega arith))
  finish-Delivers false client tokens m h =
      (refl, rw h refl, rw (take-ending false client) (omega arith))

  chunks-Delivers :
      (chunks : List String) (broken : Bool) (client : Option ℕ) (tokens : ℕ)
      (m : InMemoryMetrics F.Float)
      → Delivers
          (take client (map content_event chunks ++ ending broken))
          (recorded model chunks broken client)
          tokens
          m
          (stream_chunks model chunks broken client tokens m)
  unfolding stream_chunks run step
  chunks-Delivers chunks broken (some zero) tokens m =
      (refl, rw (zero_leb (length chunks)) refl, omega arith)
  chunks-Delivers [] broken none tokens m = finish-Delivers broken none tokens m refl
  chunks-Delivers [] broken (some (suc n)) tokens m =
      finish-Delivers broken (some (suc n)) tokens m (suc-leb n)
  chunks-Delivers (c ∷ cs) broken none tokens m =
      let rest = chunks-Delivers cs broken none (tokens + token_count c) m in
      (ap (λ es. content_event c ∷ es) rest.0, rest.1, rest.2 ∙ omega arith)
  chunks-Delivers (c ∷ cs) broken (some (suc n)) tokens m =
      let rest = chunks-Delivers cs broken (some n) (tokens + token_count c) m in
      (ap (λ es. content_event c ∷ es) rest.0, rw (leb_cons n c cs) rest.1, rest.2 ∙ omega arith)

  -- A client gets the events of the whole stream in their order, up to the number that it takes. One
  -- cancellation of the model is recorded where the client goes behind the role event or behind a
  -- chunk, and otherwise one error of the model where the backend fails; nothing is recorded of a
  -- client that takes no event, or of a stream that the backend completes. The output tokens of the
  -- span are those of the chunks that the client got.
  pub stream_events_lem :
      (source : Chunks) (client : Option ℕ) (m : InMemoryMetrics F.Float)
      → let s = stream_events model source client m in
        (s.events ≡ take client (whole source))
        × (s.metrics ≡ run F m (recorded_of model source client))
        × (s.output_tokens ≡ sum_of event_tokens s.events)
  unfolding stream_events run
  stream_events_lem source (some zero) m = (refl, refl, refl)
  stream_events_lem source (some (suc n)) m =
      let rest = chunks-Delivers source.chunks source.failed (some n) 0 m in
      (ap (λ es. role_event ∷ es) rest.0, rest.1, rest.2)
  stream_events_lem source none m =
      let rest = chunks-Delivers source.chunks source.failed none 0 m in
      (ap (λ es. role_event ∷ es) rest.0, rest.1, rest.2)
