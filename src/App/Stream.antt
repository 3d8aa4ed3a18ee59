-- ===== src/App/Stream.antt =====
-- app.py: `_stream_events`, the events of a streamed completion. The client is the number of events
-- that it takes, `none` where it takes all: behind the last one it takes, the generator is closed or
-- cancelled, at its `yield` or while it waits for a chunk. Of an event the fields are kept that
-- `_sse_event` is given; the identifier and the time in it are left out. Of the span its attributes
-- at the end are kept.
pub mod Delivered
use mac_llm_ops_lab.Prelude.{
  ℕ, zero, suc, ◌+◌, String, Bool, true, false, Option, none, some, List, [], ◌∷◌,
}
use mac_llm_ops_lab.Py.Str.{token_count}
use mac_llm_ops_lab.Metrics.{InMemoryMetrics, record_stream_error, record_stream_cancellation}
use mac_llm_ops_lab.App.Request.{Chunks}

-- `role_event` and `content_event` have no finish reason; `error_event` carries the code.
pub data StreamEvent : Type 0 where
  role_event : StreamEvent
  content_event : String → StreamEvent
  error_event : String → StreamEvent
  stop_event done : StreamEvent

pub data Finish : Type 0 where
  stopped failed cancelled unstarted : Finish

pub record Streamed (Float : Type 0) : Type 0 where
  pub events : List StreamEvent
  pub metrics : InMemoryMetrics Float
  pub output_tokens : ℕ
  pub finish : Finish

-- The events that are left, as far as the client takes them.
abbrev pub take : {A : Type 0} → Option ℕ → List A → List A
take none xs = xs
take (some zero) xs = []
take (some (suc n)) [] = []
take (some (suc n)) (x ∷ xs) = x ∷ take (some n) xs

module _ {Float : Type 0} where
  abbrev after : StreamEvent → Streamed Float → Streamed Float
  after event s = record s { events = event ∷ s.events }

  -- Behind the loop over the chunks: the `except Exception` and the `else` branch, and the end.
  unfoldable pub finish_stream :
      String → Bool → Option ℕ → ℕ → InMemoryMetrics Float → Streamed Float
  finish_stream model true client output_tokens m = record {
    events = take client (error_event "backend_stream_failed" ∷ done ∷ []);
    metrics = record_stream_error model m;
    output_tokens = output_tokens;
    finish = failed;
  }
  finish_stream model false client output_tokens m = record {
    events = take client (stop_event ∷ done ∷ []);
    metrics = m;
    output_tokens = output_tokens;
    finish = stopped;
  }

  abbrev cancel_stream : String → ℕ → InMemoryMetrics Float → Streamed Float
  cancel_stream model output_tokens m = record {
    events = [];
    metrics = record_stream_cancellation model m;
    output_tokens = output_tokens;
    finish = cancelled;
  }

  -- The loop over the chunks, entered behind the role event.
  unfoldable pub stream_chunks :
      String → List String → Bool → Option ℕ → ℕ → InMemoryMetrics Float → Streamed Float
  stream_chunks model chunks broken (some zero) output_tokens m =
      cancel_stream model output_tokens m
  stream_chunks model [] broken none output_tokens m =
      finish_stream model broken none output_tokens m
  stream_chunks model [] broken (some (suc n)) output_tokens m =
      finish_stream model broken (some (suc n)) output_tokens m
  stream_chunks model (c ∷ cs) broken none output_tokens m =
      after (content_event c) (stream_chunks model cs broken none (output_tokens + token_count c) m)
  stream_chunks model (c ∷ cs) broken (some (suc n)) output_tokens m =
      after (content_event c)
        (stream_chunks model cs broken (some n) (output_tokens + token_count c) m)

  -- A client that takes no event never starts the generator.
  unfoldable pub stream_events : String → Chunks → Option ℕ → InMemoryMetrics Float → Streamed Float
  stream_events model source (some zero) m = record {
    events = [];
    metrics = m;
    output_tokens = 0;
    finish = unstarted;
  }
  stream_events model source (some (suc n)) m =
      after role_event (stream_chunks model source.chunks source.failed (some n) 0 m)
  stream_events model source none m =
      after role_event (stream_chunks model source.chunks source.failed none 0 m)
