-- ===== src/App/Tests.antt =====
-- The application on the fake backend, and the theorems at concrete inputs.
use mac_llm_ops_lab.Prelude.{
  ℕ, String, ◌≡◌, refl, true, false, none, some, List, [], ◌∷◌, keep, elem, sum_of, string_eq,
}
use mac_llm_ops_lab.Py.Dict.{Dict}
use mac_llm_ops_lab.Py.Float.{milli}
use mac_llm_ops_lab.Py.Value.{Value, null, str}
use mac_llm_ops_lab.Py.Result.{ok}
use mac_llm_ops_lab.Metrics.{empty, run}
use mac_llm_ops_lab.Batching.{FakeBatchedBackend, init, ready, generate, fake_response}
use mac_llm_ops_lab.App.Request.{
  ChatMessage, ChatCompletionRequest, Chunks, is_allowed, last_user_message,
}
use mac_llm_ops_lab.App.Request.Prompt.{last_user_message-append}
use mac_llm_ops_lab.App.Models.{filter_allowed_models}
use mac_llm_ops_lab.App.Models.Allowed.{text_ids, text_ids-filter_allowed_models}
use mac_llm_ops_lab.App.Stream.{stream_events, take}
use mac_llm_ops_lab.App.Stream.Delivered.{whole, recorded_of, event_tokens, stream_events_lem}
use mac_llm_ops_lab.App.Chat.{chat_completions, serve}
use mac_llm_ops_lab.App.Chat.Outcome.{route, outcome, serve-chat_completions}
use mac_llm_ops_lab.App.Fake.{fake_backend, generate-ready}

abbrev user : ChatMessage
user = record { role = "user"; content = "hello there" }

abbrev system : ChatMessage
system = record { role = "system"; content = "be brief" }

abbrev payload : ChatCompletionRequest ℕ
payload = record {
  model = "m";
  messages = system ∷ user ∷ system ∷ [];
  stream = false;
  temperature = none;
  top_p = none;
  max_tokens = none;
  max_completion_tokens = none;
  stop = none;
  seed = none;
  logit_bias = none;
  user = some (str "u");
  tools = none;
  tool_choice = none;
  stream_options = some (some true);
}

abbrev backend : FakeBatchedBackend
backend = record (init "m") { loaded = true }

last_user_message-append_test : last_user_message (system ∷ user ∷ system ∷ []) ≡ ok "hello there"
last_user_message-append_test = last_user_message-append (system ∷ []) (system ∷ []) user refl refl

serve-chat_completions_example :
    let o =
      outcome {Float = ℕ} 7 payload "hello there"
        (is_allowed ("m" ∷ []) "m")
        false
        backend
        (generate "hello there" "m" backend) in
    serve milli route "POST" 7
      (chat_completions fake_backend ("m" ∷ []) payload backend (empty {Float = ℕ}))
    ≡ (ok o.response, o.backend, run milli (empty {Float = ℕ}) o.events)
serve-chat_completions_example =
    serve-chat_completions milli fake_backend ("m" ∷ []) 7 payload "hello there" backend empty
      last_user_message-append_test

abbrev source : Chunks
source = record { chunks = "one two" ∷ "three" ∷ []; failed = true }

-- A client that goes behind the first chunk.
stream_events_lem_example :
    let s = stream_events "m" source (some 2) (empty {Float = ℕ}) in
    (s.events ≡ take (some 2) (whole source))
    × (s.metrics ≡ run milli (empty {Float = ℕ}) (recorded_of "m" source (some 2)))
    × (s.output_tokens ≡ sum_of event_tokens s.events)
stream_events_lem_example = stream_events_lem milli "m" source (some 2) empty

abbrev listed : List (Dict String (Value ℕ))
listed =
    (("id", str "b") ∷ [])
    ∷ (("id", null) ∷ [])
    ∷ (("owned_by", str "me") ∷ ("id", str "a") ∷ [])
    ∷ []

text_ids-filter_allowed_models_example :
    text_ids (filter_allowed_models ("a" ∷ []) listed)
    ≡ keep (λ s. elem s ("a" ∷ [])) (text_ids listed)
text_ids-filter_allowed_models_example = text_ids-filter_allowed_models ("a" ∷ []) listed refl

generate-ready_test : (generate "hi" "m" backend).0 ≡ ok (fake_response "m" "hi")
unfolding ready init
generate-ready_test = generate-ready "hi" backend refl
