-- ===== src/Openai/Tests.antt =====
-- The adapter on concrete answers.
use mac_llm_ops_lab.Prelude.{
  ℕ, String, ◌≡◌, refl, true, false, Option, none, some, List, [], ◌∷◌, ◌++◌, string_eq,
  if◌then◌else◌, ◌==◌,
}
use mac_llm_ops_lab.Py.Str.{is_space, strip, lstrip, rstrip}
use mac_llm_ops_lab.Py.Dict.{Dict, get}
use mac_llm_ops_lab.Py.Value.{Value, bool, float, str, list, dict, nil, cons, end, field}
use mac_llm_ops_lab.Py.Result.{is_ok}
use mac_llm_ops_lab.App.Request.{ChatCompletionRequest, generation_options}
use mac_llm_ops_lab.Openai.{
  HttpResponse, body, user_message, chat_completion_payload, normalize_model, json_body, ready,
  list_models, first_text_value, extract_sse_content, stream_lines, make, url, lstrip_slash,
  rstrip_slash,
}
use mac_llm_ops_lab.Openai.Payload.{payload-generation_options}
use mac_llm_ops_lab.Openai.Replies.{
  AllChunks, joined, ready-list_models, normalize_model-normalize_model, stream_lines-AllChunks,
  stream_lines-append,
}

urls : url (make "http://host:28100/v1//" none) "/models" ≡ "http://host:28100/v1/models"
unfolding url make lstrip_slash rstrip_slash
urls = refl

-- A body that is an object with one choice, whose delta has this content.
abbrev delta : String → Value ℕ
delta content = dict (
    field "choices"
      (list (cons (dict (field "delta" (dict (field "content" (str content) end)) end)) nil)) end)

abbrev loads : String → Option (Value ℕ)
loads text =
    if text == "a" then some (delta "hello") else if text == "3" then some (bool true) else none

abbrev lines : List String
lines = "data: a" ∷ ": comment" ∷ "data: broken" ∷ "data: [DONE]" ∷ []

streams :
    stream_lines loads (lines ++ lines) false
    ≡ record { chunks = "hello" ∷ "hello" ∷ []; failed = false }
unfolding stream_lines extract_sse_content first_text_value get strip lstrip rstrip is_space
streams = refl

-- A line whose JSON is no object ends the stream.
stream_fails :
    stream_lines loads ("data: a" ∷ "data: 3" ∷ "data: a" ∷ []) false
    ≡ record { chunks = "hello" ∷ []; failed = true }
unfolding stream_lines extract_sse_content first_text_value get strip lstrip rstrip is_space
stream_fails = refl

stream_lines-AllChunks_test : AllChunks (stream_lines loads lines true).chunks
stream_lines-AllChunks_test = stream_lines-AllChunks loads lines true

stream_lines-append_test :
    stream_lines loads (lines ++ lines) false
    ≡ joined (stream_lines loads lines false) (stream_lines loads lines false)
stream_lines-append_test = stream_lines-append loads lines lines false

abbrev answer : HttpResponse ℕ
answer = body (some (dict (field "data" (list (cons (dict (field "id" (str "m") end)) nil)) end)))

ready-list_models_test : is_ok (list_models answer) ≡ true
unfolding ready json_body get
ready-list_models_test = ready-list_models answer refl

abbrev model : Dict String (Value ℕ)
model = ("id", str "m") ∷ []

normalize_model-normalize_model_test :
    normalize_model (normalize_model model) ≡ normalize_model model
normalize_model-normalize_model_test = normalize_model-normalize_model model

abbrev payload : ChatCompletionRequest ℕ
payload = record {
  model = "m";
  messages = record { role = "user"; content = "hello" } ∷ [];
  stream = true;
  temperature = some (float 7);
  top_p = none;
  max_tokens = none;
  max_completion_tokens = none;
  stop = none;
  seed = none;
  logit_bias = none;
  user = none;
  tools = none;
  tool_choice = none;
  stream_options = some (some true);
}

payload-generation_options_example :
    let sent = chat_completion_payload "hello" "m" true (generation_options payload) in
    (get "model" sent ≡ some (str "m"))
    × (get "messages" sent ≡ some (user_message "hello"))
    × (get "stream" sent ≡ some (bool true))
payload-generation_options_example = payload-generation_options "hello" "m" true payload
