-- ===== src/Openai/Replies.antt =====
-- What the adapter makes of the answers of the server.
use mac_llm_ops_lab.Prelude.{
  String, ◌≡◌, refl, ap, ◌∙◌, Bool, true, false, Option, none, some, List, [], ◌∷◌, ◌++◌,
  if◌then◌else◌, Bool-cases, inl, inr,
}
use mac_llm_ops_lab.Py.Str.{is_empty}
use mac_llm_ops_lab.Py.Dict.{Dict, get}
use mac_llm_ops_lab.Py.Value.{Value, null, bool, int, float, str, list, dict}
use mac_llm_ops_lab.Py.Result.{Result, ok, err, is_ok}
use mac_llm_ops_lab.App.Request.{Chunks}
use mac_llm_ops_lab.Openai.{
  HttpResponse, failure, body, normalize_model, json_body, ready, list_models, extract_sse_content,
  yield_chunk, stream_lines,
}

abbrev pub AllChunks : List String → Type 0
AllChunks [] = Unit
AllChunks (c ∷ cs) = (is_empty c ≡ false) × AllChunks cs

-- The chunks of two runs of lines: the second counts where the first does not fail.
abbrev pub joined : Chunks → Chunks → Chunks
joined first second =
    if first.failed
    then first
    else record { chunks = first.chunks ++ second.chunks; failed = second.failed }

yield-AllChunks :
    (content : Result String) (rest : Chunks)
    → AllChunks rest.chunks
    → AllChunks (yield_chunk content rest).chunks
yield-AllChunks (err e) rest a = tt
yield-AllChunks (ok chunk) rest a = elim (Bool-cases (is_empty chunk)) [
  | inl blank ↦ rw blank a
  | inr full ↦ rw full (full, a)
]

yield-joined :
    (content : Result String) (first second : Chunks)
    → yield_chunk content (joined first second) ≡ joined (yield_chunk content first) second
yield-joined (err e) first second = refl
yield-joined (ok chunk) first second = go (is_empty chunk) first.failed refl
  where
    go :
        (blank failed : Bool)
        → first.failed ≡ failed
        → (if blank
            then joined first second
            else record (joined first second) { chunks = chunk ∷ (joined first second).chunks })
          ≡ joined (if blank then first else record first { chunks = chunk ∷ first.chunks }) second
    go true failed e = refl
    go false true e = rw e refl
    go false false e = rw e refl

module _ {Float : Type 0} where
  -- Where the adapter says that it is ready, the same answer of the server gives a list of models.
  pub ready-list_models :
      (response : HttpResponse Float) → ready response ≡ true → is_ok (list_models response) ≡ true
  unfolding ready list_models json_body
  ready-list_models failure h = cc
  ready-list_models (body none) h = cc
  ready-list_models (body (some null)) h = cc
  ready-list_models (body (some (bool b))) h = cc
  ready-list_models (body (some (int n))) h = cc
  ready-list_models (body (some (float x))) h = cc
  ready-list_models (body (some (str s))) h = cc
  ready-list_models (body (some (list vs))) h = cc
  ready-list_models (body (some (dict fields))) h = refl

  -- A normalised model is normalised again to itself.
  pub normalize_model-normalize_model :
      (model : Dict String (Value Float))
      → normalize_model (normalize_model model) ≡ normalize_model model
  unfolding normalize_model get
  normalize_model-normalize_model model = refl

  module _ (json_loads : String → Option (Value Float)) where
    -- No chunk that the adapter yields is empty.
    pub stream_lines-AllChunks :
        (lines : List String) (broken : Bool)
        → AllChunks (stream_lines json_loads lines broken).chunks
    unfolding stream_lines
    stream_lines-AllChunks [] broken = tt
    stream_lines-AllChunks (line ∷ lines) broken =
        yield-AllChunks (extract_sse_content json_loads line) (stream_lines json_loads lines broken)
          (stream_lines-AllChunks lines broken)

    -- The lines of an answer can be read in two runs: a line that raises ends the stream as failed,
    -- with the chunks before it, and otherwise the chunks of the second run follow those of the first.
    pub stream_lines-append :
        (before after : List String) (broken : Bool)
        → stream_lines json_loads (before ++ after) broken
          ≡ joined (stream_lines json_loads before false) (stream_lines json_loads after broken)
    unfolding stream_lines
    stream_lines-append [] after broken = refl
    stream_lines-append (line ∷ before) after broken =
        ap (yield_chunk (extract_sse_content json_loads line))
          (stream_lines-append before after broken)
        ∙ yield-joined (extract_sse_content json_loads line) (stream_lines json_loads before false)
            (stream_lines json_loads after broken)
