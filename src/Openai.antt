-- ===== src/Openai.antt =====
-- openai_compatible_backend.py: `OpenAICompatibleBackend`. The HTTP client is outside: of a response
-- the program sees that it failed, or its body as a JSON value, `none` where the body is no JSON.
-- `json_loads` is Python's `json.loads`, with `none` where it raises `JSONDecodeError`.
pub mod Payload
pub mod Replies
mod Tests
use Prim.Native.Char.{Char, code}
use mac_llm_ops_lab.Prelude.{
  ℕ, zero, suc, eqb, String, Bool, true, false, not, Option, none, some, List, [], ◌∷◌, map, ◌==◌,
  string_eq, if◌then◌else◌,
}
use mac_llm_ops_lab.Py.Str.{◌<>◌, is_empty, strip, starts_with}
use mac_llm_ops_lab.Py.Dict.{Dict, get, put}
use mac_llm_ops_lab.Py.Value.{
  Value, null, bool, int, float, str, list, dict, Items, nil, cons, Fields, end, field, items_of,
  fields_of,
}
use mac_llm_ops_lab.Py.Result.{Result, ok, err, value_error, attribute_error, httpx_error, ◌>>=◌}
use mac_llm_ops_lab.App.Request.{Chunks}

pub data HttpResponse (Float : Type 0) : Type 0 where
  failure : HttpResponse Float
  body : Option (Value Float) → HttpResponse Float

pub record OpenAiCompatibleBackend : Type 0 where
  pub base_url : String
  pub api_key : Option String

-- `text.lstrip("/")` and `text.rstrip("/")`
unfoldable pub lstrip_slash : String → String
lstrip_slash String.[] = String.[]
lstrip_slash (String.◌∷◌ c s) =
    let rest = lstrip_slash s in if eqb (code c) b'/' then rest else String.◌∷◌ c s

abbrev cons_unless : Bool → Char → String → String
cons_unless drop c String.[] = if drop then String.[] else String.◌∷◌ c String.[]
cons_unless drop c (String.◌∷◌ d s) = String.◌∷◌ c (String.◌∷◌ d s)

unfoldable pub rstrip_slash : String → String
rstrip_slash String.[] = String.[]
rstrip_slash (String.◌∷◌ c s) = cons_unless (eqb (code c) b'/') c (rstrip_slash s)

unfoldable pub make : String → Option String → OpenAiCompatibleBackend
make base_url api_key = record { base_url = rstrip_slash base_url; api_key = api_key }

unfoldable pub url : OpenAiCompatibleBackend → String → String
url self path = self.base_url <> "/" <> lstrip_slash path

unfoldable pub headers : OpenAiCompatibleBackend → Dict String String
headers self = elim self.api_key [ none ↦ [] | some key ↦ ("Authorization", "Bearer " <> key) ∷ [] ]

-- `d.update(options)`
abbrev pub update : {V : Type 0} → Dict String V → Dict String V → Dict String V
update d [] = d
update d ((k, v) ∷ options) = update (put k v d) options

-- `text.removeprefix("data: ")`, behind the check that it stands there.
abbrev drop : ℕ → String → String
drop zero s = s
drop (suc n) String.[] = String.[]
drop (suc n) (String.◌∷◌ c s) = drop n s

-- One round of the loop over the lines of a stream.
abbrev pub yield_chunk : Result String → Chunks → Chunks
yield_chunk (err e) rest = record { chunks = []; failed = true }
yield_chunk (ok chunk) rest =
    if is_empty chunk then rest else record rest { chunks = chunk ∷ rest.chunks }

module _ {Float : Type 0} where
  abbrev pub user_message : String → Value Float
  user_message prompt =
      list (cons (dict (field "role" (str "user") (field "content" (str prompt) end))) nil)

  unfoldable pub chat_completion_payload :
      String → String → Bool → Dict String (Value Float) → Dict String (Value Float)
  chat_completion_payload prompt model stream options =
      update
        (("model", str model) ∷ ("messages", user_message prompt) ∷ ("stream", bool stream) ∷ [])
        options

  abbrev or_default : Value Float → Option (Value Float) → Value Float
  or_default default none = default
  or_default default (some v) = v

  -- `payload.get(name, default)` of an object; another value has no `get`.
  abbrev pub get_or : String → Value Float → Value Float → Result (Value Float)
  get_or name default (dict fields) = ok (or_default default (get name (fields_of fields)))
  get_or name default _ = err attribute_error

  abbrev pub text_or : Option (Value Float) → String → String
  text_or (some (str s)) default = s
  text_or _ default = default

  unfoldable pub normalize_model : Dict String (Value Float) → Dict String (Value Float)
  normalize_model model =
      ("id", str (text_or (get "id" model) ""))
      ∷ ("object", str (text_or (get "object" model) "model"))
      ∷ []

  abbrev normalized : List (Value Float) → List (Dict String (Value Float))
  normalized [] = []
  normalized (dict fields ∷ vs) = normalize_model (fields_of fields) ∷ normalized vs
  normalized (_ ∷ vs) = normalized vs

  abbrev is_list : Value Float → Bool
  is_list (list _) = true
  is_list _ = false

  abbrev models_of : Value Float → List (Dict String (Value Float))
  models_of (list items) = normalized (items_of items)
  models_of _ = []

  -- Every exception of the `try` is one of those that `ready` catches.
  abbrev is_ready : Result (Value Float) → Bool
  is_ready (ok data_field) = is_list data_field
  is_ready (err e) = false

  unfoldable pub json_body : HttpResponse Float → Result (Value Float)
  json_body failure = err httpx_error
  json_body (body none) = err (value_error "invalid JSON")
  json_body (body (some value)) = ok value

  unfoldable pub ready : HttpResponse Float → Bool
  ready response = is_ready (json_body response >>= get_or "data" null)

  unfoldable pub list_models : HttpResponse Float → Result (List (Dict String (Value Float)))
  list_models response =
      json_body response >>= get_or "data" (list nil) >>= λ models. ok (models_of models)

  -- `_first_text_value`: the first of the fields that is a text and not empty.
  unfoldable pub first_text_value : Dict String (Value Float) → List String → String
  first_text_value payload [] = ""
  first_text_value payload (name ∷ names) =
      let rest = first_text_value payload names in
      let text = text_or (get name payload) "" in if is_empty text then rest else text

  -- `choices[0][key]`, where each has the shape that is looked for.
  abbrev text_at : Value Float → String
  text_at (dict fields) = first_text_value (fields_of fields) ("content" ∷ "reasoning_content" ∷ [])
  text_at _ = ""

  abbrev in_choice : String → Value Float → String
  in_choice key (dict fields) = elim (get key (fields_of fields)) [ none ↦ "" | some v ↦ text_at v ]
  in_choice key _ = ""

  abbrev first_choice : String → Value Float → String
  first_choice key (list (cons choice _)) = in_choice key choice
  first_choice key _ = ""

  unfoldable pub extract_completion_content : Value Float → Result String
  extract_completion_content payload =
      get_or "choices" (list nil) payload >>= λ choices. ok (first_choice "message" choices)

  unfoldable pub generate : HttpResponse Float → Result String
  generate response = json_body response >>= extract_completion_content

  module _ (json_loads : String → Option (Value Float)) where
    abbrev sse_payload : Option (Value Float) → Result String
    sse_payload none = ok ""
    sse_payload (some payload) =
        get_or "choices" (list nil) payload >>= λ choices. ok (first_choice "delta" choices)

    unfoldable pub extract_sse_content : String → Result String
    extract_sse_content line =
        let text = strip (drop 6 line) in
        if not (starts_with line "data: ")
        then ok ""
        else if text == "[DONE]"
        then ok ""
        else sse_payload (json_loads text)

    -- The loop over the lines of the response, of which `broken` says whether its transport fails
    -- behind the last of them.
    unfoldable pub stream_lines : List String → Bool → Chunks
    stream_lines [] broken = record { chunks = []; failed = broken }
    stream_lines (line ∷ lines) broken =
        yield_chunk (extract_sse_content line) (stream_lines lines broken)
