-- ===== src/Openai/Payload.antt =====
-- The payload that is sent for a chat request: its own fields are not overridden.
use mac_llm_ops_lab.Prelude.{
  String, ◌≡◌, refl, ◌∙◌, Bool, false, Option, none, some, [], ◌∷◌, elem, ◌==◌, string_eq, arith,
}
use mac_llm_ops_lab.Py.Dict.{Dict, get, put, contains, keys, get-put}
use mac_llm_ops_lab.Py.Value.{Value, bool, str}
use mac_llm_ops_lab.App.Request.{
  ChatCompletionRequest, options_of, option_fields, generation_options,
}
use mac_llm_ops_lab.Openai.{update, user_message, chat_completion_payload}

get-update :
    {V : Type 0} (k : String) (d options : Dict String V)
    → contains k options ≡ false
    → get k (update d options) ≡ get k d
unfolding contains
get-update k d [] h = refl
get-update k d ((j, v) ∷ options) h =
    let here : (k == j) ≡ false = ground arith in
    get-update k (put j v d) options (ground arith) ∙ get-put k j v d ∙ rw here refl

module _ {Float : Type 0} where
  contains-options_of :
      (k : String) (fields : Dict String (Option (Value Float)))
      → elem k (keys fields) ≡ false
      → contains k (options_of fields) ≡ false
  unfolding contains
  contains-options_of k [] h = refl
  contains-options_of k ((name, none) ∷ fields) h = contains-options_of k fields (ground arith)
  contains-options_of k ((name, some v) ∷ fields) h =
      let rest = contains-options_of k fields (ground arith) in ground arith

  -- The options of a request never override the model, the prompt or the kind of the request that
  -- the adapter sends.
  pub payload-generation_options :
      (prompt model : String) (stream : Bool) (p : ChatCompletionRequest Float)
      → let sent = chat_completion_payload prompt model stream (generation_options p) in
        (get "model" sent ≡ some (str model))
        × (get "messages" sent ≡ some (user_message prompt))
        × (get "stream" sent ≡ some (bool stream))
  unfolding chat_completion_payload generation_options get
  payload-generation_options prompt model stream p = (
    get-update "model" _ _ (contains-options_of "model" (option_fields p) refl),
    get-update "messages" _ _ (contains-options_of "messages" (option_fields p) refl),
    get-update "stream" _ _ (contains-options_of "stream" (option_fields p) refl),
  )
