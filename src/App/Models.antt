-- ===== src/App/Models.antt =====
-- app.py: the list of models, `_filter_allowed_models` and `_model_response`.
pub mod Allowed
use mac_llm_ops_lab.Prelude.{
  ℕ, pos, String, Bool, true, false, ◌&&◌, Option, none, some, List, [], ◌∷◌, map, keep, elem,
  string_eq, if◌then◌else◌, is_nil,
}
use mac_llm_ops_lab.Py.Dict.{Dict, get, put}
use mac_llm_ops_lab.Py.Value.{Value, null, bool, int, float, str, list, dict}

module _ {Float : Type 0} where
  abbrev pub text_or : Option (Value Float) → String → String
  text_or (some (str s)) default = s
  text_or _ default = default

  -- A Boolean is an `int` too.
  abbrev created_or : Option (Value Float) → Value Float
  created_or (some (int n)) = int n
  created_or (some (bool b)) = bool b
  created_or _ = int (pos 0)

  unfoldable pub model_response : Dict String (Value Float) → Dict String (Value Float)
  model_response model = put "owned_by" (str (text_or (get "owned_by" model) "mac-llm-ops-lab")) (
      put "created" (created_or (get "created" model)) (
        put "object" (str (text_or (get "object" model) "model"))
          (put "id" (str (text_or (get "id" model) "")) model)))

  -- `isinstance(model.get("id"), str) and model["id"] in allowed`
  abbrev pub id_allowed : List String → Option (Value Float) → Bool
  id_allowed allowed (some (str s)) = elem s allowed
  id_allowed allowed _ = false

  unfoldable pub filter_allowed_models :
      List String → List (Dict String (Value Float)) → List (Dict String (Value Float))
  filter_allowed_models allowlist models =
      if is_nil allowlist
      then map model_response models
      else map model_response (keep (λ m. id_allowed allowlist (get "id" m)) models)
