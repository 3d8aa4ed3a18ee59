-- ===== src/App/Models/Allowed.antt =====
-- The listed models are the allowed ones.
use mac_llm_ops_lab.Prelude.{
  String, ◌≡◌, refl, ap, ◌∙◌, false, Option, none, some, List, [], ◌∷◌, ◌++◌, map, keep, elem,
  string_eq, is_nil, Bool-cases, inl, inr,
}
use mac_llm_ops_lab.Py.Dict.{Dict, get, get-put, get-put_self}
use mac_llm_ops_lab.Py.Value.{Value, str}
use mac_llm_ops_lab.App.Models.{text_or, model_response, id_allowed, filter_allowed_models}

module _ {Float : Type 0} where
  -- The identifiers of a list of models, without those that are no text.
  abbrev pub text_id : Option (Value Float) → List String
  text_id (some (str s)) = s ∷ []
  text_id _ = []

  abbrev pub text_ids : List (Dict String (Value Float)) → List String
  text_ids [] = []
  text_ids (m ∷ ms) = text_id (get "id" m) ++ text_ids ms

  id-model_response :
      (m : Dict String (Value Float))
      → get "id" (model_response m) ≡ some (str (text_or (get "id" m) ""))
  unfolding model_response
  id-model_response m =
      get-put "id" "owned_by" _ _
      ∙ get-put "id" "created" _ _
      ∙ get-put "id" "object" _ _
      ∙ get-put_self "id" _ m

  listed :
      (allow : List String) (ms : List (Dict String (Value Float)))
      → text_ids (map model_response (keep (λ m. id_allowed allow (get "id" m)) ms))
        ≡ keep (λ s. elem s allow) (text_ids ms)
  listed allow [] = refl
  listed allow (m ∷ ms) = go (get "id" m) refl (listed allow ms)
    where
      go :
          (o : Option (Value Float))
          → get "id" m ≡ o
          → text_ids (map model_response (keep (λ m. id_allowed allow (get "id" m)) ms))
            ≡ keep (λ s. elem s allow) (text_ids ms)
          → text_ids (map model_response (keep (λ m. id_allowed allow (get "id" m)) (m ∷ ms)))
            ≡ keep (λ s. elem s allow) (text_ids (m ∷ ms))
      go none e rest = rw e rest
      go (some (str s)) e rest = elim (Bool-cases (elem s allow)) [
        | inl kept ↦ rw (e, kept) (rw (id-model_response m, e) (ap (λ ss. s ∷ ss) rest))
        | inr dropped ↦ rw (e, dropped) rest
      ]
      go (some v) e rest = rw e rest

  -- With an allowlist, the listed identifiers are those of the backend's models, in their order,
  -- that the allowlist holds; a model whose identifier is no text is left out.
  pub text_ids-filter_allowed_models :
      (allow : List String) (models : List (Dict String (Value Float)))
      → is_nil allow ≡ false
      → text_ids (filter_allowed_models allow models) ≡ keep (λ s. elem s allow) (text_ids models)
  unfolding filter_allowed_models
  text_ids-filter_allowed_models allow models h = rw h (listed allow models)
