-- ===== src/App/Fake.antt =====
-- The fake backend of batching.py as a backend of the application, and the choice of a backend in
-- cli.py.
use mac_llm_ops_lab.Prelude.{
  String, ◌≡◌, refl, true, false, List, [], ◌∷◌, ◌==◌, string_eq, ==_refl, if◌then◌else◌, arith,
}
use mac_llm_ops_lab.Py.Dict.{Dict}
use mac_llm_ops_lab.Py.Value.{Value, str}
use mac_llm_ops_lab.Py.Result.{ok}
use mac_llm_ops_lab.Batching.{
  FakeBatchedBackend, init, ready, generate, generate_many, fake_response, respond,
}
use mac_llm_ops_lab.Config.{Settings}
use mac_llm_ops_lab.App.Request.{ModelBackend}

unfoldable pub fake_models :
    {Float : Type 0} → FakeBatchedBackend → List (Dict String (Value Float))
fake_models b = (("id", str b.model_id) ∷ ("object", str "model") ∷ []) ∷ []

-- The options are ignored.
abbrev pub fake_backend : {Float : Type 0} → ModelBackend Float FakeBatchedBackend
fake_backend = record {
  ready = ready;
  list_models = fake_models;
  generate = λ prompt model options b. generate prompt model b;
}

-- The backend that `build_backend` makes: the fake one with its model, or the remote one with its
-- address, its key and its timeout.
pub data Backend (Float : Type 0) : Type 0 where
  fake : FakeBatchedBackend → Backend Float
  openai_compatible : Settings Float → Backend Float

unfoldable pub fake_model_id : List String → String
fake_model_id [] = "fake-local-model"
fake_model_id (model ∷ models) = model

unfoldable pub build_backend : {Float : Type 0} → Settings Float → Backend Float
build_backend settings =
    if settings.backend_kind == "openai-compatible"
    then openai_compatible settings
    else fake (init (fake_model_id settings.model_allowlist))

-- A loaded fake backend that is not closed answers every prompt for its own model, with the fake
-- response.
pub generate-ready :
    (prompt : String) (b : FakeBatchedBackend)
    → ready b ≡ true
    → (generate prompt b.model_id b).0 ≡ ok (fake_response b.model_id prompt)
unfolding generate generate_many ready respond
generate-ready prompt b h =
    let loaded : b.loaded ≡ true = ground arith in
    let opened : b.closed ≡ false = ground arith in rw (loaded, opened, ==_refl b.model_id) refl
