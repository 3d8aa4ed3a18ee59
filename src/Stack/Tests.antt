-- ===== src/Stack/Tests.antt =====
-- What the plan of the stack says: its dependencies are services of the plan, and its ports on the
-- host are high and distinct.
use mac_llm_ops_lab.Prelude.{
  false, pos, leb_ℤ, ◌==◌, ◌&&◌, ◌||◌, ℕ, String, ◌≡◌, refl, Bool, true, none, some, List, [], ◌∷◌,
  all, elem, map, string_eq,
}
use mac_llm_ops_lab.Py.Dict.{Dict, keys, get}
use mac_llm_ops_lab.Py.Value.{Value, int, str, dict, Fields, fields_of}
use mac_llm_ops_lab.Stack.{
  api_service, docs_service, postgres_service, phoenix_service, open_webui_service,
  apple_silicon_backend_service,
}

abbrev fields_at : String → Fields ℕ → Dict String (Value ℕ)
fields_at name f = elim (get name (fields_of f)) [ none ↦ [] | some v ↦ inner v ]
  where
    inner : Value ℕ → Dict String (Value ℕ)
    inner (dict g) = fields_of g
    inner _ = []

abbrev services : List (Fields ℕ)
services =
    api_service ∷ docs_service ∷ postgres_service ∷ phoenix_service ∷ open_webui_service
    ∷ apple_silicon_backend_service ∷ []

abbrev name_of : Fields ℕ → String
name_of f = elim (get "name" (fields_of f)) [ none ↦ "" | some v ↦ text v ]
  where
    text : Value ℕ → String
    text (str s) = s
    text _ = ""

abbrev dependencies_named : Bool
dependencies_named =
    all (λ s. all (λ name. elem name (map name_of services)) (keys (fields_at "depends_on" s)))
      services

named : dependencies_named ≡ true
unfolding api_service docs_service postgres_service phoenix_service open_webui_service
    apple_silicon_backend_service get
named = refl

-- The port at which the host reaches a service: not the one inside the container.
abbrev is_high : String × Value ℕ → Bool
is_high (name, int port) = name == "container" || leb_ℤ (pos 20000) port && leb_ℤ port (pos 50000)
is_high (name, _) = false

abbrev ports_high : Bool
ports_high = all (λ s. all is_high (fields_at "ports" s)) services

high : ports_high ≡ true
unfolding api_service docs_service postgres_service phoenix_service open_webui_service
    apple_silicon_backend_service get
high = refl
