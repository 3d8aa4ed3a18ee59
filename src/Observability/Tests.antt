-- ===== src/Observability/Tests.antt =====
-- Attributes and settings of concrete spans.
use mac_llm_ops_lab.Prelude.{pos, ℕ, String, ◌≡◌, refl, true, none, [], ◌∷◌, string_eq}
use mac_llm_ops_lab.Py.Dict.{Dict, get, put, contains}
use mac_llm_ops_lab.Py.Value.{Value, null, bool, int, str, list, dict, arr, obj}
use mac_llm_ops_lab.Observability.{
  flag, text, texts, first_chars, sanitize_attribute_value, sanitize_attributes,
}
use mac_llm_ops_lab.Observability.Sanitized.{
  KeysDiffer, IsShortAt, sanitized, sanitize_attributes-IsShort,
}

abbrev str_of : Value ℕ → String
str_of (str s) = s
str_of _ = "?"

abbrev given : Dict String (Value ℕ)
given =
    ("model", str "m")
    ∷ ("missing", null)
    ∷ ("options", dict (obj []))
    ∷ ("stop", list (arr (str "a" ∷ int (pos 3) ∷ [])))
    ∷ ("stream", bool true)
    ∷ []

given_sanitized :
    sanitize_attributes str_of given
    ≡ ("model", text "m") ∷ ("stop", texts ("a" ∷ "?" ∷ [])) ∷ ("stream", flag true) ∷ []
unfolding sanitize_attributes sanitize_attribute_value first_chars put
given_sanitized = refl

given_differ : KeysDiffer given
unfolding contains
given_differ = (refl, (refl, (refl, (refl, (refl, tt)))))

sanitize_attributes-IsShort_example :
    (get "model" (sanitize_attributes str_of given) ≡ sanitized str_of (get "model" given) none)
    × IsShortAt (get "model" (sanitize_attributes str_of given))
sanitize_attributes-IsShort_example = sanitize_attributes-IsShort str_of given "model" given_differ
