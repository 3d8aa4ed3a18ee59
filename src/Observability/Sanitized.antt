-- ===== src/Observability/Sanitized.antt =====
-- What is left of attributes that are handed to the tracer.
use mac_llm_ops_lab.Prelude.{
  ℕ, zero, suc, ◌≤◌, String, ◌≡◌, refl, ap, ◌∙◌, true, false, Option, none, some, List, [], ◌∷◌,
  All, map, arith, ◌==◌, string_eq, Bool-cases, inl, inr,
}
use mac_llm_ops_lab.Py.Dict.{Dict, get, contains, get-put}
use mac_llm_ops_lab.Py.Regex.{length_str}
use mac_llm_ops_lab.Py.Value.{Value, str, list, items_of}
use mac_llm_ops_lab.Observability.{
  AttributeValue, text, texts, Attributes, first_chars, sanitize_attribute_value, put_some,
  sanitize_items, sanitize_attributes,
}

-- Each key stands once, as in every mapping.
abbrev pub KeysDiffer : {V : Type 0} → Dict String V → Type 0
KeysDiffer [] = Unit
KeysDiffer ((k, v) ∷ d) = (contains k d ≡ false) × KeysDiffer d

-- A value whose texts are at most 256 characters long.
abbrev pub IsShort : {Float : Type 0} → AttributeValue Float → Type 0
IsShort (text s) = length_str s ≤ 256
IsShort (texts ts) = All (λ s. length_str s ≤ 256) ts
IsShort _ = Unit

abbrev pub IsShortAt : {Float : Type 0} → Option (AttributeValue Float) → Type 0
IsShortAt none = Unit
IsShortAt (some a) = IsShort a

length-first_chars : (n : ℕ) (s : String) → length_str (first_chars n s) ≤ n
unfolding first_chars
length-first_chars zero s = omega arith
length-first_chars (suc n) String.[] = omega arith
length-first_chars (suc n) (String.◌∷◌ c s) = omega (arith, length-first_chars n s)

not_contains-get :
    {V : Type 0} (k : String) (d : Dict String V) → contains k d ≡ false → get k d ≡ none
unfolding contains get
not_contains-get k [] h = refl
not_contains-get k ((j, v) ∷ d) h = ground (arith, not_contains-get k d)

abbrev pub first_some : {A : Type 0} → Option A → Option A → Option A
first_some none before = before
first_some (some a) before = some a

module _ {Float : Type 0} (str_of : Value Float → String) where
  short_texts :
      {A : Type 0} (f : A → String) (xs : List A)
      → All (λ s. length_str s ≤ 256) (map (λ x. first_chars 256 (f x)) xs)
  short_texts f [] = tt
  short_texts f (x ∷ xs) = (length-first_chars 256 (f x), short_texts f xs)

  short_value : (v : Value Float) → IsShortAt (sanitize_attribute_value str_of v)
  unfolding sanitize_attribute_value
  short_value (str s) = length-first_chars 256 s
  short_value (list items) = short_texts str_of (items_of items)
  short_value _ = tt

  -- What stands at a key of the attributes, sanitized, or else what stood there before.
  abbrev pub sanitized :
      Option (Value Float) → Option (AttributeValue Float) → Option (AttributeValue Float)
  sanitized none before = before
  sanitized (some v) before = first_some (sanitize_attribute_value str_of v) before

  get-put_some_self :
      (k j : String) (a : Option (AttributeValue Float)) (d : Attributes Float)
      → (k == j) ≡ true
      → get k (put_some str_of j a d) ≡ first_some a (get k d)
  get-put_some_self k j none d h = refl
  get-put_some_self k j (some a) d h = get-put k j a d ∙ rw h refl

  get-put_some :
      (k j : String) (a : Option (AttributeValue Float)) (d : Attributes Float)
      → (k == j) ≡ false
      → get k (put_some str_of j a d) ≡ get k d
  get-put_some k j none d h = refl
  get-put_some k j (some a) d h = get-put k j a d ∙ rw h refl

  get-sanitize_items :
      (k : String) (items : Dict String (Value Float)) (safe : Attributes Float)
      → KeysDiffer items
      → get k (sanitize_items str_of items safe) ≡ sanitized (get k items) (get k safe)
  unfolding get
  get-sanitize_items k [] safe differ = refl
  get-sanitize_items k ((j, v) ∷ items) safe differ =
      let next = put_some str_of j (sanitize_attribute_value str_of v) safe in
      let ih = get-sanitize_items k items next differ.1 in
      elim (Bool-cases (k == j)) [
        | inl here ↦
            let gone =
              not_contains-get k items
                (ap (λ x. contains x items) ((string_eq.beq_iff k j).0 here) ∙ differ.0) in
            ih
            ∙ ap (λ x. sanitized x (get k next)) gone
            ∙ get-put_some_self k j (sanitize_attribute_value str_of v) safe here
            ∙ rw here refl
        | inr there ↦
            ih
            ∙ ap (sanitized (get k items))
                (get-put_some k j (sanitize_attribute_value str_of v) safe there)
            ∙ rw there refl
      ]

  sanitized-IsShort : (v : Option (Value Float)) → IsShortAt (sanitized v none)
  sanitized-IsShort none = tt
  sanitized-IsShort (some v) = shorter (sanitize_attribute_value str_of v) (short_value v)
    where
      shorter : (a : Option (AttributeValue Float)) → IsShortAt a → IsShortAt (first_some a none)
      shorter none h = h
      shorter (some a) h = h

  -- Sanitized attributes hold at a key what its value is sanitized to, and nothing where the key is
  -- missing or its value is `None` or no value that a span takes; and every text in them is at most
  -- 256 characters long.
  pub sanitize_attributes-IsShort :
      (attributes : Dict String (Value Float)) (key : String)
      → KeysDiffer attributes
      → (get key (sanitize_attributes str_of attributes) ≡ sanitized (get key attributes) none)
        × IsShortAt (get key (sanitize_attributes str_of attributes))
  unfolding sanitize_attributes get
  sanitize_attributes-IsShort attributes key differ =
      let same = get-sanitize_items key attributes [] differ in
      (same, rw same (sanitized-IsShort (get key attributes)))
