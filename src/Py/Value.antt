-- ===== src/Py/Value.antt =====
-- Python objects, as far as the validators tell them apart: what a JSON text can hold. A mapping has
-- texts for its keys. `Float` is the type of `float`.
use mac_llm_ops_lab.Prelude.{ℤ, String, Bool, List, [], ◌∷◌, string_eq}
use mac_llm_ops_lab.Py.Dict.{Dict}

mutual
  pub data Value (Float : Type 0) : Type 0 where
    null : Value Float
    bool : Bool → Value Float
    int : ℤ → Value Float
    float : Float → Value Float
    str : String → Value Float
    list : Items Float → Value Float
    dict : Fields Float → Value Float

  pub data Items (Float : Type 0) : Type 0 where
    nil : Items Float
    cons : Value Float → Items Float → Items Float

  pub data Fields (Float : Type 0) : Type 0 where
    end : Fields Float
    field : String → Value Float → Fields Float → Fields Float

module _ {Float : Type 0} where
  -- The elements of a list, and the items of a mapping.
  abbrev pub items_of : Items Float → List (Value Float)
  items_of nil = []
  items_of (cons v vs) = v ∷ items_of vs

  abbrev pub fields_of : Fields Float → Dict String (Value Float)
  fields_of end = []
  fields_of (field k v fs) = (k, v) ∷ fields_of fs

  -- A list and a mapping, from their elements and their items.
  abbrev pub arr : List (Value Float) → Items Float
  arr [] = nil
  arr (v ∷ vs) = cons v (arr vs)

  abbrev pub obj : Dict String (Value Float) → Fields Float
  obj [] = end
  obj ((k, v) ∷ d) = field k v (obj d)
