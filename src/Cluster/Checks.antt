-- ===== src/Cluster/Checks.antt =====
-- cluster.py, the checks of single values. Each returns the value it accepts. A parameter that is
-- annotated `Sequence[str]` is a text or a sequence of objects. What `urlparse` demands of a host is
-- the parameter `host_ok`.
pub mod Accepted
pub mod Ports
use mac_llm_ops_lab.Prelude.{
  ℤ, pos, leb_ℤ, ltb_ℤ, ℕ, String, Bool, true, false, not, ◌&&◌, ◌||◌, Option, none, some, List, [],
  ◌∷◌, leb, all, if◌then◌else◌,
}
use mac_llm_ops_lab.Py.Str.{◌<>◌, strip, is_empty, starts_with}
use mac_llm_ops_lab.Py.Dict.{Dict}
use mac_llm_ops_lab.Py.Value.{Value, null, bool, int, float, str, list, dict}
use mac_llm_ops_lab.Py.Url.{url_port}
use mac_llm_ops_lab.Py.Sorted.{sort_items}
use mac_llm_ops_lab.Py.Result.{Result, ok, err, value_error, ◌>>=◌, ◌>>◌, raise_if, map_result}

pub data Strings (Float : Type 0) : Type 0 where
  one_text : String → Strings Float
  sequence : List (Value Float) → Strings Float

module _ {Float : Type 0} where
  unfoldable pub non_empty_string : Value Float → String → Result String
  non_empty_string (str s) field_name =
      if is_empty (strip s) then err (value_error (field_name <> " must be non-empty")) else ok s
  non_empty_string _ field_name = err (value_error (field_name <> " must be non-empty"))

  -- `tuple(_non_empty_string(value) for value in values)`
  abbrev pub each_non_empty : List (Value Float) → String → Result (List String)
  each_non_empty values field_name = map_result (λ value. non_empty_string value field_name) values

  unfoldable pub non_empty_strings : Strings Float → String → Result (List String)
  non_empty_strings (one_text s) field_name =
      err (value_error (field_name <> " must contain at least one value"))
  non_empty_strings (sequence []) field_name =
      err (value_error (field_name <> " must contain at least one value"))
  non_empty_strings (sequence (v ∷ vs)) field_name = each_non_empty (v ∷ vs) field_name

  unfoldable pub positive_int : Value Float → String → Result ℤ
  positive_int (int n) field_name =
      if leb_ℤ n (pos 0)
      then err (value_error (field_name <> " must be a positive integer"))
      else ok n
  positive_int _ field_name = err (value_error (field_name <> " must be a positive integer"))

  unfoldable pub non_negative_int : Value Float → String → Result ℤ
  non_negative_int (int n) field_name =
      if ltb_ℤ n (pos 0)
      then err (value_error (field_name <> " must be a non-negative integer"))
      else ok n
  non_negative_int _ field_name =
      err (value_error (field_name <> " must be a non-negative integer"))

  unfoldable pub boolean : Value Float → String → Result Bool
  boolean (bool b) field_name = ok b
  boolean _ field_name = err (value_error (field_name <> " must be a boolean"))

  unfoldable pub validated_url : Value Float → String → Result String
  validated_url value field_name = do
    text ← non_empty_string value field_name
    raise_if (not (starts_with text "http://" || starts_with text "https://"))
        (value_error (field_name <> " must be an HTTP URL"))
    ok text

abbrev pub is_high_port : ℕ → Bool
is_high_port port = leb 20000 port && leb port 50000

abbrev pub is_high_port_ℤ : ℤ → Bool
is_high_port_ℤ port = leb_ℤ (pos 20000) port && leb_ℤ port (pos 50000)

-- The check of what `parsed.port` gives.
abbrev pub check_port : Result (Option ℕ) → String → String → Result String
check_port (err e) text field_name = err (value_error (field_name <> " must include a valid port"))
check_port (ok none) text field_name =
    err (value_error (field_name <> " must include an explicit high port"))
check_port (ok (some port)) text field_name =
    if is_high_port port
    then ok text
    else err (value_error (field_name <> " port must stay in the 20000-50000 range"))

module _ {Float : Type 0} where
  -- One round of the loop over the ports.
  abbrev pub checked_port : String → Value Float → Result ℤ
  checked_port name (int port) =
      if is_high_port_ℤ port
      then ok port
      else err (value_error "ports must stay in the 20000-50000 range")
  checked_port name _ = err (value_error "ports must map names to integer port values")

  abbrev pub checked_ports : Dict String (Value Float) → Result (Dict String ℤ)
  checked_ports [] = ok []
  checked_ports ((name, port) ∷ ports) =
      non_empty_string {Float = Float} (str name) "port name" >>= λ _.
      checked_port name port >>= λ p. checked_ports ports >>= λ ps. ok ((name, p) ∷ ps)

  unfoldable pub validated_high_ports : Dict String (Value Float) → Result (Dict String ℤ)
  validated_high_ports [] = err (value_error "ports must be non-empty")
  validated_high_ports (p ∷ ports) = checked_ports (p ∷ ports) >>= λ ps. ok (sort_items ps)

module _ {Float : Type 0} (host_ok : String → Bool) where
  unfoldable pub validated_high_port_url : Value Float → String → Result String
  validated_high_port_url value field_name = do
    text ← validated_url value field_name
    check_port (url_port host_ok text) text field_name

  -- `_validated_health_urls`: the items of the mapping, sorted by name.
  abbrev pub checked_urls : Dict String (Value Float) → Result (Dict String String)
  checked_urls [] = ok []
  checked_urls ((name, value) ∷ urls) = do
    key ← non_empty_string {Float = Float} (str name) "health URL name"
    url ← validated_high_port_url value ("health_urls." <> name)
    rest ← checked_urls urls
    ok ((key, url) ∷ rest)

  unfoldable pub validated_health_urls : Dict String (Value Float) → Result (Dict String String)
  validated_health_urls [] = err (value_error "health_urls must be non-empty")
  validated_health_urls (u ∷ urls) = checked_urls (sort_items (u ∷ urls))
