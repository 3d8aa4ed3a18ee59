-- ===== src/Contracts/Prometheus.antt =====
-- backend_contracts.py: the lines of a Prometheus exposition. `_SAMPLE_PATTERN` is written out as a
-- function; no part of a line fits two parts of the pattern, so nothing is tried twice. `is_digit`
-- is what `\d` matches.
pub mod Parts
pub mod Pattern
use Prim.Native.Char.{Char, code}
use mac_llm_ops_lab.Prelude.{
  ℕ, String, Bool, true, false, not, ◌&&◌, ◌||◌, Option, none, some, List, [], ◌∷◌, leb, eqb, ◌==◌,
  string_eq, ◌%◌, ◌+◌, if◌then◌else◌, foldl,
}
use mac_llm_ops_lab.Py.Str.{
  ◌<>◌, is_space, is_empty, lstrip, strip, splitlines, starts_with_char, partition, push,
}
use mac_llm_ops_lab.Py.Dict.{Dict, put}

abbrev pub is_letter : ℕ → Bool
is_letter c = leb b'a' c && leb c b'z' || leb b'A' c && leb c b'Z'

abbrev pub is_name_start : ℕ → Bool
is_name_start c = is_letter c || eqb c b'_' || eqb c b':'

abbrev pub is_name_char : ℕ → Bool
is_name_char c = is_name_start c || leb b'0' c && leb c b'9'

-- The longest part in front that has only such characters, and what follows it.
unfoldable pub span : (ℕ → Bool) → String → String × String
span p String.[] = (String.[], String.[])
span p (String.◌∷◌ c s) =
    let rest = span p s in
    if p (code c) then (String.◌∷◌ c rest.0, rest.1) else (String.[], String.◌∷◌ c s)

abbrev pub starts_in : (ℕ → Bool) → String → Bool
starts_in p String.[] = false
starts_in p (String.◌∷◌ c s) = p (code c)

abbrev pub tail_str : String → String
tail_str String.[] = String.[]
tail_str (String.◌∷◌ c s) = s

abbrev is_sign : ℕ → Bool
is_sign c = eqb c b'-' || eqb c b'+'

abbrev pub drop_sign : String → String
drop_sign s = if starts_in is_sign s then tail_str s else s

module _ (is_digit : ℕ → Bool) where
  -- `(?:[eE][-+]?\d+)?` to the end
  abbrev is_exponent : String → Bool
  is_exponent String.[] = true
  is_exponent (String.◌∷◌ c s) =
      (eqb (code c) b'e' || eqb (code c) b'E')
      && (let d = span is_digit (drop_sign s) in not (is_empty d.0) && is_empty d.1)

  -- `(?:\d+(?:\.\d*)?|\.\d+)` and the exponent, to the end
  abbrev is_number : String → Bool
  is_number s =
      let whole = span is_digit s in
      let fraction = span is_digit (tail_str whole.1) in
      if starts_with_char b'.' whole.1
      then not (is_empty whole.0 && is_empty fraction.0) && is_exponent fraction.1
      else not (is_empty whole.0) && is_exponent whole.1

  unfoldable pub is_value : String → Bool
  unfolding span
  is_value s = is_number (drop_sign s) || drop_sign s == "Inf" || s == "NaN"

  -- The value, after white space.
  unfoldable pub match_value : String → Option String
  match_value s =
      let value = lstrip s in if starts_in is_space s && is_value value then some value else none

  -- The labels between braces, if there are any, and the value.
  unfoldable pub match_labels : String → Option (String × String)
  unfolding span
  match_labels s =
      let inside = span (λ c. not (eqb c b'}')) (tail_str s) in
      if starts_with_char b'{' s
      then if starts_with_char b'}' inside.1
        then elim (match_value (tail_str inside.1)) [
          | none ↦ none
          | some value ↦ some (inside.0, value)
        ]
        else none
      else elim (match_value s) [ none ↦ none | some value ↦ some ("", value) ]

  -- `_SAMPLE_PATTERN.match(line)`: the name, the labels or "", and the value.
  unfoldable pub match_sample : String → Option (String × String × String)
  unfolding span
  match_sample line =
      let name = span is_name_char line in
      if starts_in is_name_start line
      then elim (match_labels name.1) [
        | none ↦ none
        | some (labels, value) ↦ some (name.0, labels, value)
      ]
      else none

-- `s.strip('"')`
abbrev lstrip_quote : String → String
lstrip_quote String.[] = String.[]
lstrip_quote (String.◌∷◌ c s) = if eqb (code c) b'"' then lstrip_quote s else String.◌∷◌ c s

abbrev cons_unless_quote : Char → String → String
cons_unless_quote c String.[] = if eqb (code c) b'"' then String.[] else String.◌∷◌ c String.[]
cons_unless_quote c (String.◌∷◌ d s) = String.◌∷◌ c (String.◌∷◌ d s)

abbrev rstrip_quote : String → String
rstrip_quote String.[] = String.[]
rstrip_quote (String.◌∷◌ c s) = cons_unless_quote c (rstrip_quote s)

unfoldable pub strip_quotes : String → String
strip_quotes s = rstrip_quote (lstrip_quote s)

-- An even number of quotes follows.
abbrev even_quotes : String → Bool
even_quotes String.[] = true
even_quotes (String.◌∷◌ c s) =
    let rest = even_quotes s in if eqb (code c) b'"' then not rest else rest

-- `re.split` at the commas that an even number of quotes follows
unfoldable pub split_labels : String → List String
split_labels String.[] = String.[] ∷ []
split_labels (String.◌∷◌ c s) =
    let rest = split_labels s in
    if eqb (code c) b',' && even_quotes s then String.[] ∷ rest else push c rest

unfoldable pub put_label : Dict String String → String → Dict String String
put_label parsed part =
    let (key, found, value) = partition b'=' part in
    put (strip key) (strip_quotes (strip value)) parsed

unfoldable pub parse_labels : String → Dict String String
parse_labels labels = if is_empty labels then [] else foldl put_label [] (split_labels labels)

pub record Sample (Float : Type 0) : Type 0 where
  pub name : String
  pub labels : Dict String String
  pub value : Float

module _ {Float : Type 0} (is_digit : ℕ → Bool) (inf neg_inf : Float)
    (to_float : String → Float) where
  unfoldable pub parse_float : String → Float
  parse_float value =
      if value == "+Inf" then inf else if value == "-Inf" then neg_inf else to_float value

  -- One line of the text, if it holds a sample.
  unfoldable pub parse_line : String → Option (Sample Float)
  parse_line raw_line =
      let line = strip raw_line in
      if is_empty line || starts_with_char b'#' line
      then none
      else elim (match_sample is_digit line) [
        | none ↦ none
        | some (name, labels, value) ↦
            some (record { name = name; labels = parse_labels labels; value = parse_float value })
      ]

  abbrev pub parse_lines : List String → List (Sample Float)
  parse_lines [] = []
  parse_lines (line ∷ lines) = elim (parse_line line) [
    | none ↦ parse_lines lines
    | some sample ↦ sample ∷ parse_lines lines
  ]

  unfoldable pub parse_prometheus_samples : String → List (Sample Float)
  parse_prometheus_samples metrics_text = parse_lines (splitlines metrics_text)
