-- ===== src/Py/Str.antt =====
-- Python's `str` methods, over the code points of a text.
pub mod Laws
use Prim.Native.Char.{Char, code}
use text.Mathlib.Text.{starts_with as text_starts_with}
use mac_llm_ops_lab.Prelude.{
  ltb, ◌+◌, ℕ, String, Bool, true, false, not, ◌&&◌, ◌||◌, List, [], ◌∷◌, leb, eqb, string_eq,
  if◌then◌else◌, ◌==◌, length,
}

infixr 65 ◌<>◌
-- `s + t`
abbrev pub ◌<>◌ : String → String → String
String.[] <> t = t
String.◌∷◌ c s <> t = String.◌∷◌ c (s <> t)

-- `str.isspace` of one character
unfoldable pub is_space : ℕ → Bool
is_space c =
    leb 9 c && leb c 13
    || leb 28 c && leb c 32
    || eqb c 133
    || eqb c 160
    || eqb c 5760
    || leb 8192 c && leb c 8202
    || eqb c 8232
    || eqb c 8233
    || eqb c 8239
    || eqb c 8287
    || eqb c 12288

unfoldable pub lstrip : String → String
lstrip String.[] = String.[]
lstrip (String.◌∷◌ c s) = if is_space (code c) then lstrip s else String.◌∷◌ c s

abbrev pub cons_unless : Bool → Char → String → String
cons_unless drop c String.[] = if drop then String.[] else String.◌∷◌ c String.[]
cons_unless drop c (String.◌∷◌ d s) = String.◌∷◌ c (String.◌∷◌ d s)

unfoldable pub rstrip : String → String
rstrip String.[] = String.[]
rstrip (String.◌∷◌ c s) = cons_unless (is_space (code c)) c (rstrip s)

unfoldable pub strip : String → String
unfolding lstrip rstrip
strip s = rstrip (lstrip s)

-- `not s`
abbrev pub is_empty : String → Bool
is_empty String.[] = true
is_empty (String.◌∷◌ _ _) = false

-- A character in front of the first text of a list.
abbrev pub push : Char → List String → List String
push c [] = String.◌∷◌ c String.[] ∷ []
push c (w ∷ ws) = String.◌∷◌ c w ∷ ws

abbrev starts_word : String → Bool
starts_word String.[] = false
starts_word (String.◌∷◌ c s) = not (is_space (code c))

-- `s.split()`
unfoldable pub split : String → List String
split String.[] = []
split (String.◌∷◌ c s) =
    let rest = split s in
    if is_space (code c)
    then rest
    else if starts_word s
    then push c rest
    else String.◌∷◌ c String.[] ∷ rest

-- `len(s.split())`
unfoldable pub token_count : String → ℕ
unfolding split
token_count s = length (split s)

-- `s.split(sep)`, for a separator of one character
unfoldable pub split_on : ℕ → String → List String
split_on sep String.[] = String.[] ∷ []
split_on sep (String.◌∷◌ c s) =
    let rest = split_on sep s in if eqb (code c) sep then String.[] ∷ rest else push c rest

abbrev is_line_break : ℕ → Bool
is_line_break c =
    leb 10 c && leb c 13 || leb 28 c && leb c 30 || eqb c 133 || eqb c 8232 || eqb c 8233

abbrev starts_with_lf : String → Bool
starts_with_lf String.[] = false
starts_with_lf (String.◌∷◌ c s) = eqb (code c) 10

-- `s.splitlines()`; a CR before an LF leaves the break to the LF
unfoldable pub splitlines : String → List String
splitlines String.[] = []
splitlines (String.◌∷◌ c s) =
    let rest = splitlines s in
    if eqb (code c) 13 && starts_with_lf s
    then rest
    else if is_line_break (code c)
    then String.[] ∷ rest
    else push c rest

-- `s.startswith(prefix)`
abbrev pub starts_with : String → String → Bool
starts_with s prefix = text_starts_with s prefix

-- `s.endswith(suffix)`: some tail of `s` is `suffix`
unfoldable pub ends_with : String → String → Bool
ends_with String.[] suffix = is_empty suffix
ends_with (String.◌∷◌ c s) suffix = String.◌∷◌ c s == suffix || ends_with s suffix

-- `s.partition(sep)`, for a separator of one character: before it, whether it stands there, after
unfoldable pub partition : ℕ → String → String × Bool × String
partition sep String.[] = (String.[], false, String.[])
partition sep (String.◌∷◌ c s) =
    let rest = partition sep s in
    if eqb (code c) sep then (String.[], true, s) else (String.◌∷◌ c rest.0, rest.1, rest.2)

-- `sep.join(parts)`
unfoldable pub join : String → List String → String
join sep [] = String.[]
join sep (x ∷ []) = x
join sep (x ∷ y ∷ ys) = x <> sep <> join sep (y ∷ ys)

-- `s.startswith(prefix)`, for a prefix of one character
abbrev pub starts_with_char : ℕ → String → Bool
starts_with_char n String.[] = false
starts_with_char n (String.◌∷◌ c s) = eqb (code c) n

abbrev lower_code : ℕ → ℕ
lower_code n = if leb 65 n && leb n 90 then n + 32 else n

-- `s.lower() == t`, for a text `t` of ASCII characters that has no `i` or `k`: the letters of other
-- alphabets whose lower case is ASCII are lowered to these two.
unfoldable pub lowers_to : String → String → Bool
lowers_to String.[] t = is_empty t
lowers_to (String.◌∷◌ c s) String.[] = false
lowers_to (String.◌∷◌ c s) (String.◌∷◌ d t) = eqb (lower_code (code c)) (code d) && lowers_to s t

-- `s < t`: by the code points, in order.
unfoldable pub str_ltb : String → String → Bool
str_ltb s String.[] = false
str_ltb String.[] (String.◌∷◌ d t) = true
str_ltb (String.◌∷◌ c s) (String.◌∷◌ d t) =
    ltb (code c) (code d) || eqb (code c) (code d) && str_ltb s t

-- `n not in s`, for one character
abbrev pub lacks_char : ℕ → String → Bool
lacks_char n String.[] = true
lacks_char n (String.◌∷◌ c s) = not (eqb (code c) n) && lacks_char n s
