-- ===== src/Py/Regex.antt =====
-- What the program uses of `re`: patterns that are a row of pieces, tried from left to right, the
-- longest run first. `is_word` is what `\w` matches.
pub mod Laws
use Prim.Native.Char.{Char, code}
use mac_llm_ops_lab.Prelude.{
  ℕ, zero, suc, ◌+◌, ◌-◌, String, Bool, true, false, not, ◌&&◌, ◌||◌, Option, none, some, List, [],
  ◌∷◌, leb, eqb, if◌then◌else◌,
}

pub data Piece : Type 0 where
  -- `\b`
  word_boundary : Piece
  -- A text, and one of some texts, whose characters are compared by the test.
  literal : (ℕ → ℕ → Bool) → String → Piece
  one_of : (ℕ → ℕ → Bool) → List String → Piece
  -- `[...]{least,most}`; `none` is no bound.
  run : (ℕ → Bool) → ℕ → Option ℕ → Piece

-- A character in the form that `IGNORECASE` compares: four letters outside ASCII fold into it.
abbrev pub folded : ℕ → ℕ
folded c =
    if leb 65 c && leb c 90
    then c + 32
    else if eqb c 304 || eqb c 305
    then b'i'
    else if eqb c 383
    then b's'
    else if eqb c 8490
    then b'k'
    else c

abbrev pub same_folded : ℕ → ℕ → Bool
same_folded a b = eqb (folded a) (folded b)

-- The text after a prefix, with the character in front of it.
unfoldable pub after_prefix :
    (ℕ → ℕ → Bool) → String → Option ℕ → String → Option (Option ℕ × String)
after_prefix same String.[] prev s = some (prev, s)
after_prefix same (String.◌∷◌ d t) prev String.[] = none
after_prefix same (String.◌∷◌ d t) prev (String.◌∷◌ c s) =
    let rest = after_prefix same t (some (code c)) s in
    if same (code d) (code c) then rest else none

abbrev pub or_else : {A : Type 0} → Option A → Option A → Option A
or_else none b = b
or_else (some a) b = some a

abbrev one_less : Option ℕ → Option ℕ
one_less none = none
one_less (some n) = some (n - 1)

abbrev is_spent : Option ℕ → Bool
is_spent none = false
is_spent (some n) = eqb n 0

-- The longest run from which the rest, `k`, matches.
unfoldable pub greedy :
    (ℕ → Bool)
    → ℕ
    → Option ℕ
    → (Option ℕ → String → Option String)
    → Option ℕ
    → String
    → Option String
greedy p least most k prev String.[] = if eqb least 0 then k prev String.[] else none
greedy p least most k prev (String.◌∷◌ c s) =
    let longer = greedy p (least - 1) (one_less most) k (some (code c)) s in
    or_else (if p (code c) && not (is_spent most) then longer else none)
      (if eqb least 0 then k prev (String.◌∷◌ c s) else none)

abbrev pub length_str : String → ℕ
length_str String.[] = 0
length_str (String.◌∷◌ c s) = suc (length_str s)

abbrev pub next_line : Char → ℕ → ℕ
next_line c line = if eqb (code c) 10 then line + 1 else line

module _ (is_word : ℕ → Bool) where
  abbrev word_before : Option ℕ → Bool
  word_before none = false
  word_before (some c) = is_word c

  abbrev word_after : String → Bool
  word_after String.[] = false
  word_after (String.◌∷◌ c s) = is_word (code c)

  abbrev at_boundary : Option ℕ → String → Bool
  at_boundary prev s = if word_before prev then not (word_after s) else word_after s

  abbrev continue : (Option ℕ → String → Option String) → Option (Option ℕ × String) → Option String
  continue k none = none
  continue k (some (prev, s)) = k prev s

  abbrev first_of :
      (ℕ → ℕ → Bool)
      → List String
      → (Option ℕ → String → Option String)
      → Option ℕ
      → String
      → Option String
  first_of same [] k prev s = none
  first_of same (t ∷ ts) k prev s =
      or_else (continue k (after_prefix same t prev s)) (first_of same ts k prev s)

  -- A match that begins here: the text after it. `prev` is the character before.
  unfoldable pub match_at : List Piece → Option ℕ → String → Option String
  unfolding after_prefix greedy
  match_at [] prev s = some s
  match_at (word_boundary ∷ ps) prev s =
      let rest = match_at ps prev s in if at_boundary prev s then rest else none
  match_at (literal same t ∷ ps) prev s = continue (match_at ps) (after_prefix same t prev s)
  match_at (one_of same ts ∷ ps) prev s = first_of same ts (match_at ps) prev s
  match_at (run p least most ∷ ps) prev s = greedy p least most (match_at ps) prev s

  -- `pattern.finditer(text)`: the line of each match. `skip` characters belong to the last match.
  unfoldable pub lines_from : List Piece → ℕ → Option ℕ → ℕ → String → List ℕ
  lines_from ps skip prev line String.[] = []
  lines_from ps (suc skip) prev line (String.◌∷◌ c s) =
      lines_from ps skip (some (code c)) (next_line c line) s
  lines_from ps zero prev line (String.◌∷◌ c s) = elim (match_at ps prev (String.◌∷◌ c s)) [
    | none ↦ lines_from ps 0 (some (code c)) (next_line c line) s
    | some rest ↦
        line ∷ lines_from ps (length_str s - length_str rest) (some (code c)) (next_line c line) s
  ]

  unfoldable pub match_lines : List Piece → String → List ℕ
  match_lines ps text = lines_from ps 0 none 1 text
