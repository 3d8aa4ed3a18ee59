-- ===== src/Py/FilePath.antt =====
-- `pathlib.PurePosixPath`, as far as the program uses it.
pub mod Laws
pub mod Parts
use Prim.Native.Char.{Char, code}
use mac_llm_ops_lab.Prelude.{
  String, Bool, true, false, not, ◌&&◌, ◌||◌, Option, none, some, List, [], ◌∷◌, ◌++◌, eqb, keep,
  ◌==◌, string_eq, if◌then◌else◌,
}
use mac_llm_ops_lab.Py.Str.{◌<>◌, is_empty, split_on, join, starts_with_char}

-- `segments` are the parts without the root.
pub record PurePath : Type 0 where
  pub root : String
  pub segments : List String

abbrev pub tail_str : String → String
tail_str String.[] = String.[]
tail_str (String.◌∷◌ c s) = s

-- Two leading slashes and no third are a root of their own.
unfoldable pub root_of : String → String
root_of text =
    let second = tail_str text in
    if not (starts_with_char b'/' text)
    then ""
    else if not (starts_with_char b'/' second) || starts_with_char b'/' (tail_str second)
    then "/"
    else "//"

-- A part that is empty or `.` is dropped.
abbrev pub is_segment : String → Bool
is_segment part = not (is_empty part) && not (part == ".")

unfoldable pub parse_path : String → PurePath
unfolding root_of split_on
parse_path text = record { root = root_of text; segments = keep is_segment (split_on b'/' text) }

-- `path.parts`
unfoldable pub parts : PurePath → List String
parts p = if is_empty p.root then p.segments else p.root ∷ p.segments

unfoldable pub is_absolute : PurePath → Bool
is_absolute p = not (is_empty p.root)

unfoldable pub as_posix : PurePath → String
unfolding join
as_posix p = let text = p.root <> join "/" p.segments in if is_empty text then "." else text

abbrev pub is_prefix : List String → List String → Bool
is_prefix [] ys = true
is_prefix (x ∷ xs) [] = false
is_prefix (x ∷ xs) (y ∷ ys) = x == y && is_prefix xs ys

-- `path.relative_to(other)` raises `ValueError` exactly where this is false.
unfoldable pub is_relative_to : PurePath → PurePath → Bool
is_relative_to p other = p.root == other.root && is_prefix other.segments p.segments

-- `path.name`
abbrev last_or : String → List String → String
last_or d [] = d
last_or d (x ∷ xs) = last_or x xs

-- The text from its last dot on.
from_last_dot : String → Option String
from_last_dot String.[] = none
from_last_dot (String.◌∷◌ c s) = elim (from_last_dot s) [
  | some t ↦ some t
  | none ↦ if eqb (code c) b'.' then some (String.◌∷◌ c s) else none
]

-- `path.suffix`: from the last dot of the name, which is neither its first nor its last character.
unfoldable pub suffix : PurePath → String
unfolding from_last_dot
suffix p = elim (from_last_dot (tail_str (last_or "" p.segments))) [
  | none ↦ ""
  | some t ↦ if t == "." then "" else t
]

-- `path / other`: an absolute path takes the place of the other.
unfoldable pub join_path : PurePath → PurePath → PurePath
join_path p other =
    if is_absolute other then other else record p { segments = p.segments ++ other.segments }
