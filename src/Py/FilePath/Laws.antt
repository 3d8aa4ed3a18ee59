-- ===== src/Py/FilePath/Laws.antt =====
-- Printing a relative path and reading it again.
use Prim.Native.Char.{Char, code}
use mac_llm_ops_lab.Prelude.{
  ℕ, String, ◌≡◌, refl, ap, sym, ◌∙◌, true, false, not, List, [], ◌∷◌, arith, eqb, keep, string_eq,
  Bool-cases, inl, inr,
}
use mac_llm_ops_lab.Py.Str.{◌<>◌, is_empty, split_on, join, starts_with_char, lacks_char, push}
use mac_llm_ops_lab.Py.FilePath.{PurePath, is_segment, parse_path, is_absolute, as_posix}

-- Every text of the list lacks the separator.
abbrev AllLack : ℕ → List String → Type 0
AllLack sep [] = Unit
AllLack sep (x ∷ xs) = (lacks_char sep x ≡ true) × AllLack sep xs

AllLack-push :
    (sep : ℕ) (c : Char) (xs : List String)
    → eqb (code c) sep ≡ false
    → AllLack sep xs
    → AllLack sep (push c xs)
AllLack-push sep c [] h a = (ground arith, tt)
AllLack-push sep c (x ∷ xs) h a = (ground arith, a.1)

split_on-AllLack : (sep : ℕ) (s : String) → AllLack sep (split_on sep s)
unfolding split_on
split_on-AllLack sep String.[] = (refl, tt)
split_on-AllLack sep (String.◌∷◌ c s) = elim (Bool-cases (eqb (code c) sep)) [
  | inl cut ↦ rw cut (refl, split_on-AllLack sep s)
  | inr kept ↦ rw kept (AllLack-push sep c (split_on sep s) kept (split_on-AllLack sep s))
]

-- Segments of a parsed path: not empty, not `.`, without a slash.
abbrev pub AllSegments : List String → Type 0
AllSegments [] = Unit
AllSegments (x ∷ xs) = (is_segment x ≡ true) × (lacks_char b'/' x ≡ true) × AllSegments xs

keep-AllSegments : (xs : List String) → AllLack b'/' xs → AllSegments (keep is_segment xs)
keep-AllSegments [] a = tt
keep-AllSegments (x ∷ xs) a = elim (Bool-cases (is_segment x)) [
  | inl kept ↦ rw kept (kept, a.0, keep-AllSegments xs a.1)
  | inr dropped ↦ rw dropped (keep-AllSegments xs a.1)
]

keep_segments : (xs : List String) → AllSegments xs → keep is_segment xs ≡ xs
keep_segments [] a = refl
keep_segments (x ∷ xs) a = rw (a.0, keep_segments xs a.2)

split_on-append :
    (sep : ℕ) (x : String) (c : Char) (r : String)
    → lacks_char sep x ≡ true
    → eqb (code c) sep ≡ true
    → split_on sep (x <> String.◌∷◌ c r) ≡ x ∷ split_on sep r
unfolding split_on
split_on-append sep String.[] c r h e = rw e
split_on-append sep (String.◌∷◌ d x) c r h e = ground (arith, split_on-append sep x c r)

split_on_alone : (sep : ℕ) (x : String) → lacks_char sep x ≡ true → split_on sep x ≡ x ∷ []
unfolding split_on
split_on_alone sep String.[] h = refl
split_on_alone sep (String.◌∷◌ d x) h = ground (arith, split_on_alone sep x)

split_on-join :
    (x : String) (xs : List String)
    → AllSegments (x ∷ xs)
    → split_on b'/' (join "/" (x ∷ xs)) ≡ x ∷ xs
unfolding join
split_on-join x [] a = split_on_alone b'/' x a.1
split_on-join x (y ∷ ys) a =
    split_on-append b'/' x _ (join "/" (y ∷ ys)) a.1 refl
    ∙ ap (λ rest. x ∷ rest) (split_on-join y ys a.2)

-- The printed segments begin with a character that is no slash.
starts-join :
    (x : String) (xs : List String)
    → AllSegments (x ∷ xs)
    → (is_empty (join "/" (x ∷ xs)) ≡ false) × (starts_with_char b'/' (join "/" (x ∷ xs)) ≡ false)
unfolding join
starts-join String.[] xs a = cc (a.0)
starts-join (String.◌∷◌ c x) [] a = (refl, ground arith)
starts-join (String.◌∷◌ c x) (y ∷ ys) a = (refl, ground arith)

pub parse_path-AllSegments : (text : String) → AllSegments (parse_path text).segments
unfolding parse_path
parse_path-AllSegments text = keep-AllSegments (split_on b'/' text) (split_on-AllLack b'/' text)

relative_again :
    (xs : List String)
    → AllSegments xs
    → parse_path (as_posix (record { root = ""; segments = xs }))
      ≡ record { root = ""; segments = xs }
unfolding parse_path as_posix
relative_again [] a = refl
relative_again (x ∷ xs) a =
    let first = starts-join x xs a in
    rw (first.0, first.1, split_on-join x xs a) (rw (a.0, keep_segments xs a.2))

empty_root :
    (p : PurePath) → is_absolute p ≡ false → p ≡ record { root = ""; segments = p.segments }
unfolding is_absolute
empty_root p h = go p.root refl h
  where
    go :
        (r : String)
        → p.root ≡ r
        → not (is_empty r) ≡ false
        → p ≡ record { root = ""; segments = p.segments }
    go String.[] e h' = ground arith
    go (String.◌∷◌ c s) e h' = cc

-- A relative path that is printed and read again is the same path.
pub parse_path-as_posix :
    (text : String)
    → is_absolute (parse_path text) ≡ false
    → parse_path (as_posix (parse_path text)) ≡ parse_path text
parse_path-as_posix text h =
    let e = empty_root (parse_path text) h in
    ap (λ p. parse_path (as_posix p)) e
    ∙ relative_again (parse_path text).segments (parse_path-AllSegments text)
    ∙ sym e
