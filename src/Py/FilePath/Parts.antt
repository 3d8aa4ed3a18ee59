-- ===== src/Py/FilePath/Parts.antt =====
-- The parts of a path whose text is put together from two.
use Prim.Native.Char.{Char, code}
use mac_llm_ops_lab.Prelude.{
  negated, ℕ, String, ◌≡◌, refl, ap, sym, ◌∙◌, Bool, true, false, not, if◌then◌else◌, ◌||◌, List,
  [], ◌∷◌, ◌++◌, eqb, keep-append, is_nil, string_eq, Bool-cases, inl, inr,
}
use mac_llm_ops_lab.Py.Str.{◌<>◌, is_empty, split_on, starts_with_char, push}
use mac_llm_ops_lab.Py.FilePath.{
  tail_str, PurePath, is_segment, parse_path, is_absolute, root_of, is_prefix, is_relative_to,
  join_path,
}

push-append :
    (c : Char) (xs ys : List String) → is_nil xs ≡ false → push c (xs ++ ys) ≡ push c xs ++ ys
push-append c [] ys h = cc
push-append c (x ∷ xs) ys h = refl

push_cons : (c : Char) (xs : List String) → is_nil (push c xs) ≡ false
push_cons c [] = refl
push_cons c (x ∷ xs) = refl

split_on_cons : (sep : ℕ) (s : String) → is_nil (split_on sep s) ≡ false
unfolding split_on
split_on_cons sep String.[] = refl
split_on_cons sep (String.◌∷◌ c s) = elim (Bool-cases (eqb (code c) sep)) [
  | inl cut ↦ rw cut refl
  | inr kept ↦ rw kept (push_cons c (split_on sep s))
]

split_on-parts :
    (sep : ℕ) (x : String) (c : Char) (r : String)
    → eqb (code c) sep ≡ true
    → split_on sep (x <> String.◌∷◌ c r) ≡ split_on sep x ++ split_on sep r
unfolding split_on
split_on-parts sep String.[] c r e = rw e refl
split_on-parts sep (String.◌∷◌ d x) c r e = elim (Bool-cases (eqb (code d) sep)) [
  | inl cut ↦ rw cut (ap (λ rest. "" ∷ rest) (split_on-parts sep x c r e))
  | inr kept ↦ rw kept (
      ap (push d) (split_on-parts sep x c r e)
      ∙ push-append d (split_on sep x) (split_on sep r) (split_on_cons sep x))
]

-- A text that does not begin with a slash has no root.
root_of-none : (s : String) → starts_with_char b'/' s ≡ false → root_of s ≡ ""
unfolding root_of
root_of-none s h = rw h refl

no_root :
    (slash one : Bool)
    → is_empty (if not slash then "" else if one then "/" else "//") ≡ true
    → slash ≡ false
no_root false one h = refl
no_root true false h = cc
no_root true true h = cc

root_of-some : (s : String) → is_empty (root_of s) ≡ true → starts_with_char b'/' s ≡ false
unfolding root_of
root_of-some s h =
    no_root (starts_with_char b'/' s)
      (not (starts_with_char b'/' (tail_str s)) || starts_with_char b'/' (tail_str (tail_str s))) h

starts-append :
    (x r : String)
    → is_empty x ≡ false
    → starts_with_char b'/' x ≡ false
    → starts_with_char b'/' (x <> r) ≡ false
starts-append String.[] r e h = cc
starts-append (String.◌∷◌ c x) r e h = h

-- A relative text, a slash and another text: the segments of both.
pub parse_path-slash :
    (x r : String)
    → is_empty x ≡ false
    → is_absolute (parse_path x) ≡ false
    → parse_path (x <> "/" <> r)
      ≡ record { root = ""; segments = (parse_path x).segments ++ (parse_path r).segments }
unfolding parse_path is_absolute
parse_path-slash x r e h =
    let plain = root_of-some x (negated (is_empty (root_of x)) h) in
    rw
      (
        root_of-none (x <> "/" <> r) (starts-append x ("/" <> r) e plain),
        split_on-parts b'/' x "/" r refl,
        keep-append is_segment (split_on b'/' x) (split_on b'/' r),
      )
      refl

prefix-append : (xs ys : List String) → is_prefix xs (xs ++ ys) ≡ true
prefix-append [] ys = refl
prefix-append (x ∷ xs) ys = rw ((string_eq.beq_iff x x).1 refl, prefix-append xs ys) refl

append_assoc : (xs ys zs : List String) → (xs ++ ys) ++ zs ≡ xs ++ (ys ++ zs)
append_assoc [] ys zs = refl
append_assoc (x ∷ xs) ys zs = ap (λ rest. x ∷ rest) (append_assoc xs ys zs)

relative_join :
    (p : PurePath) (root : String) (xs : List String)
    → is_empty root ≡ true
    → join_path p (record { root = root; segments = xs }) ≡ record p { segments = p.segments ++ xs }
unfolding join_path is_absolute
relative_join p root xs h = rw h refl

-- A relative path that is put after another stands inside it.
pub join_path-IsInside :
    (p q : PurePath) → is_absolute q ≡ false → is_relative_to (join_path p q) p ≡ true
unfolding join_path is_relative_to
join_path-IsInside p q h =
    rw (h, (string_eq.beq_iff p.root p.root).1 refl, prefix-append p.segments q.segments) refl

-- A path that is put after another in two steps.
pub join_path_assoc :
    (p q r : PurePath)
    → is_absolute q ≡ false
    → is_absolute r ≡ false
    → join_path (join_path p q) r ≡ record p { segments = p.segments ++ (q.segments ++ r.segments) }
unfolding join_path
join_path_assoc p q r hq hr = rw (hq, hr, append_assoc p.segments q.segments r.segments) refl

-- Behind a directory, the text `x/r` is the same as `x` and then `r`.
pub join_path-slash :
    (p : PurePath) (x r : String)
    → is_empty x ≡ false
    → is_absolute (parse_path x) ≡ false
    → is_absolute (parse_path r) ≡ false
    → join_path p (parse_path (x <> "/" <> r))
      ≡ join_path (join_path p (parse_path x)) (parse_path r)
join_path-slash p x r e hx hr =
    ap (join_path p) (parse_path-slash x r e hx)
    ∙ relative_join p "" ((parse_path x).segments ++ (parse_path r).segments) refl
    ∙ sym (join_path_assoc p (parse_path x) (parse_path r) hx hr)
