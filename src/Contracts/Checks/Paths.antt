-- ===== src/Contracts/Checks/Paths.antt =====
-- A path that a check accepted is accepted again, and is unchanged.
use Prim.Native.Char.{Char}
use mac_llm_ops_lab.Prelude.{
  negated, String, ◌≡◌, refl, sym, ap, Bool, true, false, not, ◌&&◌, ◌||◌, List, [], ◌∷◌, arith,
  elem, ◌==◌, string_eq,
}
use mac_llm_ops_lab.Py.Str.{cons_unless, strip, is_empty, is_space, lstrip, rstrip, join}
use mac_llm_ops_lab.Py.FilePath.{
  PurePath, parse_path, parts, is_absolute, as_posix, is_relative_to, suffix,
}
use mac_llm_ops_lab.Py.FilePath.Laws.{parse_path-as_posix}
use mac_llm_ops_lab.Py.Result.{ok, bind-ok, ok_inj, raise_if-ok}
use mac_llm_ops_lab.Artifacts.Checks.{
  under_runtime, validated_relative_path, validated_artifact_dir,
}
use mac_llm_ops_lab.Contracts.Checks.{validated_json_path_in_artifact_dir}

abbrev relative : List String → PurePath
relative xs = record { root = ""; segments = xs }

-- A path that starts in `artifacts`, and its text.
abbrev IsStored : PurePath → Type 0
IsStored p = (rest : List String) × (p ≡ relative ("artifacts" ∷ rest))

-- What an accepted path gives when it is read again.
abbrev IsKept : PurePath → Type 0
IsKept p = (parse_path (as_posix p) ≡ p) × (is_absolute p ≡ false) × (elem ".." (parts p) ≡ false)

cons_unless-kept : (c : Char) (s : String) → is_empty (cons_unless false c s) ≡ false
cons_unless-kept c String.[] = refl
cons_unless-kept c (String.◌∷◌ d s) = refl

stored_text :
    (p : PurePath)
    → IsStored p
    → (is_empty (as_posix p) ≡ false) × (is_empty (strip (as_posix p)) ≡ false)
unfolding as_posix join strip lstrip rstrip is_space
stored_text p ([], e) = rw e (refl, refl)
stored_text p (x ∷ rest, e) = rw e (refl, cons_unless-kept _ _)

relative-IsKept :
    (t name : String) (p : PurePath) → validated_relative_path t name ≡ ok p → IsKept p
unfolding validated_relative_path
relative-IsKept t name p h =
    let r =
      raise_if-ok (is_empty t || is_absolute (parse_path t) || elem ".." (parts (parse_path t))) _ _
        h in
    let free =
      split (is_empty t) (is_absolute (parse_path t)) (elem ".." (parts (parse_path t))) r.0 in
    rw (sym (ok_inj r.1)) (parse_path-as_posix t free.0, free.0, free.1)
  where
    split : (a b c : Bool) → a || b || c ≡ false → (b ≡ false) × (c ≡ false)
    split a b c e = (ground arith, ground arith)

relative_again :
    (name : String) (p : PurePath)
    → IsKept p
    → IsStored p
    → validated_relative_path (as_posix p) name ≡ ok p
unfolding validated_relative_path
relative_again name p k s = rw ((stored_text p s).0, k.0) (rw (k.1, k.2) refl)

same_head :
    (a : String) (rest : List String)
    → a == "artifacts" ≡ true
    → relative (a ∷ rest) ≡ relative ("artifacts" ∷ rest)
same_head a rest h = ap (λ x. relative (x ∷ rest)) ((string_eq.beq_iff a "artifacts").0 h)

under-IsStored :
    (root : String) (xs : List String)
    → is_absolute (record { root = root; segments = xs }) ≡ false
    → under_runtime (parts (record { root = root; segments = xs })) ≡ true
    → IsStored (record { root = root; segments = xs })
unfolding is_absolute parts
under-IsStored String.[] (a ∷ b ∷ c ∷ rest) h u =
    (b ∷ c ∷ rest, same_head a (b ∷ c ∷ rest) (ground arith))
under-IsStored String.[] [] h u = cc
under-IsStored String.[] (a ∷ []) h u = cc
under-IsStored String.[] (a ∷ b ∷ []) h u = cc
under-IsStored (String.◌∷◌ c root) xs h u = cc

within-IsStored :
    (root : String) (xs : List String) (q : PurePath)
    → is_absolute (record { root = root; segments = xs }) ≡ false
    → is_relative_to (record { root = root; segments = xs }) q ≡ true
    → IsStored q
    → IsStored (record { root = root; segments = xs })
unfolding is_relative_to is_absolute
within-IsStored String.[] [] q a h (rest, e) = let g = rw e at h in cc
within-IsStored String.[] (x ∷ xs) q a h (rest, e) =
    let g = rw e at h in (xs, same_head x xs (head "artifacts" x _ g))
  where
    head : (y x : String) (b : Bool) → y == x && b ≡ true → x == y ≡ true
    head y x b g = (string_eq.beq_iff x y).1 (sym ((string_eq.beq_iff y x).0 (ground arith)))
within-IsStored (String.◌∷◌ c root) xs q a h s = cc

-- A text that is not blank.
abbrev pub IsText : String → Type 0
IsText s = is_empty (strip s) ≡ false

-- A directory as the check returns it.
abbrev pub IsDirectory : String → Type 0
IsDirectory dir = IsStored (parse_path dir) × (validated_artifact_dir dir ≡ ok dir) × IsText dir

pub artifact_dir-IsDirectory :
    (t dir : String) → validated_artifact_dir t ≡ ok dir → IsDirectory dir
unfolding validated_artifact_dir
artifact_dir-IsDirectory t dir h =
    let (p, hp, k) = bind-ok (validated_relative_path t "artifact_dir") _ h in
    let r = raise_if-ok (not (under_runtime (parts p))) _ _ k in
    let kept = relative-IsKept t "artifact_dir" p hp in
    let under = negated (under_runtime (parts p)) r.0 in
    let stored = under-IsStored p.root p.segments kept.1 under in
    rw (sym (ok_inj r.1)) (
      rw kept.0 stored,
      rw (relative_again "artifact_dir" p kept stored) (rw under refl),
      (stored_text p stored).1,
    )

-- An evidence path as the check returns it.
pub json_path_again :
    (t dir name s : String)
    → IsDirectory dir
    → validated_json_path_in_artifact_dir t dir name ≡ ok s
    → (validated_json_path_in_artifact_dir s dir name ≡ ok s) × IsText s
unfolding validated_json_path_in_artifact_dir
json_path_again t dir name s d h =
    let (p, hp, k) = bind-ok (validated_relative_path t name) _ h in
    let r = raise_if-ok (not (is_relative_to p (parse_path dir))) _ _ k in
    let q = raise_if-ok (not (suffix p == ".json")) _ _ r.1 in
    let kept = relative-IsKept t name p hp in
    let inside = negated (is_relative_to p (parse_path dir)) r.0 in
    let stored = within-IsStored p.root p.segments (parse_path dir) kept.1 inside d.0 in
    rw (sym (ok_inj q.1)) (
      rw (relative_again name p kept stored) (rw (inside, negated (suffix p == ".json") q.0) refl),
      (stored_text p stored).1,
    )
