-- ===== src/Cluster/Paths/Inside.antt =====
-- Accepted paths, read again: relative, without traversal, and inside their directory.
use mac_llm_ops_lab.Prelude.{
  negated, String, ◌≡◌, sym, ap, ◌∙◌, true, false, not, arith, elem, ◌==◌, string_eq,
}
use mac_llm_ops_lab.Py.Value.{Value}
use mac_llm_ops_lab.Py.FilePath.{
  PurePath, parse_path, parts, is_absolute, as_posix, is_relative_to, suffix,
}
use mac_llm_ops_lab.Py.FilePath.Laws.{parse_path-as_posix}
use mac_llm_ops_lab.Py.Result.{ok, bind-ok, ok_inj, raise_if-ok}
use mac_llm_ops_lab.Cluster.Checks.{non_empty_string}
use mac_llm_ops_lab.Cluster.Paths.{
  is_traversal, under_runtime, relative_path, validated_artifact_dir, validated_evidence_path,
}

-- What an accepted evidence path is, read again.
abbrev pub IsInside : String → String → String → Type 0
IsInside dir expected_suffix s =
    (is_absolute (parse_path s) ≡ false)
    × (elem ".." (parts (parse_path s)) ≡ false)
    × (is_relative_to (parse_path s) (parse_path dir) ≡ true)
    × (suffix (parse_path s) ≡ expected_suffix)
    × (as_posix (parse_path s) ≡ s)

not_traversal :
    (p : PurePath)
    → is_traversal p ≡ false
    → (is_absolute p ≡ false) × (elem ".." (parts p) ≡ false)
not_traversal p h = (ground arith, ground arith)

module _ {Float : Type 0} where
  relative_path-ok :
      (v : Value Float) (f : String) (p : PurePath)
      → relative_path v f ≡ ok p
      → (parse_path (as_posix p) ≡ p) × (is_traversal p ≡ false)
  unfolding relative_path
  relative_path-ok v f p h =
      let (t, ht, k) = bind-ok (non_empty_string v f) _ h in
      let r = raise_if-ok (is_traversal (parse_path t)) _ _ k in
      rw (sym (ok_inj r.1)) (parse_path-as_posix t (absolute_too t r.0), r.0)
    where
      absolute_too :
          (t : String) → is_traversal (parse_path t) ≡ false → is_absolute (parse_path t) ≡ false
      absolute_too t e = ground arith

  -- An accepted artifact directory, read again as a path, is relative, has no `..`, stands under
  -- artifacts/runtime, and is in normal form.
  pub validated_artifact_dir-IsUnder :
      (v : Value Float) (dir : String)
      → validated_artifact_dir v ≡ ok dir
      → (is_absolute (parse_path dir) ≡ false)
        × (elem ".." (parts (parse_path dir)) ≡ false)
        × (under_runtime (parts (parse_path dir)) ≡ true)
        × (as_posix (parse_path dir) ≡ dir)
  unfolding validated_artifact_dir
  validated_artifact_dir-IsUnder v dir h =
      let (p, hp, k) = bind-ok (relative_path v "artifact_dir") _ h in
      let r = raise_if-ok (not (under_runtime (parts p))) _ _ k in
      let found = relative_path-ok v "artifact_dir" p hp in
      let free = not_traversal p found.1 in
      rw (ap parse_path (sym (ok_inj r.1)) ∙ found.0)
        (free.0, free.1, negated (under_runtime (parts p)) r.0, ok_inj r.1)

  -- An accepted evidence path, read again as a path, is relative, has no `..`, stands inside the
  -- artifact directory, has the expected suffix, and is in normal form.
  pub validated_evidence_path-IsInside :
      (v : Value Float) (dir f expected_suffix s : String)
      → validated_evidence_path v dir f expected_suffix ≡ ok s
      → (is_absolute (parse_path s) ≡ false)
        × (elem ".." (parts (parse_path s)) ≡ false)
        × (is_relative_to (parse_path s) (parse_path dir) ≡ true)
        × (suffix (parse_path s) ≡ expected_suffix)
        × (as_posix (parse_path s) ≡ s)
  unfolding validated_evidence_path
  validated_evidence_path-IsInside v dir f expected_suffix s h =
      let (p, hp, k) = bind-ok (relative_path v f) _ h in
      let r = raise_if-ok (not (is_relative_to p (parse_path dir))) _ _ k in
      let q = raise_if-ok (not (suffix p == expected_suffix)) _ _ r.1 in
      let found = relative_path-ok v f p hp in
      let free = not_traversal p found.1 in
      rw (ap parse_path (sym (ok_inj q.1)) ∙ found.0) (
        free.0,
        free.1,
        negated (is_relative_to p (parse_path dir)) r.0,
        (string_eq.beq_iff (suffix p) expected_suffix).0 (negated _ q.0),
        ok_inj q.1,
      )
