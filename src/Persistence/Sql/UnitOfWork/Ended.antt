-- ===== src/Persistence/Sql/UnitOfWork/Ended.antt =====
-- How a block ends: what is called on the session, and what the span is told.
use mac_llm_ops_lab.Prelude.{◌≡◌, Bool, true, false, some, List, ◌∷◌, arith, if◌then◌else◌}
use mac_llm_ops_lab.Py.Result.{Result, ok, err, is_ok}
use mac_llm_ops_lab.Persistence.Sql.UnitOfWork.{
  SessionOps, SqlAlchemyUnitOfWork, SpanCall, end_span, commit, rollback, mark_span_error, aexit,
}

-- What is raised where one statement follows another in a `finally`.
abbrev pub raised : Result (Unit {0}) → Result (Unit {0}) → Result (Unit {0})
raised r (err e) = err e
raised r (ok _) = r

abbrev pub is_ended : List SpanCall → Bool
is_ended (end_span ∷ calls) = true
is_ended _ = false

module _ {S : Type 0} (ops : SessionOps S) where
  -- The session as the `finally` of a block finds it, and what was raised until then.
  abbrev pub before_close : Bool → S → Result (Unit {0}) × S
  before_close committed s = if committed then (ok tt, s) else ops.rollback_session s

  -- A block that ends, whether it raised or not, closes its session as the last call on it, on every
  -- path: after a rollback where nothing was committed, also where that rollback raises, and with
  -- no rollback where the block committed. What is raised is what closing raises, or else what the
  -- rollback raised. The span is ended exactly where closing did not raise.
  pub aexit_lem :
      (failed : Bool) (u : SqlAlchemyUnitOfWork S) (s : S)
      → u.session ≡ some s
      → u.has_context ≡ true
      → is_ended u.span ≡ false
      → let before = before_close u.committed s in
        let closed = ops.close_session before.1 in
        ((aexit ops failed u).1.session ≡ some closed.1)
        × ((aexit ops failed u).0 ≡ raised before.0 closed.0)
        × (is_ended (aexit ops failed u).1.span ≡ is_ok closed.0)
        × ((aexit ops failed u).1.committed ≡ u.committed)
  unfolding aexit mark_span_error rollback
  aexit_lem failed u s h c e = (ground arith, ground arith, ground arith, ground arith)

  -- A block that commits and ends: where the database takes the commit, the session is closed with
  -- no rollback and the unit stays committed. Where the commit raises, it is that error which the
  -- block sees; the unit is not committed, and the session is rolled back before it is closed.
  pub commit-aexit :
      (failed : Bool) (u : SqlAlchemyUnitOfWork S) (s : S)
      → u.session ≡ some s
      → u.committed ≡ false
      → let done = ops.commit_session s in
        let after = aexit ops failed (commit ops u).1 in
        ((commit ops u).0 ≡ done.0)
        × (after.1.committed ≡ is_ok done.0)
        × (after.1.session ≡ some (ops.close_session (before_close (is_ok done.0) done.1).1).1)
  unfolding aexit commit mark_span_error rollback
  commit-aexit failed u s h c = (ground arith, ground arith, ground arith)
