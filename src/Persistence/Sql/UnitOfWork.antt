-- ===== src/Persistence/Sql/UnitOfWork.antt =====
-- persistence/sqlalchemy.py: `SQLAlchemyUnitOfWork`. The session is a parameter, of type `S`; each of
-- its methods may raise. The calls on the span are kept as a list, the last one first; the span's
-- context has the same list, since what ends it is a call on the span too.
pub mod Ended
use mac_llm_ops_lab.Prelude.{
  String, Bool, true, false, Option, none, some, List, [], ◌∷◌, if◌then◌else◌,
}
use mac_llm_ops_lab.Py.Result.{Result, Error, ok, err, attribute_error}

-- `AsyncSession`: what a call raises, and the session after it.
pub record SessionOps (S : Type 0) : Type 0 where
  pub open_session : S
  pub commit_session : S → Result (Unit {0}) × S
  pub rollback_session : S → Result (Unit {0}) × S
  pub close_session : S → Result (Unit {0}) × S

pub data SpanCall : Type 0 where
  start_span : String → SpanCall
  set_attribute : String → String → SpanCall
  set_status_error : SpanCall
  end_span : SpanCall

pub record SqlAlchemyUnitOfWork (S : Type 0) : Type 0 where
  pub session : Option S
  pub committed : Bool
  pub span : List SpanCall
  -- `_span_context is not None`
  pub has_context : Bool

unfoldable pub init : {S : Type 0} → SqlAlchemyUnitOfWork S
init = record { session = none; committed = false; span = []; has_context = false }

module _ {S : Type 0} (ops : SessionOps S) where
  -- A call on the session, which is no attribute before the first `__aenter__`.
  abbrev on_session :
      (S → Result (Unit {0}) × S)
      → SqlAlchemyUnitOfWork S
      → Result (Unit {0}) × SqlAlchemyUnitOfWork S
  on_session call u = elim u.session [
    | none ↦ (err attribute_error, u)
    | some s ↦ let (r, s') = call s in (r, record u { session = some s' })
  ]

  -- What follows a statement, unless it raised.
  abbrev then_do :
      Result (Unit {0}) × SqlAlchemyUnitOfWork S
      → (SqlAlchemyUnitOfWork S → Result (Unit {0}) × SqlAlchemyUnitOfWork S)
      → Result (Unit {0}) × SqlAlchemyUnitOfWork S
  then_do (err e, u) rest = (err e, u)
  then_do (ok _, u) rest = rest u

  -- `try: ... finally: rest`: what `rest` raises takes the place of what was raised before.
  abbrev finally_do :
      Result (Unit {0}) × SqlAlchemyUnitOfWork S
      → (SqlAlchemyUnitOfWork S → Result (Unit {0}) × SqlAlchemyUnitOfWork S)
      → Result (Unit {0}) × SqlAlchemyUnitOfWork S
  finally_do (r, u) rest = restore r (rest u)
    where
      restore :
          Result (Unit {0})
          → Result (Unit {0}) × SqlAlchemyUnitOfWork S
          → Result (Unit {0}) × SqlAlchemyUnitOfWork S
      restore r (err e, u') = (err e, u')
      restore r (ok _, u') = (r, u')

  unfoldable pub aenter : SqlAlchemyUnitOfWork S → SqlAlchemyUnitOfWork S
  aenter u = record {
    session = some ops.open_session;
    committed = false;
    span = start_span "db.transaction" ∷ [];
    has_context = true;
  }

  unfoldable pub commit : SqlAlchemyUnitOfWork S → Result (Unit {0}) × SqlAlchemyUnitOfWork S
  commit u = then_do (on_session ops.commit_session u) λ u'. (
    ok tt,
    record u' {
      committed = true;
      span = set_attribute "db.transaction.outcome" "commit" ∷ u'.span;
    },
  )

  unfoldable pub rollback : SqlAlchemyUnitOfWork S → Result (Unit {0}) × SqlAlchemyUnitOfWork S
  rollback u = then_do (on_session ops.rollback_session u) λ u'. (
    ok tt,
    record u' {
      committed = false;
      span = set_attribute "db.transaction.outcome" "rollback" ∷ u'.span;
    },
  )

  -- `mark_span_error(self._span, "db_transaction_failed")`
  unfoldable pub mark_span_error : SqlAlchemyUnitOfWork S → SqlAlchemyUnitOfWork S
  mark_span_error u = record u {
    span = set_status_error ∷ set_attribute "error.type" "db_transaction_failed" ∷ u.span;
  }

  -- `failed` says whether the block raised.
  unfoldable pub aexit : Bool → SqlAlchemyUnitOfWork S → Result (Unit {0}) × SqlAlchemyUnitOfWork S
  unfolding rollback mark_span_error
  aexit failed u =
      let marked = if failed then mark_span_error u else u in
      finally_do (if marked.committed then (ok tt, marked) else rollback marked) λ u'.
        then_do (on_session ops.close_session u')
          λ u''. (ok tt, if u''.has_context then record u'' { span = end_span ∷ u''.span } else u'')
