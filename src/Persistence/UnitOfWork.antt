-- ===== src/Persistence/UnitOfWork.antt =====
-- persistence/fakes.py: `FakeUnitOfWork`, over a store of dictionaries, since a repository changes
-- the dictionary it was given in place. A `_PersistenceState` object holds the addresses of its five
-- dictionaries: two objects with the same address share the dictionary.
mod Cells
mod Sound
mod Quiet
mod Sessions
mod Tests
use mac_llm_ops_lab.Prelude.{
  ℕ, zero, suc, Bool, true, false, Option, none, some, List, [], ◌∷◌, ◌++◌, length, if◌then◌else◌,
}
use mac_llm_ops_lab.Py.Result.{Result, ok, err, runtime_error, attribute_error}
use mac_llm_ops_lab.Persistence.Repositories.{
  PersistenceState, Write, model_write, node_write, run_write, benchmark_write, artifact_write,
  empty, apply,
}

-- Every dictionary ever made, by its kind and address: cell `n` has the `n`-th of each kind.
abbrev pub Store : Type 0 → Type 0
Store Float = List (PersistenceState Float)

-- A `_PersistenceState`: where its dictionaries are.
pub record StateObject : Type 0 where
  pub models : ℕ
  pub nodes : ℕ
  pub runs : ℕ
  pub benchmarks : ℕ
  pub artifacts : ℕ

-- The object whose five dictionaries are those of one cell.
abbrev pub at : ℕ → StateObject
at a = record { models = a; nodes = a; runs = a; benchmarks = a; artifacts = a }

-- `repositories` is the object whose dictionaries the five repositories hold; they keep them when
-- `__aexit__` clears `_working`.
pub record FakeUnitOfWork (Float : Type 0) : Type 0 where
  pub store : Store Float
  pub committed_state : StateObject
  pub working : Option StateObject
  pub repositories : Option StateObject
  pub committed : Bool

pub data Call (Float : Type 0) : Type 0 where
  enter exit commit_call rollback_call : Call Float
  write : Write Float → Call Float

module _ {Float : Type 0} where
  unfoldable pub cell : ℕ → Store Float → PersistenceState Float
  cell a [] = empty
  cell zero (s ∷ h) = s
  cell (suc a) (s ∷ h) = cell a h

  unfoldable pub set_cell :
      ℕ → (PersistenceState Float → PersistenceState Float) → Store Float → Store Float
  set_cell a f [] = []
  set_cell zero f (s ∷ h) = f s ∷ h
  set_cell (suc a) f (s ∷ h) = s ∷ set_cell a f h

  -- The five dictionaries of an object as they are now.
  unfoldable pub view : Store Float → StateObject → PersistenceState Float
  view h o = record {
    models = (cell o.models h).models;
    nodes = (cell o.nodes h).nodes;
    runs = (cell o.runs h).runs;
    benchmarks = (cell o.benchmarks h).benchmarks;
    artifacts = (cell o.artifacts h).artifacts;
  }

  -- Five new dictionaries with the entries of the object's own.
  unfoldable pub clone : StateObject → Store Float → StateObject × Store Float
  unfolding view
  clone o h = (at (length h), h ++ view h o ∷ [])

  -- The dictionary that an `add` changes.
  unfoldable pub address : Write Float → StateObject → ℕ
  address (model_write entry) o = o.models
  address (node_write entry) o = o.nodes
  address (run_write run) o = o.runs
  address (benchmark_write result) o = o.benchmarks
  address (artifact_write pointer) o = o.artifacts

  unfoldable pub init : FakeUnitOfWork Float
  init = record {
    store = empty ∷ [];
    committed_state = at 0;
    working = none;
    repositories = none;
    committed = false;
  }

  unfoldable pub aenter : FakeUnitOfWork Float → FakeUnitOfWork Float
  unfolding clone
  aenter u =
      let (w, h) = clone u.committed_state u.store in
      record u { store = h; working = some w; repositories = some w; committed = false }

  unfoldable pub rollback : FakeUnitOfWork Float → FakeUnitOfWork Float
  rollback u = record u { committed = false }

  unfoldable pub aexit : FakeUnitOfWork Float → FakeUnitOfWork Float
  unfolding rollback
  aexit u = let u' = if u.committed then u else rollback u in record u' { working = none }

  unfoldable pub commit : FakeUnitOfWork Float → Result (Unit {0}) × FakeUnitOfWork Float
  unfolding clone
  commit u = elim u.working [
    | none ↦ (err (runtime_error "FakeUnitOfWork is not active"), u)
    | some w ↦
        let (o, h) = clone w u.store in
        (ok tt, record u { store = h; committed_state = o; committed = true })
  ]

  -- `uow.<repository>.add(entry)`: there are no repositories before the first `__aenter__`.
  unfoldable pub add : Write Float → FakeUnitOfWork Float → Result (Unit {0}) × FakeUnitOfWork Float
  unfolding address set_cell
  add w u = elim u.repositories [
    | none ↦ (err attribute_error, u)
    | some o ↦ (ok tt, record u { store = set_cell (address w o) (λ s. apply s w) u.store })
  ]

  unfoldable pub step : FakeUnitOfWork Float → Call Float → FakeUnitOfWork Float
  step u enter = aenter u
  step u exit = aexit u
  step u commit_call = (commit u).1
  step u rollback_call = rollback u
  step u (write w) = (add w u).1

  unfoldable pub run : FakeUnitOfWork Float → List (Call Float) → FakeUnitOfWork Float
  run u [] = u
  run u (c ∷ cs) = run (step u c) cs

  -- What the next session starts from.
  unfoldable pub published : FakeUnitOfWork Float → PersistenceState Float
  unfolding view
  published u = view u.store u.committed_state
