-- ===== src/Persistence/UnitOfWork/Sound.antt =====
-- Who holds which dictionaries: the committed state shares none with the repositories.
use mathlib.Core.Path.{subst}
use mac_llm_ops_lab.Prelude.{
  ℕ, suc, ◌++◌, sym, ◌≤◌, ◌<◌, ◌≡◌, ◌≢◌, refl, true, Option, none, some, List, [], ◌∷◌, arith,
  length, length-append,
}
use mac_llm_ops_lab.Persistence.Repositories.{Write, apply}
use mac_llm_ops_lab.Persistence.UnitOfWork.{
  StateObject, at, FakeUnitOfWork, Call, enter, exit, commit_call, rollback_call, write, init,
  aenter, aexit, rollback, commit, add, step, run, set_cell, view, clone, address,
}
use mac_llm_ops_lab.Persistence.UnitOfWork.Cells.{length-set_cell}

-- The object, if there is one, is made of one of the first `n` cells, and not of cell `c`.
abbrev pub IsApart : ℕ → ℕ → Option StateObject → Type 0
IsApart n c none = Unit
IsApart n c (some o) = (a : ℕ) × (o ≡ at a) × (a < n) × (a ≢ c)

pub record IsSound {Float : Type 0} (u : FakeUnitOfWork Float) : Type 0 where
  pub home : ℕ
  pub committed_at : u.committed_state ≡ at home
  pub home_made : home < length u.store
  pub working_apart : IsApart (length u.store) home u.working
  pub repositories_apart : IsApart (length u.store) home u.repositories

IsApart-grow : (n m c : ℕ) (o : Option StateObject) → n ≤ m → IsApart n c o → IsApart m c o
IsApart-grow n m c none l a = tt
IsApart-grow n m c (some o) l (a, e, b, d) = (a, e, omega (arith, b), d)

-- What is made of the first `n` cells is apart from the new one.
IsApart-new : (n m c : ℕ) (o : Option StateObject) → n < m → IsApart n c o → IsApart m n o
IsApart-new n m c none l a = tt
IsApart-new n m c (some o) l (a, e, b, d) = (a, e, omega (arith, b), λ x. omega (arith, x, b))

module _ {Float : Type 0} where
  init-IsSound : IsSound (init {Float = Float})
  unfolding init
  init-IsSound = record {
    home = 0;
    committed_at = refl;
    home_made = omega arith;
    working_apart = tt;
    repositories_apart = tt;
  }

  pub store-aenter : (u : FakeUnitOfWork Float) → length (aenter u).store ≡ suc (length u.store)
  unfolding aenter clone
  store-aenter u = omega (arith, length-append u.store (view u.store u.committed_state ∷ []))

  aenter-IsSound : (u : FakeUnitOfWork Float) → IsSound u → IsSound (aenter u)
  unfolding aenter clone
  aenter-IsSound u s =
      let new : IsApart (length (aenter u).store) s.home (some (at (length u.store))) =
        (length u.store, refl, omega (arith, store-aenter u), λ x. omega (arith, x, s.home_made)) in
      record {
        home = s.home;
        committed_at = s.committed_at;
        home_made = omega (arith, s.home_made, store-aenter u);
        working_apart = new;
        repositories_apart = new;
      }

  -- With a working copy `commit` makes a new copy of it the committed state.
  pub commit-some :
      (u : FakeUnitOfWork Float) (w : StateObject)
      → u.working ≡ some w
      → (commit u).1 ≡ record u {
        store = u.store ++ view u.store w ∷ [];
        committed_state = at (length u.store);
        committed = true;
      }
  unfolding commit clone
  commit-some u w e = ground (arith, e)

  commit-none : (u : FakeUnitOfWork Float) → u.working ≡ none → (commit u).1 ≡ u
  unfolding commit
  commit-none u e = ground (arith, e)

  commit-IsSound :
      (u : FakeUnitOfWork Float) (o : Option StateObject)
      → u.working ≡ o
      → IsSound u
      → IsSound (commit u).1
  commit-IsSound u none e s = subst IsSound (sym (commit-none u e)) s
  commit-IsSound u (some w) e s =
      let more = length-append u.store (view u.store w ∷ []) in
      subst IsSound (sym (commit-some u w e)) (record {
        home = length u.store;
        committed_at = refl;
        home_made = omega (arith, more);
        working_apart =
            IsApart-new (length u.store) _ s.home u.working (omega (arith, more)) s.working_apart;
        repositories_apart =
            IsApart-new (length u.store) _ s.home u.repositories (omega (arith, more))
              s.repositories_apart;
      })

  pub add_some :
      (w : Write Float) (u : FakeUnitOfWork Float) (o : StateObject)
      → u.repositories ≡ some o
      → (add w u).1 ≡ record u { store = set_cell (address w o) (λ t. apply t w) u.store }
  unfolding add
  add_some w u o e = ground (arith, e)

  pub add_none :
      (w : Write Float) (u : FakeUnitOfWork Float) → u.repositories ≡ none → (add w u).1 ≡ u
  unfolding add
  add_none w u e = ground (arith, e)

  add-IsSound :
      (w : Write Float) (u : FakeUnitOfWork Float) (o : Option StateObject)
      → u.repositories ≡ o
      → IsSound u
      → IsSound (add w u).1
  add-IsSound w u none e s = subst IsSound (sym (add_none w u e)) s
  add-IsSound w u (some o) e s =
      let same = length-set_cell (address w o) (λ t. apply t w) u.store in
      subst IsSound (sym (add_some w u o e)) (record {
        home = s.home;
        committed_at = s.committed_at;
        home_made = omega (arith, same, s.home_made);
        working_apart =
            IsApart-grow (length u.store) _ s.home u.working (omega (arith, same)) s.working_apart;
        repositories_apart =
            IsApart-grow (length u.store) _ s.home u.repositories (omega (arith, same))
              s.repositories_apart;
      })

  -- The flag is kept: a rollback clears it only where it is cleared already.
  pub aexit_keeps : (u : FakeUnitOfWork Float) → aexit u ≡ record u { working = none }
  unfolding aexit rollback
  aexit_keeps u = ground arith

  aexit-IsSound : (u : FakeUnitOfWork Float) → IsSound u → IsSound (aexit u)
  aexit-IsSound u s = subst IsSound (sym (aexit_keeps u)) (record {
    home = s.home;
    committed_at = s.committed_at;
    home_made = s.home_made;
    working_apart = tt;
    repositories_apart = s.repositories_apart;
  })

  rollback-IsSound : (u : FakeUnitOfWork Float) → IsSound u → IsSound (rollback u)
  unfolding rollback
  rollback-IsSound u s = record {
    home = s.home;
    committed_at = s.committed_at;
    home_made = s.home_made;
    working_apart = s.working_apart;
    repositories_apart = s.repositories_apart;
  }

  step-IsSound : (u : FakeUnitOfWork Float) (c : Call Float) → IsSound u → IsSound (step u c)
  unfolding step
  step-IsSound u enter s = aenter-IsSound u s
  step-IsSound u exit s = aexit-IsSound u s
  step-IsSound u commit_call s = commit-IsSound u u.working refl s
  step-IsSound u rollback_call s = rollback-IsSound u s
  step-IsSound u (write w) s = add-IsSound w u u.repositories refl s

  pub run-IsSound :
      (u : FakeUnitOfWork Float) (cs : List (Call Float)) → IsSound u → IsSound (run u cs)
  unfolding run
  run-IsSound u [] s = s
  run-IsSound u (c ∷ cs) s = run-IsSound (step u c) cs (step-IsSound u c s)

  -- After any calls on a new unit of work.
  pub run-init-IsSound : (cs : List (Call Float)) → IsSound (run init cs)
  run-init-IsSound cs = run-IsSound init cs init-IsSound
