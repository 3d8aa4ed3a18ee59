-- ===== src/Persistence/UnitOfWork/Sessions.antt =====
-- What the calls of a session publish, from any state that earlier calls can have left.
use mathlib.Core.Path.{subst}
use mac_llm_ops_lab.Prelude.{
  ℕ, ◌≡◌, refl, sym, ap, ◌∙◌, true, false, none, some, List, [], ◌∷◌, ◌++◌, arith, any, length,
}
use mac_llm_ops_lab.Persistence.Repositories.{Write, apply, apply_all}
use mac_llm_ops_lab.Persistence.UnitOfWork.{
  at, FakeUnitOfWork, Call, enter, exit, commit_call, rollback_call, write, init, clone, aenter,
  rollback, commit, add, step, run, cell, set_cell, view, published,
}
use mac_llm_ops_lab.Persistence.UnitOfWork.Cells.{
  cell-new, cell-set_cell, set_cell-same, set_cell-set_cell, address-at,
}
use mac_llm_ops_lab.Persistence.UnitOfWork.Quiet.{is_commit, run_quiet}
use mac_llm_ops_lab.Persistence.UnitOfWork.Sound.{
  IsSound, commit-some, add_some, aexit_keeps, run-IsSound, run-init-IsSound, store-aenter,
}

module _ {Float : Type 0} where
  -- The calls that add the entries of `ws`, in order.
  abbrev pub writes : List (Write Float) → List (Call Float)
  writes [] = []
  writes (w ∷ ws) = write w ∷ writes ws

  run-append :
      (cs ds : List (Call Float)) (u : FakeUnitOfWork Float) → run u (cs ++ ds) ≡ run (run u cs) ds
  unfolding run
  run-append [] ds u = refl
  run-append (c ∷ cs) ds u = run-append cs ds (step u c)

  -- Writes change the one cell that the repositories hold.
  run-writes :
      (ws : List (Write Float)) (a : ℕ) (u : FakeUnitOfWork Float)
      → u.repositories ≡ some (at a)
      → run u (writes ws) ≡ record u { store = set_cell a (λ s. apply_all s ws) u.store }
  unfolding run step apply_all
  run-writes [] a u h = ap (λ x. record u { store = x }) (sym (set_cell-same a u.store))
  run-writes (w ∷ ws) a u h =
      let u' : FakeUnitOfWork Float = record u { store = set_cell a (λ s. apply s w) u.store } in
      let one : (add w u).1 ≡ u' =
        add_some w u (at a) h
        ∙ ap (λ x. record u { store = set_cell x (λ s. apply s w) u.store }) (address-at w a) in
      ap (λ v. run v (writes ws)) one
      ∙ run-writes ws a u' h
      ∙ ap (λ x. record u { store = x })
          (set_cell-set_cell a (λ s. apply s w) (λ s. apply_all s ws) u.store)

  run-writes_then :
      (ws : List (Write Float)) (cs : List (Call Float)) (a : ℕ) (u : FakeUnitOfWork Float)
      → u.repositories ≡ some (at a)
      → run u (writes ws ++ cs)
        ≡ run (record u { store = set_cell a (λ s. apply_all s ws) u.store }) cs
  run-writes_then ws cs a u h =
      run-append (writes ws) cs u ∙ ap (λ v. run v cs) (run-writes ws a u h)

  -- What is written late, and the end of the session.
  abbrev ending : List (Write Float) → List (Call Float)
  ending ws = writes ws ++ exit ∷ []

  ending_no_commit : (ws : List (Write Float)) → any is_commit (ending ws) ≡ false
  ending_no_commit [] = refl
  ending_no_commit (w ∷ ws) = ending_no_commit ws

  -- The state of a session after its writes: the new cell has them on top of what is published.
  abbrev written : FakeUnitOfWork Float → List (Write Float) → FakeUnitOfWork Float
  written u ws = record (aenter u) {
    store = set_cell (length u.store) (λ s. apply_all s ws) (aenter u).store;
  }

  run-session :
      (ws : List (Write Float)) (cs : List (Call Float)) (u : FakeUnitOfWork Float)
      → run u (enter ∷ (writes ws ++ cs)) ≡ run (written u ws) cs
  unfolding run step aenter clone
  run-session ws cs u = run-writes_then ws cs (length u.store) (aenter u) refl

  cell-written :
      (ws : List (Write Float)) (u : FakeUnitOfWork Float)
      → cell (length u.store) (written u ws).store ≡ apply_all (published u) ws
  unfolding aenter clone published
  cell-written ws u =
      cell-set_cell (length u.store) (λ s. apply_all s ws) (aenter u).store
        (omega (arith, store-aenter u))
      ∙ ap (λ s. apply_all s ws) (cell-new u.store (view u.store u.committed_state))

  -- `commit` publishes what is in the working copy.
  commit-published :
      (n : ℕ) (u : FakeUnitOfWork Float)
      → u.working ≡ some (at n)
      → published (commit u).1 ≡ cell n u.store
  unfolding published view
  commit-published n u e =
      ap published (commit-some u (at n) e) ∙ cell-new u.store (view u.store (at n))

  abbrev after_commit : FakeUnitOfWork Float → List (Write Float) → FakeUnitOfWork Float
  after_commit u ws = (commit (written u ws)).1

  after_commit-IsSound :
      (ws : List (Write Float)) (u : FakeUnitOfWork Float) → IsSound u → IsSound (after_commit u ws)
  unfolding run step
  after_commit-IsSound ws u s =
      subst IsSound (run-session ws (commit_call ∷ []) u)
        (run-IsSound u (enter ∷ (writes ws ++ commit_call ∷ [])) s)

  after_commit_fields :
      (ws : List (Write Float)) (u : FakeUnitOfWork Float)
      → ((after_commit u ws).repositories ≡ some (at (length u.store)))
        × ((after_commit u ws).committed ≡ true)
  unfolding aenter clone
  after_commit_fields ws u =
      let e = commit-some (written u ws) (at (length u.store)) refl in
      (ap (λ v. v.repositories) e, ap (λ v. v.committed) e)

  run-ending :
      (late : List (Write Float)) (a : ℕ) (u : FakeUnitOfWork Float)
      → u.repositories ≡ some (at a)
      → ((run u (ending late)).working ≡ none) × ((run u (ending late)).committed ≡ u.committed)
  unfolding run step
  run-ending late a u h =
      let u' : FakeUnitOfWork Float = record u {
        store = set_cell a (λ s. apply_all s late) u.store;
      } in
      let e = run-writes_then late (exit ∷ []) a u h ∙ aexit_keeps u' in
      (ap (λ v. v.working) e, ap (λ v. v.committed) e)

  -- After any calls on a new unit of work: a session that writes `ws`, commits, writes `late` and
  -- ends publishes what was published before it with the entries of `ws` added in order, and none
  -- of the entries of `late`; afterwards there is no working copy, and `committed` is set.
  pub run_transaction :
      (before : List (Call Float)) (ws late : List (Write Float))
      → let u = run init before in
        let u' = run u (enter ∷ (writes ws ++ (commit_call ∷ (writes late ++ exit ∷ [])))) in
        (published u' ≡ apply_all (published u) ws) × (u'.working ≡ none) × (u'.committed ≡ true)
  run_transaction before ws late =
      let u : FakeUnitOfWork Float = run init before in
      let v : FakeUnitOfWork Float = after_commit u ws in
      let e : run u (enter ∷ (writes ws ++ (commit_call ∷ ending late))) ≡ run v (ending late) =
        unfold run step in run-session ws (commit_call ∷ ending late) u in
      let (holds, flag) = after_commit_fields ws u in
      let (gone, kept) = run-ending late (length u.store) v holds in
      let copy : (written u ws).working ≡ some (at (length u.store)) =
        unfold aenter clone in refl in
      (
        ap published e
            ∙ run_quiet (ending late) v (ending_no_commit late)
                (after_commit-IsSound ws u (run-init-IsSound before))
            ∙ commit-published (length u.store) (written u ws) copy
            ∙ cell-written ws u,
        ap (λ x. x.working) e ∙ gone,
        ap (λ x. x.committed) e ∙ kept ∙ flag,
      )

  -- After any calls on a new unit of work: an explicit `rollback` discards nothing, since a later
  -- `commit` in the same session publishes what was written before the rollback.
  pub run_rollback_commit :
      (before : List (Call Float)) (ws : List (Write Float))
      → let u = run init before in
        published (run u (enter ∷ (writes ws ++ rollback_call ∷ commit_call ∷ exit ∷ [])))
        ≡ apply_all (published u) ws
  unfolding run step rollback published aenter clone
  run_rollback_commit before ws =
      let u : FakeUnitOfWork Float = run init before in
      let v : FakeUnitOfWork Float = rollback (written u ws) in
      ap published (run-session ws (rollback_call ∷ commit_call ∷ exit ∷ []) u)
      ∙ ap published (aexit_keeps (commit v).1)
      ∙ commit-published (length u.store) v refl
      ∙ cell-written ws u
