-- ===== src/Persistence/UnitOfWork/Quiet.antt =====
-- Without a `commit` nothing is published.
use mathlib.Core.Path.{subst}
use mac_llm_ops_lab.Prelude.{
  ◌≡◌, refl, sym, ap, ◌∙◌, Bool, true, false, Option, none, some, List, [], ◌∷◌, ◌++◌, arith, any,
  length,
}
use mac_llm_ops_lab.Persistence.Repositories.{Write, apply}
use mac_llm_ops_lab.Persistence.UnitOfWork.{
  StateObject, FakeUnitOfWork, Call, enter, exit, commit_call, rollback_call, write, init, clone,
  aenter, rollback, add, step, run, cell, set_cell, view, address, published,
}
use mac_llm_ops_lab.Persistence.UnitOfWork.Cells.{cell-append, cell-set_other, address-at}
use mac_llm_ops_lab.Persistence.UnitOfWork.Sound.{
  IsSound, IsApart, add_some, add_none, aexit_keeps, run-IsSound, run-init-IsSound,
}

module _ {Float : Type 0} where
  abbrev pub is_commit : Call Float → Bool
  is_commit commit_call = true
  is_commit _ = false

  published_home : (u : FakeUnitOfWork Float) (s : IsSound u) → published u ≡ cell s.home u.store
  unfolding published view
  published_home u s = ap (view u.store) s.committed_at

  published-aenter :
      (u : FakeUnitOfWork Float) (s : IsSound u)
      → published (aenter u) ≡ cell s.home (u.store ++ view u.store u.committed_state ∷ [])
  unfolding published aenter clone view
  published-aenter u s = ap (view (aenter u).store) s.committed_at

  add-published :
      (w : Write Float) (u : FakeUnitOfWork Float) (o : Option StateObject)
      → u.repositories ≡ o
      → IsSound u
      → published (add w u).1 ≡ published u
  add-published w u none e s = ap published (add_none w u e)
  add-published w u (some o) e s =
      let (a, o_at, _, d) = subst (IsApart (length u.store) s.home) e s.repositories_apart in
      let at_a : address w o ≡ a = ap (address w) o_at ∙ address-at w a in
      let u' : FakeUnitOfWork Float = record u {
        store = set_cell (address w o) (λ t. apply t w) u.store;
      } in
      ap published (add_some w u o e)
      ∙ unfold published view in
        ap (view u'.store) s.committed_at
        ∙ cell-set_other (address w o) s.home (λ t. apply t w) u.store (λ x. d (sym at_a ∙ x))
        ∙ sym (published_home u s)

  step_no_commit :
      (c : Call Float) (u : FakeUnitOfWork Float)
      → is_commit c ≡ false
      → IsSound u
      → published (step u c) ≡ published u
  unfolding step
  step_no_commit commit_call u h s = cc
  step_no_commit enter u h s =
      published-aenter u s
      ∙ cell-append s.home u.store (view u.store u.committed_state) s.home_made
      ∙ sym (published_home u s)
  step_no_commit exit u h s = ap published (aexit_keeps u) ∙ unfold published in refl
  step_no_commit rollback_call u h s = unfold published rollback in refl
  step_no_commit (write w) u h s = add-published w u u.repositories refl s

  pub run_quiet :
      (cs : List (Call Float)) (u : FakeUnitOfWork Float)
      → any is_commit cs ≡ false
      → IsSound u
      → published (run u cs) ≡ published u
  unfolding run
  run_quiet [] u h s = refl
  run_quiet (c ∷ cs) u h s =
      run_quiet cs (step u c) (ground arith) (run-IsSound u (c ∷ []) s)
      ∙ step_no_commit c u (ground arith) s

  -- After any calls on a new unit of work: further calls, in a session or outside, in any order,
  -- leave what is published as it was, as long as no `commit` is among them.
  pub run_no_commit :
      (before cs : List (Call Float))
      → any is_commit cs ≡ false
      → published (run (run init before) cs) ≡ published (run init before)
  run_no_commit before cs h = run_quiet cs (run init before) h (run-init-IsSound before)
