-- ===== src/Persistence/UnitOfWork/Tests.antt =====
-- The theorems on sessions at concrete inputs.
use mac_llm_ops_lab.Prelude.{pos, ℕ, ◌≡◌, refl, true, none, List, [], ◌∷◌}
use mac_llm_ops_lab.Py.Dict.{put}
use mac_llm_ops_lab.Persistence.Domain.{naive, NodeInventoryEntry}
use mac_llm_ops_lab.Persistence.Repositories.{Write, node_write, apply, apply_all, empty, add_node}
use mac_llm_ops_lab.Persistence.UnitOfWork.{
  FakeUnitOfWork, Call, enter, exit, commit_call, rollback_call, write, init, commit, aexit, run,
  aenter, add, step, rollback, cell, set_cell, view, clone, address, published,
}
use mac_llm_ops_lab.Persistence.UnitOfWork.Quiet.{run_no_commit}
use mac_llm_ops_lab.Persistence.UnitOfWork.Sessions.{run_transaction, run_rollback_commit}

abbrev node : NodeInventoryEntry
node = record {
  node_id = "n";
  hostname = "h";
  chip = "c";
  memory_gib = pos 1;
  role = "r";
  status = "up";
  updated_at = naive (pos 0);
}

abbrev studio : Write ℕ
studio = node_write node

abbrev later : Write ℕ
later = node_write (record node { status = "down" })

abbrev past : List (Call ℕ)
past = enter ∷ write studio ∷ commit_call ∷ exit ∷ []

run_no_commit_example :
    published (run (run init past) (enter ∷ write later ∷ rollback_call ∷ exit ∷ write later ∷ []))
    ≡ published (run init past)
run_no_commit_example =
    run_no_commit past (enter ∷ write later ∷ rollback_call ∷ exit ∷ write later ∷ []) refl

run_transaction_example :
    let u : FakeUnitOfWork ℕ = run init past in
    let u' = run u (enter ∷ write later ∷ commit_call ∷ write studio ∷ exit ∷ []) in
    (published u' ≡ apply_all (published u) (later ∷ []))
    × (u'.working ≡ none)
    × (u'.committed ≡ true)
run_transaction_example = run_transaction past (later ∷ []) (studio ∷ [])

run_rollback_commit_example :
    let u : FakeUnitOfWork ℕ = run init past in
    published (run u (enter ∷ write later ∷ rollback_call ∷ commit_call ∷ exit ∷ []))
    ≡ apply_all (published u) (later ∷ [])
run_rollback_commit_example = run_rollback_commit past (later ∷ [])

-- What was committed is there.
past-published : (published (run init past)).nodes ≡ ("n", node) ∷ []
unfolding published run step init aenter aexit commit add rollback cell set_cell view clone address
    apply empty add_node put
past-published = refl
