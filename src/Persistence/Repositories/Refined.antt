-- ===== src/Persistence/Repositories/Refined.antt =====
-- Each in-memory repository keeps the promise of its port.
use mac_llm_ops_lab.Prelude.{String, ◌≡◌, refl, sym, Bool, List, string_eq, keep}
use mac_llm_ops_lab.Py.Dict.{Dict, get, put, values, get-put}
use mac_llm_ops_lab.Persistence.Ports.{
  Refines, RefineAll, fits_all, fits_model, fits_run_result, fits_run_pointer,
}
use mac_llm_ops_lab.Persistence.Repositories.{
  PersistenceState, get_item, list_items, add_model, add_node, add_run, add_benchmark, add_artifact,
  list_for_model, benchmarks_for_run, artifacts_for_run, fake_repositories,
}
use mac_llm_ops_lab.Persistence.Repositories.Kept.{
  IsKeyed, put-IsKeyed, keep_sound, keep_complete, keep_all,
}

-- A repository on one dictionary of a state.
module _ {T Q S : Type 0} (key : T → String) (fits : Q → T → Bool) (items : S → Dict String T)
    (IsValid : S → Type 0) (add : T → S → S) (list : Q → S → List T)
    (valid : (s : S) → IsValid s → IsKeyed key (items s))
    (kept : (e : T) (s : S) → IsValid s → IsKeyed key (items (add e s)) → IsValid (add e s))
    (added : (e : T) (s : S) → items (add e s) ≡ put (key e) e (items s))
    (listed : (q : Q) (s : S) → list q s ≡ keep (fits q) (values (items s))) where
  dict-Refines : Refines key fits IsValid (λ k s. get k (items s)) add list
  dict-Refines = record {
    add-IsValid = λ e s v. kept e s v (rw (added e s) (put-IsKeyed key e (items s) (valid s v)));
    view-add = λ k e s v. rw (added e s) (get-put k (key e) e (items s));
    list_sound =
        λ q e s v i. keep_sound key (fits q) e (items s) (valid s v) (rw (listed q s) at i);
    list_complete = λ q k e s v g h. rw (listed q s) (keep_complete key (fits q) k e (items s) g h);
  }

-- Each dictionary has every entry under its own identifier, once.
abbrev pub IsKeyedState : {Float : Type 0} → PersistenceState Float → Type 0
IsKeyedState s =
    IsKeyed (λ e. e.model_id) s.models
    × IsKeyed (λ e. e.node_id) s.nodes
    × IsKeyed (λ e. e.run_id) s.runs
    × IsKeyed (λ e. e.result_id) s.benchmarks
    × IsKeyed (λ e. e.artifact_id) s.artifacts

-- The five in-memory repositories are maps from identifiers to entries, as the ports promise: on a
-- state whose dictionaries have every entry under its own identifier and once, an `add` keeps that
-- invariant and sets the entry at its identifier and nothing else, a `get` gives what is there, and
-- a listing has exactly the entries that fit its query.
pub fake_repositories-Refine :
    (Float : Type 0)
    → RefineAll IsKeyedState
        (λ k s. get k s.benchmarks)
        (λ k s. get k s.artifacts)
        (fake_repositories {Float = Float})
unfolding fake_repositories get_item list_items add_model add_node add_run add_benchmark
    add_artifact list_for_model benchmarks_for_run artifacts_for_run
fake_repositories-Refine Float = (
  dict-Refines (λ e. e.model_id) fits_all (λ s. s.models) IsKeyedState add_model
      (λ q s. list_items s.models) (λ s v. v.0) (λ e s v k. (k, v.1, v.2, v.3, v.4)) (λ e s. refl)
      (λ q s. sym (keep_all (values s.models))),
  dict-Refines (λ e. e.node_id) fits_all (λ s. s.nodes) IsKeyedState add_node
      (λ q s. list_items s.nodes) (λ s v. v.1) (λ e s v k. (v.0, k, v.2, v.3, v.4)) (λ e s. refl)
      (λ q s. sym (keep_all (values s.nodes))),
  dict-Refines (λ e. e.run_id) fits_model (λ s. s.runs) IsKeyedState add_run list_for_model
      (λ s v. v.2) (λ e s v k. (v.0, v.1, k, v.3, v.4)) (λ e s. refl) (λ q s. refl),
  dict-Refines (λ e. e.result_id) fits_run_result (λ s. s.benchmarks) IsKeyedState add_benchmark
      benchmarks_for_run (λ s v. v.3) (λ e s v k. (v.0, v.1, v.2, k, v.4)) (λ e s. refl)
      (λ q s. refl),
  dict-Refines (λ e. e.artifact_id) fits_run_pointer (λ s. s.artifacts) IsKeyedState add_artifact
      artifacts_for_run (λ s v. v.4) (λ e s v k. (v.0, v.1, v.2, v.3, k)) (λ e s. refl)
      (λ q s. refl),
)
