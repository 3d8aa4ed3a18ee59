-- ===== src/Persistence/Repositories/Reads.antt =====
-- What the repositories read back after a write.
use mac_llm_ops_lab.Prelude.{
  String, ◌≡◌, ap, ◌∙◌, Bool, false, some, [], ◌∷◌, ◌++◌, ◌==◌, string_eq, keep, keep-append,
  if◌then◌else◌,
}
use mac_llm_ops_lab.Py.Dict.{Dict, put, contains, values, get-put, values-put_new}
use mac_llm_ops_lab.Persistence.Domain.{
  ModelCatalogEntry, NodeInventoryEntry, InferenceRun, BenchmarkResult, ArtifactPointer,
}
use mac_llm_ops_lab.Persistence.Repositories.{
  PersistenceState, add_model, add_node, add_run, add_benchmark, add_artifact, get_item,
  list_for_model, benchmarks_for_run, artifacts_for_run,
}

keep-put_new :
    {T : Type 0} (p : T → Bool) (k : String) (v : T) (d : Dict String T)
    → contains k d ≡ false
    → keep p (values (put k v d)) ≡ keep p (values d) ++ keep p (v ∷ [])
keep-put_new p k v d h = ap (keep p) (values-put_new k v d h) ∙ keep-append p (values d) (v ∷ [])

module _ {Float : Type 0} where
  -- After an `add`, `get` at the entry's identifier returns the entry, and at any other identifier
  -- what it returned before; so for models, nodes and runs.
  pub get_item-add :
      (s : PersistenceState Float) (id : String) (model : ModelCatalogEntry)
      (node : NodeInventoryEntry) (run : InferenceRun)
      → (get_item id (add_model model s).models
          ≡ (if id == model.model_id then some model else get_item id s.models))
        × (get_item id (add_node node s).nodes
            ≡ (if id == node.node_id then some node else get_item id s.nodes))
        × (get_item id (add_run run s).runs
            ≡ (if id == run.run_id then some run else get_item id s.runs))
  unfolding get_item add_model add_node add_run
  get_item-add s id model node run = (
    get-put id model.model_id model s.models,
    get-put id node.node_id node s.nodes,
    get-put id run.run_id run s.runs,
  )

  -- A run, a result or a pointer with a new identifier goes to the end of the list of its model or
  -- its run, and leaves the list of any other as it was.
  pub list_for-add :
      (s : PersistenceState Float) (id : String) (run : InferenceRun)
      (result : BenchmarkResult Float) (pointer : ArtifactPointer)
      → contains run.run_id s.runs ≡ false
      → contains result.result_id s.benchmarks ≡ false
      → contains pointer.artifact_id s.artifacts ≡ false
      → (list_for_model id (add_run run s)
          ≡ list_for_model id s ++ (if run.model_id == id then run ∷ [] else []))
        × (benchmarks_for_run id (add_benchmark result s)
            ≡ benchmarks_for_run id s ++ (if result.run_id == id then result ∷ [] else []))
        × (artifacts_for_run id (add_artifact pointer s)
            ≡ artifacts_for_run id s ++ (if pointer.run_id == id then pointer ∷ [] else []))
  unfolding list_for_model benchmarks_for_run artifacts_for_run add_run add_benchmark add_artifact
  list_for-add s id run result pointer new_run new_result new_pointer = (
    keep-put_new (λ r. r.model_id == id) run.run_id run s.runs new_run,
    keep-put_new (λ r. r.run_id == id) result.result_id result s.benchmarks new_result,
    keep-put_new (λ p. p.run_id == id) pointer.artifact_id pointer s.artifacts new_pointer,
  )
