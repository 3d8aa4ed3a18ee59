-- ===== src/Persistence/Repositories/Tests.antt =====
-- The theorems on the repositories at concrete inputs.
use mac_llm_ops_lab.Prelude.{pos, ◌≡◌, refl, none, some, [], ◌∷◌, ℕ, string_eq}
use mac_llm_ops_lab.Persistence.Domain.{
  naive, ModelCatalogEntry, NodeInventoryEntry, InferenceRun, BenchmarkResult, ArtifactPointer,
}
use mac_llm_ops_lab.Persistence.Repositories.{
  PersistenceState, empty, add_model, add_node, add_run, add_benchmark, add_artifact, get_item,
  list_for_model, benchmarks_for_run, artifacts_for_run, fake_repositories,
}
use mac_llm_ops_lab.Persistence.Repositories.Reads.{get_item-add, list_for-add}
use mac_llm_ops_lab.Persistence.Repositories.Refined.{IsKeyedState, fake_repositories-Refine}
use mac_llm_ops_lab.Persistence.Ports.{RefineAll}
use mac_llm_ops_lab.Py.Dict.{contains, get}

abbrev model : ModelCatalogEntry
model = record {
  model_id = "m";
  backend = "fake";
  display_name = "M";
  source_url = "u";
  license = "l";
  tags = [];
  context_window = none;
  created_at = naive (pos 0);
}

abbrev node : NodeInventoryEntry
node = record {
  node_id = "n";
  hostname = "h";
  chip = "c";
  memory_gib = pos 1;
  role = "r";
  status = "up";
  updated_at = naive (pos 0);
}

abbrev inference : InferenceRun
inference = record {
  run_id = "r";
  model_id = "m";
  node_id = "n";
  status = "done";
  prompt_tokens = pos 1;
  completion_tokens = pos 2;
  started_at = naive (pos 0);
  completed_at = none;
}

abbrev result : BenchmarkResult ℕ
result = record {
  result_id = "b";
  run_id = "r";
  workload_name = "w";
  requests_per_second = 1;
  p95_latency_ms = 2;
  created_at = naive (pos 0);
}

abbrev pointer : ArtifactPointer
pointer = record {
  artifact_id = "a";
  run_id = "r";
  kind = "log";
  uri = "u";
  sha256 = none;
  created_at = naive (pos 0);
}

abbrev start : PersistenceState ℕ
start = empty

get_item-add_test :
    (get_item "m" (add_model model start).models ≡ some model)
    × (get_item "m" (add_node node start).nodes ≡ get_item "m" start.nodes)
    × (get_item "m" (add_run inference start).runs ≡ get_item "m" start.runs)
get_item-add_test = get_item-add start "m" model node inference

list_for-add_test :
    (list_for_model "r" (add_run inference start) ≡ [])
    × (benchmarks_for_run "r" (add_benchmark result start) ≡ result ∷ [])
    × (artifacts_for_run "r" (add_artifact pointer start) ≡ pointer ∷ [])
unfolding empty contains list_for_model benchmarks_for_run artifacts_for_run
list_for-add_test = list_for-add start "r" inference result pointer refl refl refl

fake_repositories-Refine_example :
    RefineAll IsKeyedState
      (λ k s. get k s.benchmarks)
      (λ k s. get k s.artifacts)
      (fake_repositories {Float = ℕ})
fake_repositories-Refine_example = fake_repositories-Refine ℕ
