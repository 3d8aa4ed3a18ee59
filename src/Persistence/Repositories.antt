-- ===== src/Persistence/Repositories.antt =====
-- persistence/fakes.py: `_PersistenceState` and the repositories over its dictionaries. A repository
-- holds one dictionary of the state; here its methods take the state and return the new one.
pub mod Kept
pub mod Refined
mod Reads
mod Tests
use mac_llm_ops_lab.Prelude.{String, Option, List, [], ◌∷◌, ◌==◌, string_eq, keep}
use mac_llm_ops_lab.Py.Dict.{Dict, get, put, values}
use mac_llm_ops_lab.Persistence.Domain.{
  ModelCatalogEntry, NodeInventoryEntry, InferenceRun, BenchmarkResult, ArtifactPointer,
}
use mac_llm_ops_lab.Persistence.Ports.{KeyedRepository, Repository, Repositories}

pub record PersistenceState (Float : Type 0) : Type 0 where
  pub models : Dict String ModelCatalogEntry
  pub nodes : Dict String NodeInventoryEntry
  pub runs : Dict String InferenceRun
  pub benchmarks : Dict String (BenchmarkResult Float)
  pub artifacts : Dict String ArtifactPointer

-- `_KeyedRepository.get` and `list` on its dictionary.
unfoldable pub get_item : {T : Type 0} → String → Dict String T → Option T
unfolding get
get_item item_id items = get item_id items

unfoldable pub list_items : {T : Type 0} → Dict String T → List T
list_items items = values items

module _ {Float : Type 0} where
  unfoldable pub empty : PersistenceState Float
  empty = record { models = []; nodes = []; runs = []; benchmarks = []; artifacts = [] }

  unfoldable pub add_model : ModelCatalogEntry → PersistenceState Float → PersistenceState Float
  add_model entry s = record s { models = put entry.model_id entry s.models }

  unfoldable pub add_node : NodeInventoryEntry → PersistenceState Float → PersistenceState Float
  add_node entry s = record s { nodes = put entry.node_id entry s.nodes }

  unfoldable pub add_run : InferenceRun → PersistenceState Float → PersistenceState Float
  add_run run s = record s { runs = put run.run_id run s.runs }

  unfoldable pub add_benchmark :
      BenchmarkResult Float → PersistenceState Float → PersistenceState Float
  add_benchmark result s = record s { benchmarks = put result.result_id result s.benchmarks }

  unfoldable pub add_artifact : ArtifactPointer → PersistenceState Float → PersistenceState Float
  add_artifact pointer s = record s { artifacts = put pointer.artifact_id pointer s.artifacts }

  unfoldable pub list_for_model : String → PersistenceState Float → List InferenceRun
  list_for_model model_id s = keep (λ run. run.model_id == model_id) (values s.runs)

  unfoldable pub benchmarks_for_run : String → PersistenceState Float → List (BenchmarkResult Float)
  benchmarks_for_run run_id s = keep (λ result. result.run_id == run_id) (values s.benchmarks)

  unfoldable pub artifacts_for_run : String → PersistenceState Float → List ArtifactPointer
  artifacts_for_run run_id s = keep (λ pointer. pointer.run_id == run_id) (values s.artifacts)

-- The repositories as the ports that `FakeUnitOfWork.__aenter__` sets.
unfoldable pub fake_repositories : {Float : Type 0} → Repositories Float (PersistenceState Float)
fake_repositories = record {
  models = record {
    add = add_model;
    get = λ model_id s. get_item model_id s.models;
    list = λ q s. list_items s.models;
  };
  nodes = record {
    add = add_node;
    get = λ node_id s. get_item node_id s.nodes;
    list = λ q s. list_items s.nodes;
  };
  runs = record { add = add_run; get = λ run_id s. get_item run_id s.runs; list = list_for_model };
  benchmarks = record { add = add_benchmark; list = benchmarks_for_run };
  artifacts = record { add = add_artifact; list = artifacts_for_run };
}

-- One `add` of one of the five repositories.
pub data Write (Float : Type 0) : Type 0 where
  model_write : ModelCatalogEntry → Write Float
  node_write : NodeInventoryEntry → Write Float
  run_write : InferenceRun → Write Float
  benchmark_write : BenchmarkResult Float → Write Float
  artifact_write : ArtifactPointer → Write Float

module _ {Float : Type 0} where
  unfoldable pub apply : PersistenceState Float → Write Float → PersistenceState Float
  apply s (model_write entry) = add_model entry s
  apply s (node_write entry) = add_node entry s
  apply s (run_write run) = add_run run s
  apply s (benchmark_write result) = add_benchmark result s
  apply s (artifact_write pointer) = add_artifact pointer s

  unfoldable pub apply_all : PersistenceState Float → List (Write Float) → PersistenceState Float
  apply_all s [] = s
  apply_all s (w ∷ ws) = apply_all (apply s w) ws
