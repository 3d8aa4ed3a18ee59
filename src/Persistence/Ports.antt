-- ===== src/Persistence/Ports.antt =====
-- persistence/ports.py: the protocols, over the type `S` of the store that a method reads and writes,
-- and what a repository promises: it is a map from identifiers to entries. A query is what a method
-- that lists is given, nothing or an identifier.
use mac_llm_ops_lab.Prelude.{
  In, String, ◌≡◌, Bool, true, Option, some, List, ◌==◌, string_eq, if◌then◌else◌,
}
use mac_llm_ops_lab.Persistence.Domain.{
  ModelCatalogEntry, NodeInventoryEntry, InferenceRun, BenchmarkResult, ArtifactPointer,
}

pub record KeyedRepository (T Q S : Type 0) : Type 0 where
  pub add : T → S → S
  pub get : String → S → Option T
  pub list : Q → S → List T

pub record Repository (T Q S : Type 0) : Type 0 where
  pub add : T → S → S
  pub list : Q → S → List T

-- The repositories of `UnitOfWork`.
pub record Repositories (Float S : Type 0) : Type 0 where
  pub models : KeyedRepository ModelCatalogEntry (Unit {0}) S
  pub nodes : KeyedRepository NodeInventoryEntry (Unit {0}) S
  pub runs : KeyedRepository InferenceRun String S
  pub benchmarks : Repository (BenchmarkResult Float) String S
  pub artifacts : Repository ArtifactPointer String S

-- What a repository promises, where `view` is the entry that the store has at an identifier: a write
-- sets the entry at its own identifier and no other, and a query lists the entries that fit it, all
-- of them and nothing else.
pub record Refines {T Q S : Type 0} (key : T → String) (fits : Q → T → Bool) (IsValid : S → Type 0)
    (view : String → S → Option T) (add : T → S → S) (list : Q → S → List T) : Type 0 where
  pub add-IsValid : (e : T) (s : S) → IsValid s → IsValid (add e s)
  pub view-add :
      (k : String) (e : T) (s : S)
      → IsValid s
      → view k (add e s) ≡ (if k == key e then some e else view k s)
  pub list_sound :
      (q : Q) (e : T) (s : S)
      → IsValid s
      → In e (list q s)
      → (view (key e) s ≡ some e) × (fits q e ≡ true)
  pub list_complete :
      (q : Q) (k : String) (e : T) (s : S)
      → IsValid s
      → view k s ≡ some e
      → fits q e ≡ true
      → In e (list q s)

-- The queries of the ports.
abbrev pub fits_all {ℓ} : {T : Type ℓ} → Unit {0} → T → Bool
fits_all q e = true

abbrev pub fits_model : String → InferenceRun → Bool
fits_model model_id run = run.model_id == model_id

abbrev pub fits_run_result : {Float : Type 0} → String → BenchmarkResult Float → Bool
fits_run_result run_id result = result.run_id == run_id

abbrev pub fits_run_pointer : String → ArtifactPointer → Bool
fits_run_pointer run_id pointer = pointer.run_id == run_id

-- What the five repositories of a unit of work promise together. The ports of results and pointers
-- have no `get`: their views are given.
abbrev pub RefineAll :
    {Float S : Type 0}
    → (S → Type 0)
    → (String → S → Option (BenchmarkResult Float))
    → (String → S → Option ArtifactPointer)
    → Repositories Float S
    → Type 0
RefineAll IsValid result_at pointer_at r =
    Refines (λ e. e.model_id) fits_all IsValid r.models.get r.models.add r.models.list
    × Refines (λ e. e.node_id) fits_all IsValid r.nodes.get r.nodes.add r.nodes.list
    × Refines (λ e. e.run_id) fits_model IsValid r.runs.get r.runs.add r.runs.list
    × Refines (λ e. e.result_id) fits_run_result IsValid result_at r.benchmarks.add
        r.benchmarks.list
    × Refines (λ e. e.artifact_id) fits_run_pointer IsValid pointer_at r.artifacts.add
        r.artifacts.list
