-- ===== src/Persistence/Sql/Repositories.antt =====
-- persistence/sqlalchemy.py: the five repositories. What a session does with one table is the
-- parameter `Table`: `merge` writes a row, `get_row` is `session.get`, and `scalars` is a `select`
-- with its `where` and the columns of its `order_by`. Each of them may raise, as when the database
-- refuses a row for one of its constraints, and each may change the session, which writes what is
-- pending before it reads.
pub mod Stored
use mac_llm_ops_lab.Prelude.{
  String, Bool, true, Option, none, some, List, [], ◌∷◌, map, ◌==◌, string_eq,
}
use mac_llm_ops_lab.Persistence.Domain.{
  ModelCatalogEntry, NodeInventoryEntry, InferenceRun, BenchmarkResult, ArtifactPointer,
}
use mac_llm_ops_lab.Py.Result.{Result, ok, err}
use mac_llm_ops_lab.Persistence.Sql.Rows.{
  ModelCatalogRecord, NodeInventoryRecord, InferenceRunRecord, BenchmarkResultRecord,
  ArtifactPointerRecord, model_from_domain, model_to_domain, node_from_domain, node_to_domain,
  run_from_domain, run_to_domain, result_from_domain, result_to_domain, pointer_from_domain,
  pointer_to_domain,
}

pub record Table (Row S : Type 0) : Type 0 where
  pub merge : Row → S → Result (Unit {0}) × S
  pub get_row : String → S → Result (Option Row) × S
  pub scalars : (Row → Bool) → List String → S → Result (List Row) × S

-- A repository on a session of type `S`, for entries `T`; a listing is given a `Q`.
pub record SessionKeyedRepository (T Q S : Type 0) : Type 0 where
  pub add : T → S → Result (Unit {0}) × S
  pub get : String → S → Result (Option T) × S
  pub list : Q → S → Result (List T) × S

pub record SessionRepository (T Q S : Type 0) : Type 0 where
  pub add : T → S → Result (Unit {0}) × S
  pub list : Q → S → Result (List T) × S

-- What is made of the result of an awaited call, unless it raised.
abbrev pub returned : {A B S : Type 0} → (A → B) → Result A × S → Result B × S
returned f (err e, s) = (err e, s)
returned f (ok a, s) = (ok (f a), s)

-- `record.to_domain() if record else None`
abbrev pub to_domain_or_none : {Row T : Type 0} → (Row → T) → Option Row → Option T
to_domain_or_none to_domain none = none
to_domain_or_none to_domain (some r) = some (to_domain r)

module _ {S : Type 0} where
  unfoldable pub model_catalog_repository :
      Table ModelCatalogRecord S → SessionKeyedRepository ModelCatalogEntry (Unit {0}) S
  model_catalog_repository t = record {
    add = λ entry s. t.merge (model_from_domain entry) s;
    get = λ model_id s. returned (to_domain_or_none model_to_domain) (t.get_row model_id s);
    list = λ q s. returned (map model_to_domain) (t.scalars (λ r. true) ("model_id" ∷ []) s);
  }

  unfoldable pub node_inventory_repository :
      Table NodeInventoryRecord S → SessionKeyedRepository NodeInventoryEntry (Unit {0}) S
  node_inventory_repository t = record {
    add = λ entry s. t.merge (node_from_domain entry) s;
    get = λ node_id s. returned (to_domain_or_none node_to_domain) (t.get_row node_id s);
    list = λ q s. returned (map node_to_domain) (t.scalars (λ r. true) ("node_id" ∷ []) s);
  }

  unfoldable pub inference_run_repository :
      Table InferenceRunRecord S → SessionKeyedRepository InferenceRun String S
  inference_run_repository t = record {
    add = λ run s. t.merge (run_from_domain run) s;
    get = λ run_id s. returned (to_domain_or_none run_to_domain) (t.get_row run_id s);
    list = λ model_id s.
        returned (map run_to_domain)
          (t.scalars (λ r. r.model_id == model_id) ("started_at" ∷ "run_id" ∷ []) s);
  }

  unfoldable pub benchmark_result_repository :
      {Float : Type 0}
      → Table (BenchmarkResultRecord Float) S
      → SessionRepository (BenchmarkResult Float) String S
  benchmark_result_repository t = record {
    add = λ result s. t.merge (result_from_domain result) s;
    list = λ run_id s.
        returned (map result_to_domain)
          (t.scalars (λ r. r.run_id == run_id) ("created_at" ∷ "result_id" ∷ []) s);
  }

  unfoldable pub artifact_pointer_repository :
      Table ArtifactPointerRecord S → SessionRepository ArtifactPointer String S
  artifact_pointer_repository t = record {
    add = λ pointer s. t.merge (pointer_from_domain pointer) s;
    list = λ run_id s.
        returned (map pointer_to_domain)
          (t.scalars (λ r. r.run_id == run_id) ("created_at" ∷ "artifact_id" ∷ []) s);
  }

-- The tables of one session.
pub record Tables (Float S : Type 0) : Type 0 where
  pub models : Table ModelCatalogRecord S
  pub nodes : Table NodeInventoryRecord S
  pub runs : Table InferenceRunRecord S
  pub benchmarks : Table (BenchmarkResultRecord Float) S
  pub artifacts : Table ArtifactPointerRecord S

pub record SessionRepositories (Float S : Type 0) : Type 0 where
  pub models : SessionKeyedRepository ModelCatalogEntry (Unit {0}) S
  pub nodes : SessionKeyedRepository NodeInventoryEntry (Unit {0}) S
  pub runs : SessionKeyedRepository InferenceRun String S
  pub benchmarks : SessionRepository (BenchmarkResult Float) String S
  pub artifacts : SessionRepository ArtifactPointer String S

-- The repositories that `SQLAlchemyUnitOfWork.__aenter__` makes on the session.
unfoldable pub sql_repositories : {Float S : Type 0} → Tables Float S → SessionRepositories Float S
sql_repositories t = record {
  models = model_catalog_repository t.models;
  nodes = node_inventory_repository t.nodes;
  runs = inference_run_repository t.runs;
  benchmarks = benchmark_result_repository t.benchmarks;
  artifacts = artifact_pointer_repository t.artifacts;
}
