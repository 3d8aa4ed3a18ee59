-- ===== src/Persistence/Domain.antt =====
-- persistence/domain.py: the stored entries. `Float` is the type of `float`.
use mac_llm_ops_lab.Prelude.{ℤ, String, Option, List}

-- A `datetime`: what its clock shows, in microseconds since the epoch, and the offset of its zone
-- from UTC, if it has a zone. Times near the years 1 and 9999, which Python cannot move to another
-- zone, are treated as all others.
pub data DateTime : Type 0 where
  naive : ℤ → DateTime
  aware : ℤ → ℤ → DateTime

pub record ModelCatalogEntry : Type 0 where
  pub model_id : String
  pub backend : String
  pub display_name : String
  pub source_url : String
  pub license : String
  pub tags : List String
  pub context_window : Option ℤ
  pub created_at : DateTime

pub record NodeInventoryEntry : Type 0 where
  pub node_id : String
  pub hostname : String
  pub chip : String
  pub memory_gib : ℤ
  pub role : String
  pub status : String
  pub updated_at : DateTime

pub record InferenceRun : Type 0 where
  pub run_id : String
  pub model_id : String
  pub node_id : String
  pub status : String
  pub prompt_tokens : ℤ
  pub completion_tokens : ℤ
  pub started_at : DateTime
  pub completed_at : Option DateTime

pub record BenchmarkResult (Float : Type 0) : Type 0 where
  pub result_id : String
  pub run_id : String
  pub workload_name : String
  pub requests_per_second : Float
  pub p95_latency_ms : Float
  pub created_at : DateTime

pub record ArtifactPointer : Type 0 where
  pub artifact_id : String
  pub run_id : String
  pub kind : String
  pub uri : String
  pub sha256 : Option String
  pub created_at : DateTime
