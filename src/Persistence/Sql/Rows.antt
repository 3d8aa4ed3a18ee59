-- ===== src/Persistence/Sql/Rows.antt =====
-- persistence/sqlalchemy.py: the rows of the five tables, and their way from and to the domain. What
-- a database makes of a row is not said here.
use mac_llm_ops_lab.Prelude.{ℤ, pos, ◌-ℤ◌, String, Option, none, some, List}
use mac_llm_ops_lab.Persistence.Domain.{
  DateTime, naive, aware, ModelCatalogEntry, NodeInventoryEntry, InferenceRun, BenchmarkResult,
  ArtifactPointer,
}

-- `_as_utc` of a time: `replace(tzinfo=UTC)` keeps what the clock shows, and `astimezone(UTC)` sets
-- the clock to what UTC shows at that time.
unfoldable pub as_utc : DateTime → DateTime
as_utc (naive clock) = aware clock (pos 0)
as_utc (aware clock offset) = aware (clock -ℤ offset) (pos 0)

-- `_as_utc` of a time or `None`
unfoldable pub as_utc_or_none : Option DateTime → Option DateTime
unfolding as_utc
as_utc_or_none none = none
as_utc_or_none (some t) = some (as_utc t)

pub record ModelCatalogRecord : Type 0 where
  pub model_id : String
  pub backend : String
  pub display_name : String
  pub source_url : String
  pub license : String
  pub tags : List String
  pub context_window : Option ℤ
  pub created_at : DateTime

pub record NodeInventoryRecord : Type 0 where
  pub node_id : String
  pub hostname : String
  pub chip : String
  pub memory_gib : ℤ
  pub role : String
  pub status : String
  pub updated_at : DateTime

pub record InferenceRunRecord : Type 0 where
  pub run_id : String
  pub model_id : String
  pub node_id : String
  pub status : String
  pub prompt_tokens : ℤ
  pub completion_tokens : ℤ
  pub started_at : DateTime
  pub completed_at : Option DateTime

pub record BenchmarkResultRecord (Float : Type 0) : Type 0 where
  pub result_id : String
  pub run_id : String
  pub workload_name : String
  pub requests_per_second : Float
  pub p95_latency_ms : Float
  pub created_at : DateTime

pub record ArtifactPointerRecord : Type 0 where
  pub artifact_id : String
  pub run_id : String
  pub kind : String
  pub uri : String
  pub sha256 : Option String
  pub created_at : DateTime

-- `ModelCatalogRecord.from_domain` and `to_domain`
unfoldable pub model_from_domain : ModelCatalogEntry → ModelCatalogRecord
model_from_domain entry = record {
  model_id = entry.model_id;
  backend = entry.backend;
  display_name = entry.display_name;
  source_url = entry.source_url;
  license = entry.license;
  tags = entry.tags;
  context_window = entry.context_window;
  created_at = entry.created_at;
}

unfoldable pub model_to_domain : ModelCatalogRecord → ModelCatalogEntry
unfolding as_utc
model_to_domain r = record {
  model_id = r.model_id;
  backend = r.backend;
  display_name = r.display_name;
  source_url = r.source_url;
  license = r.license;
  tags = r.tags;
  context_window = r.context_window;
  created_at = as_utc r.created_at;
}

-- `NodeInventoryRecord.from_domain` and `to_domain`
unfoldable pub node_from_domain : NodeInventoryEntry → NodeInventoryRecord
node_from_domain entry = record {
  node_id = entry.node_id;
  hostname = entry.hostname;
  chip = entry.chip;
  memory_gib = entry.memory_gib;
  role = entry.role;
  status = entry.status;
  updated_at = entry.updated_at;
}

unfoldable pub node_to_domain : NodeInventoryRecord → NodeInventoryEntry
unfolding as_utc
node_to_domain r = record {
  node_id = r.node_id;
  hostname = r.hostname;
  chip = r.chip;
  memory_gib = r.memory_gib;
  role = r.role;
  status = r.status;
  updated_at = as_utc r.updated_at;
}

-- `InferenceRunRecord.from_domain` and `to_domain`
unfoldable pub run_from_domain : InferenceRun → InferenceRunRecord
run_from_domain run = record {
  run_id = run.run_id;
  model_id = run.model_id;
  node_id = run.node_id;
  status = run.status;
  prompt_tokens = run.prompt_tokens;
  completion_tokens = run.completion_tokens;
  started_at = run.started_at;
  completed_at = run.completed_at;
}

unfoldable pub run_to_domain : InferenceRunRecord → InferenceRun
unfolding as_utc as_utc_or_none
run_to_domain r = record {
  run_id = r.run_id;
  model_id = r.model_id;
  node_id = r.node_id;
  status = r.status;
  prompt_tokens = r.prompt_tokens;
  completion_tokens = r.completion_tokens;
  started_at = as_utc r.started_at;
  completed_at = as_utc_or_none r.completed_at;
}

-- `BenchmarkResultRecord.from_domain` and `to_domain`
unfoldable pub result_from_domain :
    {Float : Type 0} → BenchmarkResult Float → BenchmarkResultRecord Float
result_from_domain result = record {
  result_id = result.result_id;
  run_id = result.run_id;
  workload_name = result.workload_name;
  requests_per_second = result.requests_per_second;
  p95_latency_ms = result.p95_latency_ms;
  created_at = result.created_at;
}

unfoldable pub result_to_domain :
    {Float : Type 0} → BenchmarkResultRecord Float → BenchmarkResult Float
unfolding as_utc
result_to_domain r = record {
  result_id = r.result_id;
  run_id = r.run_id;
  workload_name = r.workload_name;
  requests_per_second = r.requests_per_second;
  p95_latency_ms = r.p95_latency_ms;
  created_at = as_utc r.created_at;
}

-- `ArtifactPointerRecord.from_domain` and `to_domain`
unfoldable pub pointer_from_domain : ArtifactPointer → ArtifactPointerRecord
pointer_from_domain pointer = record {
  artifact_id = pointer.artifact_id;
  run_id = pointer.run_id;
  kind = pointer.kind;
  uri = pointer.uri;
  sha256 = pointer.sha256;
  created_at = pointer.created_at;
}

unfoldable pub pointer_to_domain : ArtifactPointerRecord → ArtifactPointer
unfolding as_utc
pointer_to_domain r = record {
  artifact_id = r.artifact_id;
  run_id = r.run_id;
  kind = r.kind;
  uri = r.uri;
  sha256 = r.sha256;
  created_at = as_utc r.created_at;
}
