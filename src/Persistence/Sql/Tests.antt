-- ===== src/Persistence/Sql/Tests.antt =====
-- The repositories and the unit of work on a session, on concrete values.
use mac_llm_ops_lab.Prelude.{
  ℕ, ℤ, pos, negsuc, String, ◌≡◌, refl, inl, true, false, Option, none, some, List, [], ◌∷◌, ◌==◌,
  string_eq, keep, if◌then◌else◌,
}
use mac_llm_ops_lab.Py.Result.{ok, err, runtime_error, sqlalchemy_error}
use mac_llm_ops_lab.Persistence.Domain.{
  DateTime, naive, aware, ModelCatalogEntry, NodeInventoryEntry, InferenceRun, BenchmarkResult,
  ArtifactPointer,
}
use mac_llm_ops_lab.Persistence.Sql.Rows.{
  as_utc, as_utc_or_none, InferenceRunRecord, model_from_domain, model_to_domain, node_from_domain,
  node_to_domain, run_from_domain, run_to_domain, result_from_domain, result_to_domain,
  pointer_from_domain, pointer_to_domain,
}
use mac_llm_ops_lab.Persistence.Sql.Repositories.{Table, inference_run_repository}
use mac_llm_ops_lab.Persistence.Sql.Repositories.Stored.{
  KeepsUtc, reload_model, reload_node, reload_run, reload_result, reload_pointer,
  to_domain-from_domain,
}
use mac_llm_ops_lab.Persistence.Sql.UnitOfWork.{
  SessionOps, SqlAlchemyUnitOfWork, start_span, init, aenter, commit, aexit,
}
use mac_llm_ops_lab.Persistence.Sql.UnitOfWork.Ended.{is_ended, aexit_lem, commit-aexit}

-- A naive time is taken to be UTC's; a time of another zone is moved to UTC.
replaces : as_utc (naive (pos 7)) ≡ aware (pos 7) (pos 0)
unfolding as_utc
replaces = refl

moves : as_utc (aware (pos 7) (pos 10)) ≡ aware (negsuc 2) (pos 0)
unfolding as_utc
moves = refl

-- A database that forgets zones, as SQLite does.
abbrev forget_zone : DateTime → DateTime
forget_zone (aware clock _) = naive clock
forget_zone (naive clock) = naive clock

forget_zone-KeepsUtc : (clock : ℤ) → KeepsUtc forget_zone clock
forget_zone-KeepsUtc clock = inl refl

abbrev noon : DateTime
noon = aware (pos 100) (pos 0)

abbrev qwen : ModelCatalogEntry
qwen = record {
  model_id = "qwen";
  backend = "vllm-mlx";
  display_name = "Qwen";
  source_url = "https://example.org";
  license = "apache-2.0";
  tags = "text" ∷ [];
  context_window = some (pos 4096);
  created_at = noon;
}

abbrev studio : NodeInventoryEntry
studio = record {
  node_id = "studio-a";
  hostname = "studio-a.local";
  chip = "m3";
  memory_gib = pos 96;
  role = "worker";
  status = "ready";
  updated_at = noon;
}

abbrev first_run : InferenceRun
first_run = record {
  run_id = "run-1";
  model_id = "qwen";
  node_id = "studio-a";
  status = "completed";
  prompt_tokens = pos 3;
  completion_tokens = pos 5;
  started_at = noon;
  completed_at = some noon;
}

abbrev quick : BenchmarkResult ℕ
quick = record {
  result_id = "result-1";
  run_id = "run-1";
  workload_name = "short";
  requests_per_second = 4;
  p95_latency_ms = 80;
  created_at = noon;
}

abbrev report : ArtifactPointer
report = record {
  artifact_id = "artifact-1";
  run_id = "run-1";
  kind = "report";
  uri = "artifacts/report.json";
  sha256 = none;
  created_at = noon;
}

to_domain-from_domain_example :
    (model_to_domain (reload_model forget_zone (model_from_domain qwen)) ≡ qwen)
    × (node_to_domain (reload_node forget_zone (node_from_domain studio)) ≡ studio)
    × (run_to_domain (reload_run forget_zone (run_from_domain first_run)) ≡ first_run)
    × (result_to_domain (reload_result forget_zone (result_from_domain quick)) ≡ quick)
    × (pointer_to_domain (reload_pointer forget_zone (pointer_from_domain report)) ≡ report)
to_domain-from_domain_example =
    to_domain-from_domain forget_zone forget_zone-KeepsUtc qwen studio first_run quick report
      (pos 100, refl) (pos 100, refl) (pos 100, refl) (pos 100, refl) (pos 100, refl)
      (pos 100, refl)

-- A table of runs that refuses a run of any model but qwen.
abbrev runs : Table InferenceRunRecord (List InferenceRunRecord)
runs = record {
  merge = λ r s. if r.model_id == "qwen" then (ok tt, r ∷ s) else (err sqlalchemy_error, s);
  get_row = λ k s. (ok (find k s), s);
  scalars = λ p cols s. (ok (keep p s), s);
}
  where
    find : String → List InferenceRunRecord → Option InferenceRunRecord
    find k [] = none
    find k (r ∷ rs) = let rest = find k rs in if r.run_id == k then some r else rest

refuses_run :
    (inference_run_repository runs).add (record first_run { model_id = "llama" }) []
    ≡ (err sqlalchemy_error, [])
unfolding inference_run_repository run_from_domain
refuses_run = refl

gets_run :
    (inference_run_repository runs).get "run-1" (run_from_domain first_run ∷ [])
    ≡ (ok (some first_run), run_from_domain first_run ∷ [])
unfolding inference_run_repository run_from_domain run_to_domain as_utc as_utc_or_none
gets_run = refl

-- A session that counts its calls, as digits: 1 for a commit, 2 for a rollback, 3 for closing. The
-- database refuses the commit.
abbrev refuses : SessionOps (List ℕ)
refuses = record {
  open_session = [];
  commit_session = λ s. (err (runtime_error "conflict"), 1 ∷ s);
  rollback_session = λ s. (ok tt, 2 ∷ s);
  close_session = λ s. (ok tt, 3 ∷ s);
}

abbrev opened : SqlAlchemyUnitOfWork (List ℕ)
opened = record {
  session = some [];
  committed = false;
  span = start_span "db.transaction" ∷ [];
  has_context = true;
}

opens : aenter refuses init ≡ opened
unfolding aenter init
opens = refl

aexit_lem_example :
    ((aexit refuses true opened).1.session ≡ some (3 ∷ 2 ∷ []))
    × ((aexit refuses true opened).0 ≡ ok tt)
    × (is_ended (aexit refuses true opened).1.span ≡ true)
    × ((aexit refuses true opened).1.committed ≡ false)
aexit_lem_example = aexit_lem refuses true opened [] refl refl refl

commit-aexit_example :
    ((commit refuses opened).0 ≡ err (runtime_error "conflict"))
    × ((aexit refuses true (commit refuses opened).1).1.committed ≡ false)
    × ((aexit refuses true (commit refuses opened).1).1.session ≡ some (3 ∷ 2 ∷ 1 ∷ []))
commit-aexit_example = commit-aexit refuses true opened [] refl refl
