-- ===== src/Lib.antt =====
-- Mac LLM Ops Lab: a gateway that serves language models on a Mac, with its guards, its metrics and
-- its records of evidence. This library models the Python package src/mac_llm_ops_lab and states what
-- makes its parts correct.
--
-- The parts, and where they are modelled:
--
--   * src/mac_llm_ops_lab/app.py, the HTTP application: App/Request.antt (the chat request, the
--     allowlist, the prompt, the options, the protocol `ModelBackend`), App/Models.antt
--     (`_filter_allowed_models`), App/Stream.antt (`_stream_events`), App/Chat.antt (the handlers,
--     `http_exception_handler`, `request_id_middleware`). App/Traces.antt (the spans of a request,
--     `_scheduler_span_attributes`, `_backend_span_attributes`), App/Errors.antt
--     (`_error_response`, the identifier of a request, `metrics_snapshot`). App/Fake.antt has
--     the fake backend as a
--     `ModelBackend`, and `build_backend` of src/mac_llm_ops_lab/cli.py.
--   * src/mac_llm_ops_lab/batching.py, `FakeBatchedBackend`: Batching.antt.
--   * src/mac_llm_ops_lab/openai_compatible_backend.py, the remote backend: Openai.antt.
--   * src/mac_llm_ops_lab/metrics.py, `InMemoryMetrics`: Metrics.antt. The handlers of the application
--     call its recording methods; their effect on the metrics is given as a run of such calls.
--   * src/mac_llm_ops_lab/config.py, `load_settings`: Config.antt. The allowlist and the kind of the
--     backend come from there.
--   * src/mac_llm_ops_lab/cluster.py: Cluster/Checks.antt (the checks of single values),
--     Cluster/Node.antt (`register_cluster_node`), Cluster/Route.antt (`route_to_model`),
--     Cluster/Paths.antt (relative paths), Cluster/Evidence.antt (evidence files),
--     Cluster/Manifest.antt (`build_cluster_evidence_manifest`), Cluster/Report.antt
--     (`write_node_evidence_report`, `_parse_key_value_pairs`), Cluster/Main.antt (the command
--     `node-evidence`).
--   * src/mac_llm_ops_lab/runtime_guard.py: Guard.antt. src/mac_llm_ops_lab/model_catalog.py, the gate
--     that uses it: Catalog.antt.
--   * src/mac_llm_ops_lab/runtime_artifacts.py: Artifacts/Checks.antt (single values),
--     Artifacts/Record.antt (the evidence manifest and the execution record),
--     Artifacts/Bundle.antt (the index of a bundle), Artifacts/Files.antt (writing and loading).
--   * src/mac_llm_ops_lab/backend_contracts.py: Contracts/Checks.antt
--     (single values; what is the same code in runtime_artifacts.py is taken from
--     Artifacts/Checks.antt), Contracts/Manifest.antt (`build_benchmark_artifact_manifest`,
--     `_canonical_benchmark_artifact_manifest`), Contracts/Files.antt (writing and
--     loading it), Contracts/Prometheus.antt (`_SAMPLE_PATTERN`,
--     `_parse_prometheus_samples`, `_parse_labels`), Contracts/Metrics.antt
--     (`summarize_vllm_mlx_metrics`), Contracts/Benchmark.antt (`build_benchmark_summary`),
--     Contracts/Report.antt (the report of both), Contracts/Policy.antt (the workload policy).
--   * src/mac_llm_ops_lab/runtime_stack.py: Stack.antt.
--   * src/mac_llm_ops_lab/observability.py: Observability.antt (`configure_observability`,
--     `sanitize_attributes`, `start_span`). A trace is the list of the calls on the tracer.
--   * src/mac_llm_ops_lab/macos_services.py: MacosServices.antt
--     (`write_macos_launchd_service_bundle`).
--   * src/mac_llm_ops_lab/release_readiness.py: Release.antt (`scan_public_release_files`,
--     `write_public_release_report` up to the writing). Its patterns are rows of the pieces of
--     Py/Regex.antt.
--   * src/mac_llm_ops_lab/persistence/domain.py and fakes.py: Persistence/Domain.antt,
--     Persistence/Repositories.antt (`_PersistenceState` and the repositories),
--     Persistence/UnitOfWork.antt (`FakeUnitOfWork`, over a store of dictionaries: what an object
--     shares with another is a matter of addresses). ports.py: Persistence/Ports.antt, the protocols
--     and the promise `Refines` of a repository, for the in-memory ones.
--   * src/mac_llm_ops_lab/persistence/sqlalchemy.py: Persistence/Sql/Rows.antt (the rows,
--     `from_domain`, `to_domain`), Persistence/Sql/Repositories.antt, Persistence/Sql/UnitOfWork.antt.
--
-- Prelude.antt has the shared notation and the lemmas on lists and tests; Py.antt what the program
-- uses of Python and its standard library: `str`, `dict`, `sorted`, exceptions as values,
-- `PurePosixPath`, `urlparse`, JSON-like objects.
--
-- State and operations. An object that a method changes is a record, and the method returns its
-- result beside the new object; a function that raises returns a `Result`. Tests stand beside each
-- part in a module Tests, with the theorems at concrete inputs.
--
-- Parameters. `FloatOps` is `float` with the operations that the program calls, and no law of it is
-- assumed. `host_ok` is what `urlparse` demands of a host in brackets or outside ASCII.
-- `json_loads` is Python's JSON parser, `parse_int` its `int` of a text; `float_is` is `==` between
-- a float and 0 or 1. A backend of the application is the record `ModelBackend`. A database session
-- is a record of its calls, `Table` and `SessionOps`, each of which may raise; `column` is what a
-- database makes of a time that it stores.
-- `NumberOps` is Python's arithmetic of benchmark figures, with its NaN and what `sorted` makes of
-- a list that holds one, and `rank` the rounded 95 per cent of a
-- number. `is_word` tells the word characters of a pattern. `Machine` is the current directory, the
-- home directories and the tests on files. All loops are over lists or texts, so there is no fuel.
-- Counters are Python integers, which have no bound; ports and queue lengths are signed integers.
--
-- Not modelled: the framework's parsing and rendering, the tracer and its exporter, log lines, the
-- clock and fresh identifiers, the HTTP client, argparse and writing files; and the schema
-- declarations of persistence/sqlalchemy.py, the migrations and the scripts.
pub mod Prelude
pub mod Py
pub mod Batching
pub mod Metrics
pub mod Persistence
pub mod Guard
pub mod Catalog
pub mod Config
pub mod Cluster
pub mod App
pub mod Openai
pub mod Artifacts
pub mod Contracts
pub mod Stack
pub mod Release
pub mod MacosServices
pub mod Observability
