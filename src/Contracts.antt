-- ===== src/Contracts.antt =====
-- backend_contracts.py: the evidence of a backend and of a benchmark. The text of a JSON file is
-- outside: a JSON object is its fields.
pub mod Checks
pub mod Manifest
pub mod Files
pub mod Prometheus
pub mod Metrics
pub mod Benchmark
pub mod Policy
pub mod Report
mod Tests
