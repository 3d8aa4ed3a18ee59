-- ===== src/Artifacts.antt =====
-- runtime_artifacts.py: the records of a runtime run. The text of a JSON file is outside: a
-- JSON object is its fields.
pub mod Checks
pub mod Record
pub mod Bundle
pub mod Files
mod Tests
