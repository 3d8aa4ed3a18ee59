-- ===== src/App.antt =====
-- app.py: the HTTP application. The framework's parsing of requests and rendering of responses and
-- the log lines are outside; what a handler returns, raises and records is modelled.
pub mod Request
pub mod Models
pub mod Stream
pub mod Chat
pub mod Fake
pub mod Traces
pub mod Errors
mod Tests
