-- ===== src/Persistence/Sql.antt =====
-- persistence/sqlalchemy.py: the rows, the repositories on a session, and their unit of work. The
-- session and the database behind it are parameters.
pub mod Rows
pub mod Repositories
pub mod UnitOfWork
mod Tests
