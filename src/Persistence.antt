-- ===== src/Persistence.antt =====
-- persistence/: the stored entries, the ports, the in-memory repositories with their unit of work,
-- and those on a database session.
pub mod Domain
pub mod Ports
pub mod Repositories
pub mod UnitOfWork
pub mod Sql
