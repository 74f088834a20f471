-- ===== src/Repository.antt =====
-- internal/repository: the interfaces of the stores, and the repository over a database.
pub mod Ports
pub mod Tables
pub mod Jobs
pub mod Configs
pub mod Targets
