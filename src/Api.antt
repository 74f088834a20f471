-- ===== src/Api.antt =====
-- internal/api: the HTTP interface.
pub mod Handler
