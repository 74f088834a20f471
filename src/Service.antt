-- ===== src/Service.antt =====
-- internal/service: the change of a price, and the configuration service.
pub mod Change
pub mod Alert
pub mod Configuration
