-- ===== src/Config.antt =====
-- internal/config/config.go: the settings of the program, and their validation. Reading the file, the
-- variables of the environment and YAML are libraries; `Load` calls `Validate` on what they give.
pub mod Settings
pub mod Check
pub mod Accepted
