-- ===== src/Config.antt =====
-- internal/config.
pub mod Alerts
pub mod Clock
pub mod Holdout
pub mod Path
pub mod Regions
pub mod Hooks
pub mod Repo
mod Tests
