-- ===== src/Agent.antt =====
-- internal/agent.
pub mod Holdout
pub mod State
pub mod Policy
pub mod Controller
pub mod Sync
pub mod Run
pub mod Alerter
mod Tests
