-- ===== src/Cmd.antt =====
-- cmd/sexton: how the command puts the parts together.
pub mod Adapter
pub mod Chat
pub mod Alerts
mod Tests
