-- ===== src/Agent/Sync.antt =====
-- `sync` of internal/agent/agent.go and what it calls.
pub mod World
pub mod Monad
pub mod Phases
pub mod Remote
pub mod Rests
pub mod Client
pub mod Trace
mod Tests
