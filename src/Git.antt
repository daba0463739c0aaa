-- ===== src/Git.antt =====
-- The package internal/git.
pub mod Errors
pub mod Status
pub mod Message
pub mod Quote
pub mod Command
pub mod Client
mod Tests
