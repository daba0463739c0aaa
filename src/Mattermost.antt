-- ===== src/Mattermost.antt =====
-- internal/mattermost: the chat client, the commands that it takes and the texts that it posts.
pub mod Runes
pub mod Visible
pub mod Format
pub mod Commands
pub mod Client
pub mod Alerter
mod Tests
