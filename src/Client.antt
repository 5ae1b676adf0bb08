-- ===== src/Client.antt =====
-- test-client/app.py, the relying party of the laboratory.
pub mod Defaults
pub mod Claims
pub mod Caches
pub mod Discovery
pub mod Pages
pub mod Login
pub mod Grants
pub mod Server
pub mod Environment
pub mod Helpers
pub mod Shared
pub mod Threads
mod Tests
pub mod Totp
pub mod Token
