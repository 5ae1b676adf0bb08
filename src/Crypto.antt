-- ===== src/Crypto.antt =====
-- The standard library's hashes, as far as the one-time codes need them.
pub mod Sha1
