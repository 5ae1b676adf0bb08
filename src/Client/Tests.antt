-- ===== src/Client/Tests.antt =====
-- Concrete requests of the test client, and the theorems about it at them.
pub mod Interleavings
pub mod Samples
pub mod Handlers
pub mod Readers
pub mod Answers
