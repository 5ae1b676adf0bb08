-- ===== src/Evaluation.antt =====
-- The evaluation of the laboratory: evaluation/benchmark and evaluation/compatibility.
mod Tests
pub mod Compatibility
pub mod Sizes
pub mod Conditions
pub mod Requests
pub mod Statistics
pub mod Fixtures
pub mod Slots
pub mod Cycles
pub mod Admin
