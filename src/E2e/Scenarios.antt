-- ===== src/E2e/Scenarios.antt =====
-- Scenarios of e2e/http/run.py that authorize and check what the result page says.
pub mod Sections
pub mod Reuse
pub mod Rejections
pub mod Factors
pub mod Disclosure
pub mod Refreshes
pub mod Modes
pub mod Metadata
pub mod Discovery
pub mod Constraints
