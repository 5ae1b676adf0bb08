-- ===== src/E2e.antt =====
-- The end-to-end suites: e2e/http/run.py and what e2e/browser/run.py shares with it.
pub mod Submission
pub mod Jarm
pub mod Requests
pub mod Details
pub mod Totp
pub mod Forms
pub mod Lab
pub mod Pages
pub mod FeatureDisabled
pub mod Suite
pub mod Polling
pub mod Smtp
pub mod Scenarios
pub mod Authorize
