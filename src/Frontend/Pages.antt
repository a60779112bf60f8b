-- ===== src/Frontend/Pages.antt =====
-- Pages of app/(app) that keep state of their own.
pub mod Consent
pub mod Documents
pub mod Jobs
pub mod NewDataSource
pub mod Endpoints
pub mod Playbooks
pub mod Integrations
pub mod Residency
pub mod Sso
pub mod ClassificationStatus
