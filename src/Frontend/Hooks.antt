-- ===== src/Frontend/Hooks.antt =====
-- The data hooks of the web application, hooks/use-*.ts, over the query library.
pub mod Shape
pub mod Advisor
pub mod Audit
pub mod Accounts
pub mod Classification
pub mod Datamap
pub mod Datasources
pub mod Gate
pub mod Jobs
pub mod Policies
pub mod Privacy
pub mod Quality
pub mod Remediation
pub mod Reports
pub mod Queries
pub mod Mutations
pub mod Keys
pub mod Client
pub mod Freshness
