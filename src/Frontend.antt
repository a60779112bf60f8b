-- ===== src/Frontend.antt =====
-- The stores and the API client of the web application, trust-vault-frontend.
pub mod Theme
pub mod Session
pub mod Hooks
pub mod ScanPage
pub mod ScanLogs
pub mod Table
pub mod Ui
pub mod Uptime
pub mod Layout
pub mod Login
pub mod Pages
mod Tests
