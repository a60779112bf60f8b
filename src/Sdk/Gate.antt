-- ===== src/Sdk/Gate.antt =====
-- gate.ts
pub mod Requests
pub mod Payloads
pub mod Audit
pub mod Calls
pub mod Stream
