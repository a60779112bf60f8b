-- ===== src/Sdk.antt =====
-- The Node SDK, sdk/node/src.
pub mod Value
pub mod Types
pub mod Errors
pub mod Effect
pub mod Auth
pub mod Client
pub mod Gate
pub mod Express
pub mod Langchain
mod Tests
