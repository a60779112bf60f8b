-- ===== src/Sdk/Langchain.antt =====
-- langchain.ts
pub mod Contexts
pub mod Callbacks
pub mod Chains
pub mod Retrievals
pub mod Retriever
pub mod Interleaved
