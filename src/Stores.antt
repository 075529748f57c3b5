-- ===== src/Stores.antt =====
-- The in-memory stores of src/nonce-store.ts and src/requirement-store.ts, one module to a store.
pub mod Nonce
pub mod Replay
pub mod Acceptance
pub mod Provider
pub mod Requirements
