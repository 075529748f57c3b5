-- ===== src/Tests.antt =====
-- Examples: one requirement and one provider, and the theorems at them.
mod Data
mod Rules
mod Wire
mod Issuances
mod Resources
mod Replays
mod Requirements
mod Verifier
mod Handoffs
