-- ===== src/Governance.antt =====
-- src/lib/governance: the governance engine.
pub mod Vdf
pub mod Bls
pub mod Types
pub mod Engine
pub mod TimeLock
pub mod Aggregation
pub mod Policies
pub mod Approval
pub mod Emergency
pub mod Steps
pub mod Sound
pub mod Threshold
pub mod Stalled
pub mod Freezes
mod Tests
