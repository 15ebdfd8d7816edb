-- ===== src/Mpc.antt =====
-- src/lib/protocol/mpc_cmp.ts: key generation by shared polynomials and threshold signing.
pub mod Types
pub mod Numbers
pub mod Dkg
pub mod Sessions
pub mod Signing
pub mod Shares
pub mod Inverse
pub mod Refusal
mod Tests
