-- ===== src/Address.antt =====
-- src/lib/crypto/address_derivation.ts: addresses from public keys and child keys. The encodings stand
-- in Encodings, the derivations in Derive and Child.
pub mod Encodings
pub mod Derive
pub mod Child
pub mod Base58
pub mod Decode
pub mod Groups
pub mod Xor
pub mod Checksum
pub mod Casing
pub mod Evm
pub mod ChildKeys
mod Tests
