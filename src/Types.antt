-- ===== src/Types.antt =====
-- crates/shared-types/src/lib.rs
pub mod Bytes
pub mod Order
pub mod Encoding
pub mod Crypto
pub mod Address
pub mod Search
pub mod State
pub mod Tx
pub mod Text
