-- ===== src/Drivers.antt =====
-- The binaries that drive the services: wallets, and what each `main` computes and checks.
pub mod Wallet
pub mod Signing
pub mod Transfers
pub mod Demo
pub mod Wire
pub mod Posted
pub mod Requests
pub mod Smoke
pub mod Script
pub mod UnitTests
