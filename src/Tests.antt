-- ===== src/Tests.antt =====
-- Runs and instances of the theorems at concrete inputs, over small stand-ins for the crates.
mod Crates
mod Data
mod Types
mod Stf
mod Sequencer
mod Routes
mod Rollup
mod Prover
mod Wallets
mod Serde
mod Web
mod Wire
mod Codec
mod Json
mod Clients
mod Drivers
mod Smoke
mod System
mod Startup
