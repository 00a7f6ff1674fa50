-- ===== src/Clients.antt =====
-- The clients through which the sequencer reaches the prover service and L1:
-- crates/sequencer/src/prover.rs and crates/sequencer/src/l1.rs. The crates reqwest, serde_json and
-- alloy are interfaces.
pub mod Http
pub mod Prover
pub mod Server
pub mod L1
pub mod Receipts
pub mod EndToEnd
pub mod Startup
pub mod Deploy
pub mod Restart
pub mod Info
