-- ===== src/Web.antt =====
-- The two HTTP servers: `router` of crates/sequencer/src/routes.rs and the router in `main` of
-- crates/prover-svc/src/main.rs. axum is an interface.
pub mod Axum
pub mod Sequencer
pub mod Requests
pub mod Endpoints
pub mod ProverService
