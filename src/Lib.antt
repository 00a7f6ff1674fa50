-- ===== src/Lib.antt =====
-- zk-rollup: a rollup of signed transfers whose batches are proved in a zkVM and settled on L1.
--
-- The parts and how they interact. The crate shared-types holds the data: addresses, accounts, the
-- state as a vector of accounts sorted by address, transactions, batches and their hashes. The crate
-- stf is the state transition function on it. The sequencer keeps a canonical state, which follows
-- L1, and a speculative one, against which POST /tx checks transactions; POST /batch drains the
-- mempool, asks the prover service for a proof of the batch, submits it to the contract and then
-- commits it to the canonical state. The prover service runs the zkVM program, which is the same
-- state transition function, through the SP1 SDK.
--
-- Which module models which part:
--   Base                 shared names, Boolean tests, lists, Rust's Result
--   Types                crates/shared-types/src/lib.rs. Bytes and Order: byte strings, to_be_bytes,
--                        the derived order. Address, Text: Address, to_hex, from_hex. Search:
--                        Account and binary_search_by_key. State: State with get, set, merkle_root.
--                        Tx: Tx, Batch, their hashes, recover_address.
--   Stf                  crates/stf/src/lib.rs: apply_tx, apply_batch; Monad is the early return,
--                        Abstract a ledger without representation that the state implements,
--                        Wrapped what the last nonce does.
--   Prover               crates/sp1-program-stf/src/main.rs (program), crates/sp1-script/src/lib.rs
--                        (execute_only, prove) and, in Service, crates/prover-svc/src/main.rs
--   Sequencer            crates/sequencer/src/state.rs: SequencerState and its methods (Consistency,
--                        Settlement, Window, Mempool). Genesis:
--                        genesis.rs (Startup, Order, Bag) and bin/compute_root.rs (ComputeRoot).
--   Routes               crates/sequencer/src/routes.rs: the handlers
--   Clients              crates/sequencer/src/prover.rs (Prover), l1.rs (L1), main.rs (Startup) and
--                        GET /info (Info). Server: the service's side of the wire. Receipts: what
--                        L1 makes of a call. EndToEnd: POST /batch with its clients in place.
--                        Deploy, Restart: the first and a later start of main.rs
--   Web                  the routers: routes.rs (Sequencer, Requests, Endpoints) and the one of
--                        crates/prover-svc/src/main.rs (ProverService)
--   Rollup               contracts/src/Rollup.sol: the constructor and submitBatch. Lockstep: the
--                        contract beside the sequencer's commit. History, Ownership: what the
--                        contract holds after any calls
--   System               the sequencer, its calls of POST /batch in flight, the prover service and
--                        the contract as a step relation: Flight, Invariant, Acceptance,
--                        Requests, Reach, History, Verdict, Progress,
--                        Overtaken
--   Drivers              the binaries demo.rs (Demo, and Wire over HTTP), smoke.rs (Smoke, the same),
--                        execute.rs, prove.rs and vkey.rs (Script), their wallets (Wallet), and the
--                        unit tests of crates/stf and crates/shared-types (UnitTests)
--   Tests                runs and instances at concrete inputs
--
-- How code and model correspond. A u64 is a natural number; its range is stated where a theorem
-- needs it, checked_add tests against 2 ^ 64, and += on a nonce or a counter wraps at 2 ^ 64, as in
-- the release profile, which has no overflow checks. A byte string is a list of numbers, a text the
-- list of its code points. A method that takes &mut self returns its result and the state that it
-- leaves, also where it fails. The binary search that get and set call is the standard library's,
-- as it is documented: a loop on fuel, the number of accounts, which suffices, as the proof that
-- the search agrees with a scan shows. The `?` operator is the bind of a do block. anyhow errors
-- and the texts of HTTP errors are data types with what the texts show.
--
-- Interfaces, in place of code outside the repository: Crypto (tiny_keccak, k256), Hex (hex), Abi
-- (alloy_sol_types), Sdk (sp1_sdk), Verifier (ISP1Verifier), Http (reqwest), Json and Serde
-- (serde_json), Files (std::fs and serde_json), Axum (axum's dispatch), Alloy (alloy) and Signer
-- (k256's signing keys). What they document is stated as laws in IsLawful,
-- IsLawfulHex, IsLawfulAbi, RunsProgram, IsSound, IsLawfulJson, IsLawfulAxum and IsLawfulSigner;
-- Mined says what L1 may make of a transaction. NotReduced says that the recovery id of a signature
-- is 0 or 1, of the four that k256 documents; a theorem names the signatures of which it asks this.
-- No theorem assumes the hash to be injective. Where a theorem rests on collision resistance, the
-- alternative in its conclusion is a collision between two of the strings that the theorem's own run
-- or values bring up: the encodings of two states of that execution (SeenIn in System/Reach.antt,
-- Attested in Rollup/History.antt), or what is hashed for the two
-- states, batches or transactions that are compared.
-- Tests/Crates.antt, Json.antt and Wallets.antt have functions that meet the laws.
--
-- POST /batch releases the lock while it waits for the prover and for L1. Each critical section is a
-- function on the state, and Outside holds the two answers and what other requests make of the state
-- in between.
--
-- A step of System is one critical section of a handler or one call of submitBatch, so that calls of
-- POST /batch overlap in every order. It assumes that no one else calls the contract, and that the
-- receipt of a transaction that was sent comes; Clients/Receipts.antt shows what happens without it.
--
-- Not modelled: serde, bincode and the text of JSON, CORS and methods other than GET and POST,
-- logging, the environment (a parameter of the start), ports and listeners, what the binaries print,
-- the Display texts of the errors, the orchestrator index.ts and the web UI.
pub mod Base
pub mod Types
pub mod Stf
pub mod Prover
pub mod Sequencer
pub mod Routes
pub mod Rollup
pub mod Clients
pub mod Web
pub mod System
pub mod Drivers
mod Tests
