-- ===== src/System.antt =====
-- The sequencer, the prover service and the contract together: calls of POST /batch of
-- crates/sequencer/src/routes.rs that overlap, between each other and with requests to POST /tx.
-- A step is one critical section under the sequencer's lock, or a call of `submitBatch` of
-- contracts/src/Rollup.sol. No one else calls the contract, and a receipt that is awaited comes.
pub mod Flight
pub mod Invariant
pub mod Acceptance
pub mod Requests
pub mod Reach
pub mod History
pub mod Progress
pub mod Overtaken
pub mod Verdict
use zk_rollup.Base.{ℕ, ◌<◌, ◌≡◌, List, [], ◌∷◌, ◌++◌, Bool, ok, err}
use zk_rollup.Types.Bytes.{Bytes, Hash, u64_mod}
use zk_rollup.Types.Crypto.{Crypto}
use zk_rollup.Types.State.{State}
use zk_rollup.Types.Text.{Hex}
use zk_rollup.Types.Tx.{Batch}
use zk_rollup.Prover.{Abi, Sdk, ProofMode, ScriptError}
use zk_rollup.Prover.Service
use zk_rollup.Prover.Service.{ProveResponse}
use zk_rollup.Sequencer.{SequencerState, from_genesis, restore_mempool, commit_batch}
use zk_rollup.Routes.{TxRequest, ApiError, begin_batch, decode_response, submit_tx}
use zk_rollup.Rollup.{Verifier, Rollup, BatchSettled, Revert, submit_batch}

-- Where a call of `trigger_batch` waits, with the local variables that are live there.
pub data Call : Type 0 where
  proving : State → Batch → Call
  -- the public values, the proof, and the new root that was read from the former
  submitting : State → Batch → Bytes → Bytes → Hash → Call

-- The calls whose batch the contract has accepted, and that have yet to commit it, stand apart.
pub record System : Type 0 where
  pub sequencer : SequencerState
  pub contract : Rollup
  pub calls : List Call
  pub settled : List (Batch × Hash)

module _ ⦃c : Crypto⦄ ⦃h : Hex⦄ ⦃a : Abi⦄ ⦃d : Sdk⦄ ⦃v : Verifier⦄ where
  pub data Step (s : System) : System → Type 0 where
    -- POST /tx, whatever it answers; the numbers in the request are of type u64
    post :
        (req : TxRequest)
        → req.amount < u64_mod
        → req.nonce < u64_mod
        → Step s (record s { sequencer = (submit_tx req s.sequencer).1 })
    -- POST /batch drains the mempool
    begin :
        (prev : State) (batch : Batch) (next : SequencerState)
        → begin_batch s.sequencer ≡ (ok (prev, batch), next)
        → Step s (record s { sequencer = next; calls = proving prev batch ∷ s.calls })
    -- the prover service answers
    proved :
        (xs ys : List Call) (prev : State) (batch : Batch) (alive : Bool) (mode : ProofMode)
        (p : ProveResponse) (pv proof : Bytes) (root : Hash)
        → s.calls ≡ xs ++ proving prev batch ∷ ys
        → Service.prove alive mode (record { prev_state = prev; batch = batch }) ≡ ok p
        → decode_response p ≡ ok (pv, proof, root)
        → Step s (record s { calls = xs ++ submitting prev batch pv proof root ∷ ys })
    -- it does not, and the batch is restored
    not_proved :
        (xs ys : List Call) (prev : State) (batch : Batch)
        → s.calls ≡ xs ++ proving prev batch ∷ ys
        → Step s (record s { sequencer = restore_mempool batch s.sequencer; calls = xs ++ ys })
    -- its answer cannot be decoded, and the batch is lost
    undecodable :
        (xs ys : List Call) (prev : State) (batch : Batch) (p : ProveResponse) (e : ApiError)
        → s.calls ≡ xs ++ proving prev batch ∷ ys
        → decode_response p ≡ err e
        → Step s (record s { calls = xs ++ ys })
    -- the contract accepts the batch
    accepted :
        (xs ys : List Call) (prev : State) (batch : Batch) (pv proof : Bytes) (root : Hash)
        (event : BatchSettled) (next : Rollup)
        → s.calls ≡ xs ++ submitting prev batch pv proof root ∷ ys
        → submit_batch (record { public_values = pv; proof_bytes = proof }) s.contract
          ≡ ok (event, next)
        → Step s
            (record s { contract = next; calls = xs ++ ys; settled = (batch, root) ∷ s.settled })
    -- it refuses the batch, or the transaction is never sent, and the batch is restored
    not_accepted :
        (xs ys : List Call) (prev : State) (batch : Batch) (pv proof : Bytes) (root : Hash)
        → s.calls ≡ xs ++ submitting prev batch pv proof root ∷ ys
        → Step s (record s { sequencer = restore_mempool batch s.sequencer; calls = xs ++ ys })
    -- an accepted batch is committed, or fails to be
    commit :
        (xs ys : List (Batch × Hash)) (batch : Batch) (root : Hash)
        → s.settled ≡ xs ++ (batch, root) ∷ ys
        → Step s
            (record s { sequencer = (commit_batch batch root s.sequencer).1; settled = xs ++ ys })

-- the system once the sequencer has found its genesis root on L1
abbrev pub booted : ⦃c : Crypto⦄ → State → Rollup → System
booted genesis r = record {
  sequencer = from_genesis genesis;
  contract = r;
  calls = [];
  settled = [];
}
