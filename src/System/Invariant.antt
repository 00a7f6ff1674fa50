-- ===== src/System/Invariant.antt =====
-- What every reachable state of the system satisfies: crates/sequencer/src/state.rs and routes.rs
-- beside contracts/src/Rollup.sol.
use zk_rollup.Base.{◌+◌, ◌<◌, ◌≡◌, ◌≢◌, sym, ◌∙◌, List, [], ◌∷◌, All, Any, ◌⊎◌}
use zk_rollup.Types.Address.{Address}
use zk_rollup.Types.Bytes.{Hash, u64_mod}
use zk_rollup.Types.Crypto.{Crypto}
use zk_rollup.Types.State.{State, get, merkle_root}
use zk_rollup.Types.State.Laws.{IsValid}
use zk_rollup.Types.Tx.{Batch}
use zk_rollup.Types.Tx.Binding.{IsTx}
use zk_rollup.Stf.{wrapping_add}
use zk_rollup.Stf.Run.{AllAccept, after}
use zk_rollup.Stf.Ledger.{sent}
use zk_rollup.Prover.{Abi}
use zk_rollup.Sequencer.{SequencerState, readmit, restore_mempool}
use zk_rollup.Sequencer.Consistency.{IsConsistent, restore_mempool-IsConsistent}
use zk_rollup.Sequencer.Settlement.{SameCanonical, readmit-SameCanonical}
use zk_rollup.Sequencer.Mempool.{All-readmit}
use zk_rollup.Rollup.{Rollup}
use zk_rollup.Rollup.Lockstep.{InStep}
use zk_rollup.System.{System, Call, proving, submitting}
use zk_rollup.System.Flight.{InFlight}

module _ ⦃c : Crypto⦄ where
  -- The contract has accepted one batch that the sequencer has yet to commit.
  pub record Ahead (b : Batch) (root : Hash) (r : Rollup) (s : SequencerState) : Type 0 where
    pub txs : All IsTx b.txs
    pub not_empty : b.txs ≢ []
    pub pending : AllAccept b.txs s.canonical_state
    pub reached : merkle_root (after b.txs s.canonical_state) ≡ root
    pub same_root : r.state_root ≡ root
    pub same_count : r.batch_count ≡ wrapping_add s.batch_count 1

  -- The contract is in step with the sequencer, or exactly one batch ahead of it.
  abbrev pub Phase : List (Batch × Hash) → Rollup → SequencerState → Type 0
  Phase [] r s = InStep r s
  Phase ((b, root) ∷ []) r s = Ahead b root r s
  Phase (x ∷ y ∷ l) r s = ⊥

  -- the state from which a call's batch runs
  abbrev pub prev_of : Call → State
  prev_of (proving prev batch) = prev
  prev_of (submitting prev batch pv proof root) = prev

  -- The states whose roots the system deals with: the canonical state, those that the accepted
  -- batches leave, and those from which the batches in flight run.
  abbrev pub Seen : System → State → Type 0
  Seen s t =
      (t ≡ s.sequencer.canonical_state)
      ⊎ (Any (λ (x : Batch × Hash). t ≡ after x.0.txs s.sequencer.canonical_state) s.settled
          ⊎ Any (λ call. t ≡ prev_of call) s.calls)

  -- No nonce wraps when the accepted batches are committed.
  abbrev pub Roomy : System → Type 0
  Roomy s =
      All
        (λ (x : Batch × Hash).
          (k : Address) → (get s.sequencer.canonical_state k).nonce + sent k x.0.txs < u64_mod)
        s.settled

module _ ⦃c : Crypto⦄ ⦃a : Abi⦄ where
  pub record IsCoherent (s : System) : Type 0 where
    pub consistent : IsConsistent s.sequencer
    pub valid : IsValid s.sequencer.canonical_state
    pub waiting : All IsTx s.sequencer.mempool
    pub flying : All (InFlight s.sequencer.canonical_state) s.calls
    pub phase : Phase s.settled s.contract s.sequencer

  Phase-SameCanonical :
      (l : List (Batch × Hash)) (r : Rollup) (s t : SequencerState)
      → SameCanonical s t
      → Phase l r s
      → Phase l r t
  Phase-SameCanonical [] r s t q p = record {
    same_root = p.same_root ∙ sym q.same_root;
    same_count = p.same_count ∙ sym q.same_count;
  }
  Phase-SameCanonical ((b, root) ∷ []) r s t q p = record {
    txs = p.txs;
    not_empty = p.not_empty;
    pending = rw q.same_state p.pending;
    reached = rw q.same_state p.reached;
    same_root = p.same_root;
    same_count = rw q.same_count p.same_count;
  }
  Phase-SameCanonical (x ∷ y ∷ l) r s t q p = p

  -- requests and restored batches leave the canonical state alone
  pub requests-IsCoherent :
      (s : System) (next : SequencerState) (calls : List Call)
      → SameCanonical s.sequencer next
      → IsConsistent next
      → All IsTx next.mempool
      → All (InFlight s.sequencer.canonical_state) calls
      → IsCoherent s
      → IsCoherent (record s { sequencer = next; calls = calls })
  requests-IsCoherent s next calls q v w f h = record {
    consistent = v;
    valid = rw q.same_state h.valid;
    waiting = w;
    flying = rw q.same_state f;
    phase = Phase-SameCanonical s.settled s.contract s.sequencer next q h.phase;
  }

  pub restored-IsCoherent :
      (s : System) (b : Batch) (calls : List Call)
      → All IsTx b.txs
      → All (InFlight s.sequencer.canonical_state) calls
      → IsCoherent s
      → IsCoherent (record s { sequencer = restore_mempool b s.sequencer; calls = calls })
  unfolding restore_mempool
  restored-IsCoherent s b calls t f h =
      requests-IsCoherent s (readmit b.txs s.sequencer) calls
        (readmit-SameCanonical b.txs s.sequencer)
        (unfold restore_mempool in restore_mempool-IsConsistent b s.sequencer h.consistent)
        (All-readmit IsTx b.txs s.sequencer t h.waiting) f h
