-- ===== src/Sequencer.antt =====
-- The in-memory state of the sequencer: crates/sequencer/src/state.rs. A method returns its result
-- and the state that it leaves; `&mut self` is written even where the method then fails.
pub mod Consistency
pub mod Settlement
pub mod Window
pub mod Mempool
pub mod Genesis
use zk_rollup.Base.{ℕ, List, [], ◌∷◌, ◌++◌, Result, ok, err, if◌then◌else◌}
use zk_rollup.Types.Bytes.{Hash, bytes_eq}
use zk_rollup.Types.Crypto.{Crypto}
use zk_rollup.Types.State.{State, merkle_root}
use zk_rollup.Types.Tx.{Tx, Batch}
use zk_rollup.Stf.{apply_tx, apply_all, wrapping_add}
use zk_rollup.Stf.Monad.{StfError}

pub record SequencerState : Type 0 where
  pub canonical_state : State
  pub canonical_root : Hash
  pub speculative_state : State
  pub mempool : List Tx
  pub batch_count : ℕ

-- the two errors of `commit_batch`, with what their messages show
pub data CommitError : Type 0 where
  diverged : StfError → CommitError
  root_mismatch : Hash → Hash → CommitError

module _ ⦃c : Crypto⦄ where
  unfoldable pub from_genesis : State → SequencerState
  from_genesis state = record {
    canonical_state = state;
    canonical_root = merkle_root state;
    speculative_state = state;
    mempool = [];
    batch_count = 0;
  }

  unfoldable pub admit_tx : Tx → SequencerState → Result (Unit {0}) StfError × SequencerState
  admit_tx tx s =
      let (r, next) = apply_tx tx s.speculative_state in
      elim r [
        | err e ↦ (err e, s)
        | ok _ ↦ (ok tt, record s { speculative_state = next; mempool = s.mempool ++ tx ∷ [] })
      ]

  unfoldable pub drain_for_batch : SequencerState → (State × Batch) × SequencerState
  drain_for_batch s =
      let prev = s.canonical_state in
      let txs = s.mempool in
      (
        (prev, record { txs = txs }),
        record s { mempool = []; speculative_state = s.canonical_state },
      )

  -- `for tx in txs { if self.admit_tx(tx).is_err() {} }`
  unfoldable pub readmit : List Tx → SequencerState → SequencerState
  readmit [] s = s
  readmit (tx ∷ txs) s = readmit txs (admit_tx tx s).1

  unfoldable pub restore_mempool : Batch → SequencerState → SequencerState
  unfolding readmit
  restore_mempool batch s = readmit batch.txs s

  -- `mempool.retain(|tx| apply_tx(&mut spec, tx).is_ok())`, with the state that `spec` ends as
  unfoldable pub retain : List Tx → State → List Tx × State
  retain [] spec = ([], spec)
  retain (tx ∷ txs) spec =
      let (r, next) = apply_tx tx spec in
      let (kept, last) = retain txs next in
      elim r [ ok _ ↦ (tx ∷ kept, last) | err _ ↦ (kept, last) ]

  -- what follows the root check
  unfoldable pub rebuild : Hash → SequencerState → SequencerState
  unfolding retain
  rebuild new_root s =
      let (kept, spec) = retain s.mempool s.canonical_state in
      record s {
        canonical_root = new_root;
        batch_count = wrapping_add s.batch_count 1;
        mempool = kept;
        speculative_state = spec;
      }

  unfoldable pub commit_batch :
      Batch → Hash → SequencerState → Result (Unit {0}) CommitError × SequencerState
  unfolding rebuild
  commit_batch batch new_root s =
      let (r, canonical) = apply_all batch.txs s.canonical_state in
      let s' = record s { canonical_state = canonical } in
      let recomputed = merkle_root canonical in
      elim r [
        | err e ↦ (err (diverged e), s')
        | ok _ ↦
            if bytes_eq recomputed new_root
            then (ok tt, rebuild new_root s')
            else (err (root_mismatch recomputed new_root), s')
      ]
