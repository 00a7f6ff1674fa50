-- ===== src/Sequencer/Mempool.antt =====
-- What holds of every transaction that waits, through the methods of crates/sequencer/src/state.rs.
use zk_rollup.Base.{◌≡◌, List, [], ◌∷◌, All, All-append, Result-cases, inl, inr}
use zk_rollup.Types.Bytes.{Hash}
use zk_rollup.Types.Crypto.{Crypto}
use zk_rollup.Types.State.{State, merkle_root}
use zk_rollup.Types.Tx.{Tx, Batch}
use zk_rollup.Stf.{apply_tx}
use zk_rollup.Stf.Transfer.{transferred, Accepts-apply_tx}
use zk_rollup.Stf.Run.{AllAccept, after}
use zk_rollup.Sequencer.{SequencerState, admit_tx, readmit, retain, rebuild, commit_batch}
use zk_rollup.Sequencer.Consistency.{
  admit_tx-Accepts, admit_tx_refused, retain_accepted, retain_refused, commit_batch-AllAccept,
}

module _ {ℓ} ⦃c : Crypto⦄ (P : Tx → Type ℓ) where
  pub All-admit_tx :
      (tx : Tx) (s : SequencerState) → P tx → All P s.mempool → All P (admit_tx tx s).1.mempool
  All-admit_tx tx s p h = elim (Result-cases (apply_tx tx s.speculative_state).0) [
    | inl (u, q) ↦
        rw (admit_tx-Accepts tx s (Accepts-apply_tx s.speculative_state tx q))
          (All-append P s.mempool (tx ∷ []) h (p, tt))
    | inr (e, q) ↦ rw (admit_tx_refused tx s e q) h
  ]

  pub All-readmit :
      (txs : List Tx) (s : SequencerState)
      → All P txs
      → All P s.mempool
      → All P (readmit txs s).mempool
  unfolding readmit
  All-readmit [] s p h = h
  All-readmit (tx ∷ txs) s p h = All-readmit txs (admit_tx tx s).1 p.1 (All-admit_tx tx s p.0 h)

  All-retain : (txs : List Tx) (s : State) → All P txs → All P (retain txs s).0
  All-retain [] s h = unfold retain in tt
  All-retain (tx ∷ txs) s h = elim (Result-cases (apply_tx tx s).0) [
    | inl (u, q) ↦
        rw (retain_accepted tx txs s (Accepts-apply_tx s tx q))
          (h.0, All-retain txs (transferred s tx) h.1)
    | inr (e, q) ↦ rw (retain_refused tx txs s e q) (All-retain txs s h.1)
  ]

  All-rebuild :
      (root : Hash) (s : SequencerState) → All P s.mempool → All P (rebuild root s).mempool
  unfolding rebuild
  All-rebuild root s h = All-retain s.mempool s.canonical_state h

  pub All-commit_batch :
      (b : Batch) (root : Hash) (s : SequencerState)
      → AllAccept b.txs s.canonical_state
      → merkle_root (after b.txs s.canonical_state) ≡ root
      → All P s.mempool
      → All P (commit_batch b root s).1.mempool
  All-commit_batch b root s a p h =
      rw (commit_batch-AllAccept b root s a p)
        (All-rebuild root (record s { canonical_state = after b.txs s.canonical_state }) h)
