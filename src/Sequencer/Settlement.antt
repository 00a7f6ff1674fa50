-- ===== src/Sequencer/Settlement.antt =====
-- A batch from the drained mempool to its commit, with requests that arrive in between, and what a
-- failed commit leaves.
use zk_rollup.Base.{
  ◌≡◌, ◌≢◌, refl, ok, err, List, [], ◌∷◌, ◌++◌, arith, sym, ap, ◌∙◌, append_assoc, append-nil,
}
use zk_rollup.Types.Bytes.{Hash}
use zk_rollup.Types.Crypto.{Crypto}
use zk_rollup.Types.Order.{eq_of_bytes_eq}
use zk_rollup.Types.State.{State, merkle_root}
use zk_rollup.Types.Tx.{Tx, Batch}
use zk_rollup.Stf.{apply_batch, wrapping_add, ApplyOutput}
use zk_rollup.Stf.Transfer.{transferred}
use zk_rollup.Stf.Run.{AllAccept, after, apply_all-AllAccept, apply_batch-AllAccept, values_of}
use zk_rollup.Sequencer.{
  SequencerState, root_mismatch, admit_tx, drain_for_batch, readmit, restore_mempool, rebuild,
  commit_batch,
}
use zk_rollup.Sequencer.Consistency.{
  IsConsistent, queued, admit_tx-Accepts, commit_batch-AllAccept, rebuild-IsConsistent,
}

module _ ⦃c : Crypto⦄ where
  -- transactions that are accepted one after the other are queued in order
  pub readmit-AllAccept :
      (txs : List Tx) (s : SequencerState)
      → AllAccept txs s.speculative_state
      → readmit txs s
        ≡ record s { speculative_state = after txs s.speculative_state; mempool = s.mempool ++ txs }
  unfolding readmit
  readmit-AllAccept [] s a = rw append-nil
  readmit-AllAccept (tx ∷ txs) s a =
      let next = after txs (transferred s.speculative_state tx) in
      rw (admit_tx-Accepts tx s a.0) (
        readmit-AllAccept txs (queued tx s) a.1
        ∙ ap (λ (m : List Tx). record s { speculative_state = next; mempool = m })
            (append_assoc s.mempool (tx ∷ []) txs))

  -- The snapshot that a drain hands to the prover is one on which `apply_batch` succeeds: it ends in
  -- the speculative state at that moment, and starts from the canonical root.
  pub drain_for_batch-apply_batch :
      (s : SequencerState)
      → IsConsistent s
      → let ((prev, batch), _) = drain_for_batch s in
        (out : ApplyOutput) × (apply_batch prev batch ≡ ok out)
        × (out.new_state ≡ s.speculative_state)
        × (out.public_values.prev_root ≡ s.canonical_root)
        × (out.public_values.new_root ≡ merkle_root s.speculative_state)
  unfolding drain_for_batch
  drain_for_batch-apply_batch s v =
      let b : Batch = record { txs = s.mempool } in
      (
        record {
          new_state = after s.mempool s.canonical_state;
          public_values = values_of s.mempool s.canonical_state;
        },
        apply_batch-AllAccept s.canonical_state b v.pending,
        sym v.speculative,
        sym v.rooted,
        ap merkle_root (sym v.speculative),
      )

  -- On a consistent sequencer, restoring a batch that was just drained gives back the state before the
  -- drain.
  pub restore_mempool-drain_for_batch :
      (s : SequencerState)
      → IsConsistent s
      → let ((_, batch), drained) = drain_for_batch s in restore_mempool batch drained ≡ s
  unfolding drain_for_batch restore_mempool
  restore_mempool-drain_for_batch s v =
      let drained : SequencerState = record s {
        mempool = [];
        speculative_state = s.canonical_state;
      } in
      readmit-AllAccept s.mempool drained v.pending
      ∙ ap (λ (t : State). record s { speculative_state = t }) (sym v.speculative)

  -- Requests leave the canonical state, its root and the number of batches alone.
  pub record SameCanonical (s t : SequencerState) : Type 0 where
    pub same_state : t.canonical_state ≡ s.canonical_state
    pub same_root : t.canonical_root ≡ s.canonical_root
    pub same_count : t.batch_count ≡ s.batch_count

  pub admit_tx-SameCanonical : (tx : Tx) (s : SequencerState) → SameCanonical s (admit_tx tx s).1
  unfolding admit_tx
  admit_tx-SameCanonical tx s = ground arith

  pub readmit-SameCanonical : (txs : List Tx) (s : SequencerState) → SameCanonical s (readmit txs s)
  unfolding readmit
  readmit-SameCanonical [] s = record { same_state = refl; same_root = refl; same_count = refl }
  readmit-SameCanonical (tx ∷ txs) s =
      let a = admit_tx-SameCanonical tx s in
      let b = readmit-SameCanonical txs (admit_tx tx s).1 in
      record {
        same_state = b.same_state ∙ a.same_state;
        same_root = b.same_root ∙ a.same_root;
        same_count = b.same_count ∙ a.same_count;
      }

  pub rebuild_state :
      (root : Hash) (s : SequencerState) → (rebuild root s).canonical_state ≡ s.canonical_state
  unfolding rebuild
  rebuild_state root s = refl

  pub rebuild_root : (root : Hash) (s : SequencerState) → (rebuild root s).canonical_root ≡ root
  unfolding rebuild
  rebuild_root root s = refl

  pub rebuild_count :
      (root : Hash) (s : SequencerState)
      → (rebuild root s).batch_count ≡ wrapping_add s.batch_count 1
  unfolding rebuild
  rebuild_count root s = refl

  -- A drained batch commits, whatever requests have arrived since the drain, with the root that its
  -- run has: the canonical state becomes the speculative state of the moment of the drain, and the
  -- result is consistent again.
  pub commit_batch-drain_for_batch :
      (s : SequencerState) (arrivals : List Tx)
      → IsConsistent s
      → let ((_, batch), drained) = drain_for_batch s in
        let root = merkle_root s.speculative_state in
        let (r, next) = commit_batch batch root (readmit arrivals drained) in
        (r ≡ ok tt)
        × IsConsistent next
        × (next.canonical_state ≡ s.speculative_state)
        × (next.canonical_root ≡ root)
        × (next.batch_count ≡ wrapping_add s.batch_count 1)
  unfolding drain_for_batch
  commit_batch-drain_for_batch s arrivals v =
      let b : Batch = record { txs = s.mempool } in
      let drained : SequencerState = record s {
        mempool = [];
        speculative_state = s.canonical_state;
      } in
      let t = readmit arrivals drained in
      let q = readmit-SameCanonical arrivals drained in
      let root = merkle_root s.speculative_state in
      let a : AllAccept s.mempool t.canonical_state = rw q.same_state v.pending in
      let reached : after s.mempool t.canonical_state ≡ s.speculative_state =
        ap (after s.mempool) q.same_state ∙ sym v.speculative in
      let p = ap merkle_root reached in
      let next : SequencerState = record t {
        canonical_state = after s.mempool t.canonical_state;
      } in
      rw (commit_batch-AllAccept b root t a p) (
        refl,
        rebuild-IsConsistent root next (sym p),
        rebuild_state root next ∙ reached,
        rebuild_root root next,
        rebuild_count root next ∙ ap (λ n. wrapping_add n 1) q.same_count,
      )

  -- What a commit leaves when it fails at the root check: the canonical state has the batch applied,
  -- and nothing else has changed, the canonical root included.
  pub commit_batch_mismatch :
      (b : Batch) (root : Hash) (s : SequencerState)
      → AllAccept b.txs s.canonical_state
      → merkle_root (after b.txs s.canonical_state) ≢ root
      → commit_batch b root s ≡ (
        err (root_mismatch (merkle_root (after b.txs s.canonical_state)) root),
        record s { canonical_state = after b.txs s.canonical_state },
      )
  unfolding commit_batch
  commit_batch_mismatch b root s a ne = ground (
    arith,
    apply_all-AllAccept b.txs s.canonical_state a,
    eq_of_bytes_eq (merkle_root (after b.txs s.canonical_state)) root,
  )
