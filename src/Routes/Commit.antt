-- ===== src/Routes/Commit.antt =====
-- The commit that ends POST /batch, with requests before and after it.
use zk_rollup.Base.{◌≡◌, List, ok, ◌∙◌}
use zk_rollup.Types.Bytes.{Hash}
use zk_rollup.Types.Crypto.{Crypto}
use zk_rollup.Types.State.{merkle_root}
use zk_rollup.Types.Tx.{Tx}
use zk_rollup.Stf.{wrapping_add}
use zk_rollup.Sequencer.{SequencerState, drain_for_batch, readmit, commit_batch}
use zk_rollup.Sequencer.Consistency.{IsConsistent, readmit-IsConsistent}
use zk_rollup.Sequencer.Settlement.{readmit-SameCanonical, commit_batch-drain_for_batch}
use zk_rollup.Routes.Batches.{batch_of, drained}

module _ ⦃c : Crypto⦄ where
  -- The state that a settled batch ends in.
  pub record Settled (s : SequencerState) (root : Hash) (next : SequencerState) : Type 0 where
    pub consistent : IsConsistent next
    pub advanced : next.canonical_state ≡ s.speculative_state
    pub root_known : next.canonical_root ≡ root
    pub counted : next.batch_count ≡ wrapping_add s.batch_count 1

  pub commit_batch-Settled :
      (s : SequencerState) (arrivals later : List Tx)
      → IsConsistent s
      → let root = merkle_root s.speculative_state in
        let (r, next) = commit_batch (batch_of s) root (readmit arrivals (drained s)) in
        (r ≡ ok tt) × Settled s root (readmit later next)
  unfolding drain_for_batch
  commit_batch-Settled s arrivals later v =
      let root = merkle_root s.speculative_state in
      let next = (commit_batch (batch_of s) root (readmit arrivals (drained s))).1 in
      let same = readmit-SameCanonical later next in
      let (done, cons, st, rt, ct) = commit_batch-drain_for_batch s arrivals v in
      (
        done,
        record {
          consistent = readmit-IsConsistent later next cons;
          advanced = same.same_state ∙ st;
          root_known = same.same_root ∙ rt;
          counted = same.same_count ∙ ct;
        },
      )
