-- ===== src/Sequencer/Consistency.antt =====
-- The invariant of the sequencer's state, kept by every method that succeeds: the speculative state
-- is the canonical one with the whole mempool applied.
use zk_rollup.Base.{
  ◌≡◌, refl, ok, err, List, [], ◌∷◌, ◌++◌, arith, Result-cases, inl, inr, sym, ap, ◌∙◌,
}
use zk_rollup.Types.Bytes.{Hash}
use zk_rollup.Types.Crypto.{Crypto}
use zk_rollup.Types.Order.{bytes_eq_refl, eq_of_bytes_eq}
use zk_rollup.Types.State.{State, merkle_root}
use zk_rollup.Types.Tx.{Tx, Batch}
use zk_rollup.Stf.{apply_tx}
use zk_rollup.Stf.Monad.{StfError}
use zk_rollup.Stf.Transfer.{
  Accepts, transferred, apply_tx-Accepts, Accepts-apply_tx, apply_tx_unchanged,
}
use zk_rollup.Stf.Run.{AllAccept, after, apply_all-AllAccept, AllAccept-apply_all}
use zk_rollup.Stf.Batches.{AllAccept-append, after-append}
use zk_rollup.Sequencer.{
  SequencerState, from_genesis, admit_tx, drain_for_batch, readmit, restore_mempool, retain,
  rebuild, commit_batch,
}

module _ ⦃c : Crypto⦄ where
  pub record IsConsistent (s : SequencerState) : Type 0 where
    pub rooted : s.canonical_root ≡ merkle_root s.canonical_state
    pub pending : AllAccept s.mempool s.canonical_state
    pub speculative : s.speculative_state ≡ after s.mempool s.canonical_state

  pub from_genesis-IsConsistent : (state : State) → IsConsistent (from_genesis state)
  unfolding from_genesis
  from_genesis-IsConsistent state = record { rooted = refl; pending = tt; speculative = refl }

  -- the state in which one more accepted transaction waits
  abbrev pub queued : Tx → SequencerState → SequencerState
  queued tx s = record s {
    speculative_state = transferred s.speculative_state tx;
    mempool = s.mempool ++ tx ∷ [];
  }

  pub admit_tx-Accepts :
      (tx : Tx) (s : SequencerState)
      → Accepts s.speculative_state tx
      → admit_tx tx s ≡ (ok tt, queued tx s)
  unfolding admit_tx
  admit_tx-Accepts tx s a = ground (arith, apply_tx-Accepts s.speculative_state tx a)

  pub admit_tx_refused :
      (tx : Tx) (s : SequencerState) (e : StfError)
      → (apply_tx tx s.speculative_state).0 ≡ err e
      → admit_tx tx s ≡ (err e, s)
  unfolding admit_tx
  admit_tx_refused tx s e h = ground arith

  queued-IsConsistent :
      (tx : Tx) (s : SequencerState)
      → IsConsistent s
      → Accepts s.speculative_state tx
      → IsConsistent (queued tx s)
  queued-IsConsistent tx s v a = record {
    rooted = v.rooted;
    pending =
        AllAccept-append s.mempool (tx ∷ []) s.canonical_state v.pending
          (rw (← v.speculative) a, tt);
    speculative =
        ap (λ t. transferred t tx) v.speculative
        ∙ sym (after-append s.mempool (tx ∷ []) s.canonical_state);
  }

  -- Admitting a transaction, accepted or refused, keeps the state consistent.
  pub admit_tx-IsConsistent :
      (tx : Tx) (s : SequencerState) → IsConsistent s → IsConsistent (admit_tx tx s).1
  admit_tx-IsConsistent tx s v = elim (Result-cases (apply_tx tx s.speculative_state).0) [
    | inl (u, p) ↦
        let a = Accepts-apply_tx s.speculative_state tx p in
        rw (admit_tx-Accepts tx s a) (queued-IsConsistent tx s v a)
    | inr (e, p) ↦ rw (admit_tx_refused tx s e p) v
  ]

  pub drain_for_batch-IsConsistent :
      (s : SequencerState) → IsConsistent s → IsConsistent (drain_for_batch s).1
  unfolding drain_for_batch
  drain_for_batch-IsConsistent s v = record { rooted = v.rooted; pending = tt; speculative = refl }

  pub readmit-IsConsistent :
      (txs : List Tx) (s : SequencerState) → IsConsistent s → IsConsistent (readmit txs s)
  unfolding readmit
  readmit-IsConsistent [] s v = v
  readmit-IsConsistent (tx ∷ txs) s v =
      readmit-IsConsistent txs (admit_tx tx s).1 (admit_tx-IsConsistent tx s v)

  pub restore_mempool-IsConsistent :
      (b : Batch) (s : SequencerState) → IsConsistent s → IsConsistent (restore_mempool b s)
  unfolding restore_mempool
  restore_mempool-IsConsistent b s v = readmit-IsConsistent b.txs s v

  pub retain_accepted :
      (tx : Tx) (txs : List Tx) (s : State)
      → Accepts s tx
      → retain (tx ∷ txs) s
        ≡ (tx ∷ (retain txs (transferred s tx)).0, (retain txs (transferred s tx)).1)
  unfolding retain
  retain_accepted tx txs s a = ground (arith, apply_tx-Accepts s tx a)

  pub retain_refused :
      (tx : Tx) (txs : List Tx) (s : State) (e : StfError)
      → (apply_tx tx s).0 ≡ err e
      → retain (tx ∷ txs) s ≡ retain txs s
  unfolding retain
  retain_refused tx txs s e h = ground (arith, apply_tx_unchanged s tx h)

  -- What `retain` keeps is accepted in order, and the state that it ends in is the one that this
  -- leaves.
  pub retain-AllAccept :
      (txs : List Tx) (s : State)
      → AllAccept (retain txs s).0 s × ((retain txs s).1 ≡ after (retain txs s).0 s)
  retain-AllAccept [] s = unfold retain in (tt, refl)
  retain-AllAccept (tx ∷ txs) s = elim (Result-cases (apply_tx tx s).0) [
    | inl (u, p) ↦
        let a = Accepts-apply_tx s tx p in
        let (kept, last) = retain-AllAccept txs (transferred s tx) in
        rw (retain_accepted tx txs s a) ((a, kept), last)
    | inr (e, p) ↦ rw (retain_refused tx txs s e p) (retain-AllAccept txs s)
  ]

  -- a mempool that still applies is kept whole
  pub retain_all : (txs : List Tx) (s : State) → AllAccept txs s → retain txs s ≡ (txs, after txs s)
  retain_all [] s a = unfold retain in refl
  retain_all (tx ∷ txs) s a =
      retain_accepted tx txs s a.0
      ∙ ap (λ (r : List Tx × State). (tx ∷ r.0, r.1)) (retain_all txs (transferred s tx) a.1)

  pub rebuild-IsConsistent :
      (root : Hash) (s : SequencerState)
      → root ≡ merkle_root s.canonical_state
      → IsConsistent (rebuild root s)
  unfolding rebuild
  rebuild-IsConsistent root s h =
      let (kept, last) = retain-AllAccept s.mempool s.canonical_state in
      record { rooted = h; pending = kept; speculative = last }

  -- a committed batch
  pub commit_batch-AllAccept :
      (b : Batch) (root : Hash) (s : SequencerState)
      → AllAccept b.txs s.canonical_state
      → merkle_root (after b.txs s.canonical_state) ≡ root
      → commit_batch b root s
        ≡ (ok tt, rebuild root (record s { canonical_state = after b.txs s.canonical_state }))
  unfolding commit_batch
  commit_batch-AllAccept b root s a h =
      ground (arith, apply_all-AllAccept b.txs s.canonical_state a, h, bytes_eq_refl root)

  pub commit_batch_inv :
      (b : Batch) (root : Hash) (s : SequencerState)
      → (commit_batch b root s).0 ≡ ok tt
      → AllAccept b.txs s.canonical_state × (merkle_root (after b.txs s.canonical_state) ≡ root)
  unfolding commit_batch
  commit_batch_inv b root s h =
      let a = AllAccept-apply_all b.txs s.canonical_state (ground arith) in
      let next = after b.txs s.canonical_state in
      (
        a,
        ground (
          arith,
          apply_all-AllAccept b.txs s.canonical_state a,
          eq_of_bytes_eq (merkle_root next) root,
        ),
      )

  -- A commit that succeeds leaves a consistent state, whatever the state before it was.
  pub commit_batch-IsConsistent :
      (b : Batch) (root : Hash) (s : SequencerState)
      → (commit_batch b root s).0 ≡ ok tt
      → IsConsistent (commit_batch b root s).1
  commit_batch-IsConsistent b root s h =
      let (a, p) = commit_batch_inv b root s h in
      let next : SequencerState = record s { canonical_state = after b.txs s.canonical_state } in
      rw (commit_batch-AllAccept b root s a p) (rebuild-IsConsistent root next (sym p))
