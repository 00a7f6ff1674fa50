-- ===== src/Routes/Effects.antt =====
-- What POST /batch of crates/sequencer/src/routes.rs can leave of the sequencer's state, whatever the
-- prover service and L1 answer, right or wrong.
use zk_rollup.Base.{
  ◌≡◌, ◌≢◌, ◌⊎◌, inl, inr, refl, sym, ap, ◌∙◌, List, ◌++◌, Result, ok, err, arith, Bool-cases,
  Result-cases, true,
}
use zk_rollup.Types.Bytes.{Hash, bytes_eq}
use zk_rollup.Types.Order.{eq_of_bytes_eq, bytes_eq_refl}
use zk_rollup.Types.Crypto.{Crypto}
use zk_rollup.Types.State.{merkle_root}
use zk_rollup.Types.Text.{Hex}
use zk_rollup.Types.Tx.{Tx, Batch}
use zk_rollup.Stf.Run.{AllAccept, after}
use zk_rollup.Prover.Service.{ProveResponse}
use zk_rollup.Sequencer.{
  SequencerState, CommitError, root_mismatch, readmit, commit_batch, restore_mempool,
}
use zk_rollup.Sequencer.Consistency.{IsConsistent, readmit-IsConsistent}
use zk_rollup.Sequencer.Settlement.{SameCanonical, readmit-SameCanonical, commit_batch_mismatch}
use zk_rollup.Routes.{
  Outside, SettleOutcome, BatchResponse, ApiError, bad_request, internal, mempool_is_empty,
  commit_failed, decode_response, finish_batch, trigger_batch, is_empty, settle_batch, prove_failed,
  submit_failed,
}
use zk_rollup.Routes.Batches.{
  batch_of, drained, trigger_batch_step, settle_batch_failed, settle_batch_undecodable,
  settle_batch_proved, finish_batch_failed,
}
use zk_rollup.Routes.Commit.{Settled, commit_batch-Settled}
use zk_rollup.Routes.Settled.{readmit-append, settled_answer, finish_batch_committed}

module _ ⦃c : Crypto⦄ where
  -- A failed call: only the mempool and the speculative state may have changed.
  pub record Unsettled (s next : SequencerState) : Type 0 where
    pub consistent : IsConsistent next
    pub same : SameCanonical s next

  -- requests that come in after the drain
  arrived-Unsettled :
      (s : SequencerState) (ts : List Tx) → IsConsistent s → Unsettled s (readmit ts (drained s))
  arrived-Unsettled s ts k =
      let same = readmit-SameCanonical ts (drained s) in
      let start : IsConsistent (drained s) = record {
        rooted = k.rooted;
        pending = tt;
        speculative = refl;
      } in
      record {
        consistent = readmit-IsConsistent ts (drained s) start;
        same = record {
          same_state = same.same_state;
          same_root = same.same_root;
          same_count = same.same_count;
        };
      }

  restored-Unsettled :
      (s t : SequencerState) (b : Batch) → Unsettled s t → Unsettled s (restore_mempool b t)
  unfolding restore_mempool
  restored-Unsettled s t b u =
      let same = readmit-SameCanonical b.txs t in
      record {
        consistent = readmit-IsConsistent b.txs t u.consistent;
        same = record {
          same_state = same.same_state ∙ u.same.same_state;
          same_root = same.same_root ∙ u.same.same_root;
          same_count = same.same_count ∙ u.same.same_count;
        };
      }

module _ ⦃c : Crypto⦄ ⦃h : Hex⦄ where
  -- L1 has accepted a batch under another root than that of the state in which the batch ends.
  pub record Misled (s : SequencerState) (r : Result BatchResponse ApiError) (next : SequencerState)
      : Type 0 where
    pub tx_hash : Hash
    pub root : Hash
    pub other : merkle_root s.speculative_state ≢ root
    pub told :
        r
        ≡ err (
            internal (commit_failed tx_hash (root_mismatch (merkle_root s.speculative_state) root)))
    pub applied : next.canonical_state ≡ s.speculative_state
    pub root_kept : next.canonical_root ≡ s.canonical_root
    pub count_kept : next.batch_count ≡ s.batch_count

  -- the three kinds of outcome
  abbrev pub Outcome : SequencerState → Result BatchResponse ApiError × SequencerState → Type 0
  Outcome s (r, next) =
      ((e : ApiError) × (r ≡ err e) × Unsettled s next)
      ⊎ (((resp : BatchResponse) × (r ≡ ok resp) × Settled s (merkle_root s.speculative_state) next)
          ⊎ Misled s r next)

  finish_batch_err :
      (o : Outside) (b : Batch) (p : ProveResponse) (root : Hash) (outcome : SettleOutcome)
      (s : SequencerState) (e : CommitError)
      → (commit_batch b root s).0 ≡ err e
      → finish_batch o b p root (ok outcome) s
        ≡ (err (internal (commit_failed outcome.tx_hash e)), (commit_batch b root s).1)
  unfolding finish_batch
  finish_batch_err o b p root outcome s e q = rw (finish_batch, q) refl

  trigger_batch_idle :
      (o : Outside) (s : SequencerState)
      → is_empty s.mempool ≡ true
      → trigger_batch o s ≡ (err (bad_request mempool_is_empty), s)
  unfolding trigger_batch
  trigger_batch_idle o s p = ground (arith, p)

  -- the contract has accepted the batch, which is then committed
  accepted-Outcome :
      (o : Outside) (s : SequencerState) (p : ProveResponse) (root : Hash) (outcome : SettleOutcome)
      (arrived vs : List Tx)
      → IsConsistent s
      → ((t : SequencerState) → o.responding t ≡ readmit vs t)
      → Outcome s (finish_batch o (batch_of s) p root (ok outcome) (readmit arrived (drained s)))
  accepted-Outcome o s p root outcome arrived vs k m3 =
      let b = batch_of s in
      let t = readmit arrived (drained s) in
      let spec = merkle_root s.speculative_state in
      let u = arrived-Unsettled s arrived k in
      let pending : AllAccept b.txs t.canonical_state = rw u.same.same_state k.pending in
      let reached : after b.txs t.canonical_state ≡ s.speculative_state =
        ap (after b.txs) u.same.same_state ∙ sym k.speculative in
      elim (Bool-cases (bytes_eq spec root)) [
        | inl same ↦
            let at : spec ≡ root = eq_of_bytes_eq spec root same in
            let (done, settled) = commit_batch-Settled s arrived vs k in
            let done' : (commit_batch b root t).0 ≡ ok tt = rw (← at) done in
            let next = readmit vs (commit_batch b root t).1 in
            let path = finish_batch_committed o b p root outcome t done' in
            rw path (
              rw (m3 (commit_batch b root t).1)
                (inr (inl (settled_answer next b p outcome, refl, rw (← at) settled))))
        | inr differ ↦
            let other : spec ≢ root = λ e. cc (differ, e, bytes_eq_refl root) in
            let failed =
              commit_batch_mismatch b root t pending
                (λ e. other (ap merkle_root (sym reached) ∙ e)) in
            let path =
              finish_batch_err o b p root outcome t
                (root_mismatch (merkle_root (after b.txs t.canonical_state)) root)
                (ap (λ (r : Result (Unit {0}) CommitError × SequencerState). r.0) failed) in
            rw path (
              inr (
                inr (record {
                  tx_hash = outcome.tx_hash;
                  root = root;
                  other = other;
                  told = rw reached refl;
                  applied = rw failed reached;
                  root_kept = rw failed u.same.same_root;
                  count_kept = rw failed u.same.same_count;
                })))
      ]

  -- Whatever the prover service and L1 answer, right or wrong, and whatever transactions are posted
  -- meanwhile: a call of POST /batch on a consistent state either fails and leaves the canonical
  -- state, its root and the number of batches as they were, and the state consistent; or it succeeds,
  -- and the canonical state becomes the speculative state of the moment of the drain, under its
  -- root, with one more batch counted and the state consistent; or L1 has accepted another root
  -- than that state's, and then the call fails with both roots in its error.
  pub trigger_batch-Outcome :
      (o : Outside) (s : SequencerState) (ts us vs : List Tx)
      → IsConsistent s
      → ((t : SequencerState) → o.proving t ≡ readmit ts t)
      → ((t : SequencerState) → o.settling t ≡ readmit us t)
      → ((t : SequencerState) → o.responding t ≡ readmit vs t)
      → Outcome s (trigger_batch o s)
  trigger_batch-Outcome o s ts us vs k m1 m2 m3 = elim (Bool-cases (is_empty s.mempool)) [
    | inl empty ↦ rw (trigger_batch_idle o s empty) (
        inl (
          bad_request mempool_is_empty,
          refl,
          record {
            consistent = k;
            same = record { same_state = refl; same_root = refl; same_count = refl };
          },
        ))
    | inr some_wait ↦
        let b = batch_of s in
        let t = readmit ts (drained s) in
        let u = arrived-Unsettled s ts k in
        let path =
          trigger_batch_step o s (λ q. cc (some_wait, ap is_empty q))
          ∙ ap (settle_batch o b (o.prove s.canonical_state b)) (m1 (drained s)) in
        rw path (elim (Result-cases (o.prove s.canonical_state b)) [
          | inr (e, p) ↦
              rw (p, settle_batch_failed o b e t)
                (inl (internal (prove_failed e), refl, restored-Unsettled s t b u))
          | inl (p, q) ↦ elim (Result-cases (decode_response p)) [
            | inr (e, d) ↦ rw (q, settle_batch_undecodable o b p t d) (inl (e, refl, u))
            | inl ((pv, proof, root), d) ↦
                let arrived = m2 t ∙ sym (readmit-append ts us (drained s)) in
                let u' = arrived-Unsettled s (ts ++ us) k in
                rw (q, settle_batch_proved o b p t d, arrived)
                  (elim (Result-cases (o.submit_batch pv proof)) [
                    | inr (e, r) ↦
                        rw (r, finish_batch_failed o b p root e _)
                          (inl (internal (submit_failed e), refl, restored-Unsettled s _ b u'))
                    | inl (outcome, r) ↦
                        rw r (accepted-Outcome o s p root outcome (ts ++ us) vs k m3)
                  ])
          ]
        ])
  ]
