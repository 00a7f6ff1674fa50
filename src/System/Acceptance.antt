-- ===== src/System/Acceptance.antt =====
-- When the contract of contracts/src/Rollup.sol accepts the batch of a call, and when the sequencer
-- then commits it.
use zk_rollup.Base.{
  ◌+◌, ◌<◌, ◌≡◌, ◌≢◌, ◌⊎◌, inl, inr, refl, sym, ap, ◌∙◌, List, [], ◌∷◌, ◌++◌, All, All-split, Any,
  Any-append, ok, arith,
}
use zk_rollup.Types.Address.{Address}
use zk_rollup.Types.Bytes.{Bytes, Hash, u64_mod}
use zk_rollup.Types.Crypto.{Crypto, IsLawful}
use zk_rollup.Types.State.{State, get, merkle_root}
use zk_rollup.Types.State.Laws.{IsValid}
use zk_rollup.Types.State.Binding.{RootCollision, same_state}
use zk_rollup.Types.Tx.{Tx, Batch}
use zk_rollup.Types.Tx.Binding.{IsTx}
use zk_rollup.Stf.{wrapping_add}
use zk_rollup.Stf.Run.{AllAccept, after, values_of}
use zk_rollup.Stf.Ledger.{sent, sent-cons_self, after-IsValid}
use zk_rollup.Prover.{Abi, IsLawfulAbi}
use zk_rollup.Sequencer.{SequencerState, commit_batch}
use zk_rollup.Sequencer.Consistency.{
  IsConsistent, commit_batch-AllAccept, commit_batch-IsConsistent,
}
use zk_rollup.Sequencer.Settlement.{rebuild_state, rebuild_root, rebuild_count}
use zk_rollup.Sequencer.Mempool.{All-commit_batch}
use zk_rollup.Routes.Decode.{values_of-HasHashes}
use zk_rollup.Rollup.{Verifier, Rollup, BatchSettled, Submission, submit_batch}
use zk_rollup.Rollup.Calls.{submit_batch-Advances, decode_words-append}
use zk_rollup.Rollup.Lockstep.{InStep}
use zk_rollup.System.{System, Call, submitting}
use zk_rollup.System.Flight.{Started, InFlight, Older, All-InFlight-Older, nonce-after_small}
use zk_rollup.System.Invariant.{Ahead, Phase, Roomy, IsCoherent, Seen, prev_of}

module _ ⦃c : Crypto⦄ where
  -- a batch that is not empty advances a nonce
  not-Older :
      (txs : List Tx) (s : State)
      → txs ≢ []
      → IsValid s
      → All IsTx txs
      → AllAccept txs s
      → ((k : Address) → (get s k).nonce + sent k txs < u64_mod)
      → ¬ (Older (after txs s) s)
  not-Older [] s ne v t a small o = ne refl
  not-Older (tx ∷ txs) s ne v t a small o =
      let k = tx.from in
      omega (arith, o k, sent-cons_self tx txs, nonce-after_small (tx ∷ txs) s k v t a (small k))

  accepted-Phase :
      (P : State → Type 0) (l : List (Batch × Hash)) (r t : Rollup) (s : SequencerState)
      (prev : State) (b : Batch) (root : Hash)
      → IsConsistent s
      → IsValid s.canonical_state
      → Started s.canonical_state prev b
      → merkle_root prev ≡ r.state_root
      → merkle_root (after b.txs prev) ≡ root
      → t.state_root ≡ root
      → t.batch_count ≡ wrapping_add r.batch_count 1
      → All
          (λ (x : Batch × Hash).
            (k : Address) → (get s.canonical_state k).nonce + sent k x.0.txs < u64_mod)
          l
      → P prev
      → P s.canonical_state
      → ((u : State) → Any (λ (x : Batch × Hash). u ≡ after x.0.txs s.canonical_state) l → P u)
      → Phase l r s
      → Phase ((b, root) ∷ l) t s ⊎ RootCollision P
  accepted-Phase P [] r t s prev b root k v st p q at count roomy m n f ph =
      elim (same_state P prev s.canonical_state m n st.valid.entries v.entries
        (p ∙ (ph.same_root ∙ k.rooted))) [
          | inr collision ↦ inr collision
          | inl same ↦ inl (record {
            txs = st.txs;
            not_empty = st.not_empty;
            pending = rw (← same) st.pending;
            reached = rw (← same) q;
            same_root = at;
            same_count = count ∙ ap (λ n. wrapping_add n 1) ph.same_count;
          })
        ]
  accepted-Phase P ((b', root') ∷ []) r t s prev b root k v st p q at count roomy m n f ph =
      let s' = after b'.txs s.canonical_state in
      let v' = after-IsValid b'.txs s.canonical_state v ph.txs ph.pending in
      elim (same_state P prev s' m (f s' (inl refl)) st.valid.entries v'.entries
        (p ∙ (ph.same_root ∙ sym ph.reached))) [
          | inr collision ↦ inr collision
          | inl same ↦ absurd (
              not-Older b'.txs s.canonical_state ph.not_empty v ph.txs ph.pending roomy.0
                (rw (← same) st.older))
        ]
  accepted-Phase P (x ∷ y ∷ l) r t s prev b root k v st p q at count roomy m n f ph = absurd ph

  pub Phase-single :
      (xs ys : List (Batch × Hash)) (b : Batch) (root : Hash) (r : Rollup) (s : SequencerState)
      → Phase (xs ++ (b, root) ∷ ys) r s
      → (xs ++ ys ≡ []) × Ahead b root r s
  Phase-single [] [] b root r s p = (refl, p)
  Phase-single [] (y ∷ ys) b root r s p = absurd p
  Phase-single (z ∷ []) ys b root r s p = absurd p
  Phase-single (z ∷ w ∷ xs) ys b root r s p = absurd p

  pub Ahead-InStep :
      (b : Batch) (root : Hash) (r : Rollup) (s : SequencerState)
      → Ahead b root r s
      → InStep r (commit_batch b root s).1
  Ahead-InStep b root r s h =
      let next : SequencerState = record s { canonical_state = after b.txs s.canonical_state } in
      rw (commit_batch-AllAccept b root s h.pending h.reached) (record {
        same_root = h.same_root ∙ sym (rebuild_root root next);
        same_count = h.same_count ∙ sym (rebuild_count root next);
      })

  pub Ahead-commit_batch :
      (b : Batch) (root : Hash) (r : Rollup) (s : SequencerState)
      → Ahead b root r s
      → ((commit_batch b root s).0 ≡ ok tt)
        × ((commit_batch b root s).1.canonical_state ≡ after b.txs s.canonical_state)
  Ahead-commit_batch b root r s h =
      let next : SequencerState = record s { canonical_state = after b.txs s.canonical_state } in
      rw (commit_batch-AllAccept b root s h.pending h.reached) (refl, rebuild_state root next)

module _ ⦃c : Crypto⦄ ⦃a : Abi⦄ ⦃v : Verifier⦄ where
  pub accepted-IsCoherent :
      (s : System) (xs ys : List Call) (prev : State) (batch : Batch) (pv proof : Bytes)
      (root : Hash) (event : BatchSettled) (next : Rollup)
      → IsLawful c
      → IsLawfulAbi a
      → Roomy s
      → s.calls ≡ xs ++ submitting prev batch pv proof root ∷ ys
      → submit_batch (record { public_values = pv; proof_bytes = proof }) s.contract
        ≡ ok (event, next)
      → IsCoherent s
      → IsCoherent
          (record s { contract = next; calls = xs ++ ys; settled = (batch, root) ∷ s.settled })
        ⊎ RootCollision (Seen s)
  accepted-IsCoherent s xs ys prev batch pv proof root event next law abi roomy e ok_ h =
      let call : Submission = record { public_values = pv; proof_bytes = proof } in
      let state = s.sequencer.canonical_state in
      let ((st, shown, read), rest) =
        All-split (InFlight state) xs ys (submitting prev batch pv proof root) (rw e at h.flying) in
      let vs = values_of batch.txs prev in
      let sized = values_of-HasHashes batch.txs prev law in
      let (values, adv, moved, _) = submit_batch-Advances call s.contract next event ok_ in
      let encoded = shown ∙ abi.abi_encode_words vs sized in
      let same : values ≡ vs = cc (adv.decoded, encoded, decode_words-append vs sized) in
      elim (accepted-Phase (Seen s) s.settled s.contract next s.sequencer prev batch root
        h.consistent h.valid st (cc (same, adv.current)) (sym read) (cc (moved, same, read))
        (cc (moved)) roomy
        (inr (
          inr (
            rw e (
              Any-append (λ call. prev ≡ prev_of call) xs ys (submitting prev batch pv proof root)
                refl))))
        (inl refl) (λ u m. inr (inl m)) h.phase) [
          | inr collision ↦ inr collision
          | inl phase ↦ inl (record {
            consistent = h.consistent;
            valid = h.valid;
            waiting = h.waiting;
            flying = rest;
            phase = phase;
          })
        ]

  pub commit-IsCoherent :
      (s : System) (xs ys : List (Batch × Hash)) (batch : Batch) (root : Hash)
      → Roomy s
      → s.settled ≡ xs ++ (batch, root) ∷ ys
      → IsCoherent s
      → IsCoherent
          (record s { sequencer = (commit_batch batch root s.sequencer).1; settled = xs ++ ys })
  commit-IsCoherent s xs ys batch root roomy e h =
      let sq = s.sequencer in
      let (none_left, ahead) = Phase-single xs ys batch root s.contract sq (rw e at h.phase) in
      let (small, _) =
        All-split
          (λ (x : Batch × Hash).
            (k : Address) → (get sq.canonical_state k).nonce + sent k x.0.txs < u64_mod)
          xs ys (batch, root) (rw e at roomy) in
      let (done, reached) = Ahead-commit_batch batch root s.contract sq ahead in
      let grown : Older sq.canonical_state (after batch.txs sq.canonical_state) = λ k. omega (
        arith,
        nonce-after_small batch.txs sq.canonical_state k h.valid ahead.txs ahead.pending (small k),
      ) in
      record {
        consistent = commit_batch-IsConsistent batch root sq done;
        valid =
            rw reached (after-IsValid batch.txs sq.canonical_state h.valid ahead.txs ahead.pending);
        waiting = All-commit_batch IsTx batch root sq ahead.pending ahead.reached h.waiting;
        flying = rw reached (All-InFlight-Older sq.canonical_state _ s.calls grown h.flying);
        phase = rw none_left (Ahead-InStep batch root s.contract sq ahead);
      }
