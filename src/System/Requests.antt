-- ===== src/System/Requests.antt =====
-- A request to POST /tx, and the drain at the start of POST /batch (crates/sequencer/src/routes.rs), in
-- a coherent system.
use zk_rollup.Base.{
  ◌≡◌, ◌≢◌, ◌<◌, inl, inr, refl, sym, ap, ◌∙◌, [], ◌∷◌, ok, err, arith, Bool-cases, Result-cases,
}
use zk_rollup.Types.Bytes.{u64_mod}
use zk_rollup.Types.Crypto.{Crypto}
use zk_rollup.Types.State.{State}
use zk_rollup.Types.Text.{Hex, IsLawfulHex}
use zk_rollup.Types.Tx.{Tx, Batch}
use zk_rollup.Types.Tx.Binding.{IsTx}
use zk_rollup.Prover.{Abi}
use zk_rollup.Sequencer.{SequencerState, drain_for_batch, admit_tx}
use zk_rollup.Sequencer.Consistency.{admit_tx-IsConsistent}
use zk_rollup.Sequencer.Settlement.{admit_tx-SameCanonical}
use zk_rollup.Sequencer.Mempool.{All-admit_tx}
use zk_rollup.Routes.{TxRequest, ApiError, is_empty, begin_batch, submit_tx, into_tx}
use zk_rollup.Routes.Requests.{into_tx-IsSendable}
use zk_rollup.System.{System, proving}
use zk_rollup.System.Flight.{Started}
use zk_rollup.System.Invariant.{IsCoherent, requests-IsCoherent}

module _ ⦃c : Crypto⦄ ⦃h : Hex⦄ where
  pub begin_batch_inv :
      (s next : SequencerState) (prev : State) (batch : Batch)
      → begin_batch s ≡ (ok (prev, batch), next)
      → (prev ≡ s.canonical_state)
        × (batch.txs ≡ s.mempool)
        × (s.mempool ≢ [])
        × (next ≡ record s { mempool = []; speculative_state = s.canonical_state })
  unfolding begin_batch drain_for_batch
  begin_batch_inv s next prev batch e = elim (Bool-cases (is_empty s.mempool)) [
    | inl p ↦ absurd (ground arith)
    | inr p ↦ (ground arith, ground arith, (λ q. cc (p, ap is_empty q)), ground arith)
  ]

  pub submit_tx_refused :
      (req : TxRequest) (s : SequencerState) {e : ApiError}
      → into_tx req ≡ err e
      → (submit_tx req s).1 ≡ s
  unfolding submit_tx
  submit_tx_refused req s p = ground arith

  pub submit_tx_read :
      (req : TxRequest) (s : SequencerState) (tx : Tx)
      → into_tx req ≡ ok tx
      → (submit_tx req s).1 ≡ (admit_tx tx s).1
  unfolding submit_tx
  submit_tx_read req s tx p = ground arith

module _ ⦃c : Crypto⦄ ⦃h : Hex⦄ ⦃a : Abi⦄ where
  pub post-IsCoherent :
      (s : System) (req : TxRequest)
      → IsLawfulHex h
      → req.amount < u64_mod
      → req.nonce < u64_mod
      → IsCoherent s
      → IsCoherent (record s { sequencer = (submit_tx req s.sequencer).1 })
  post-IsCoherent s req hex p q k = elim (Result-cases (into_tx req)) [
    | inr (e, r) ↦ rw (submit_tx_refused req s.sequencer r) k
    | inl (tx, r) ↦
        let (w, same_amount, same_nonce) = into_tx-IsSendable req tx hex r in
        let t : IsTx tx = record {
          from_ok = w.from_ok;
          to_ok = w.to_ok;
          amount_ok = rw same_amount p;
          nonce_ok = rw same_nonce q;
        } in
        rw (submit_tx_read req s.sequencer tx r) (
          requests-IsCoherent s (admit_tx tx s.sequencer).1 s.calls
            (admit_tx-SameCanonical tx s.sequencer)
            (admit_tx-IsConsistent tx s.sequencer k.consistent)
            (All-admit_tx IsTx tx s.sequencer t k.waiting) k.flying k)
  ]

  pub begin-IsCoherent :
      (s : System) (prev : State) (batch : Batch) (next : SequencerState)
      → begin_batch s.sequencer ≡ (ok (prev, batch), next)
      → IsCoherent s
      → IsCoherent (record s { sequencer = next; calls = proving prev batch ∷ s.calls })
  begin-IsCoherent s prev batch next e k =
      let (same, taken, ne, left) = begin_batch_inv s.sequencer next prev batch e in
      let st : Started s.sequencer.canonical_state prev batch = record {
        valid = rw same k.valid;
        txs = rw taken k.waiting;
        not_empty = λ p. ne (sym taken ∙ p);
        pending = rw same (rw taken k.consistent.pending);
        older = rw same (λ k. omega arith);
      } in
      rw left (
        requests-IsCoherent s
          (record s.sequencer { mempool = []; speculative_state = s.sequencer.canonical_state })
          (proving prev batch ∷ s.calls)
          (record { same_state = refl; same_root = refl; same_count = refl })
          (record { rooted = k.consistent.rooted; pending = tt; speculative = refl }) tt
          (st, k.flying) k)
