-- ===== src/Routes/Batches.antt =====
-- POST /batch, from the drained mempool to the committed batch.
use zk_rollup.Base.{◌≡◌, ◌≢◌, refl, [], ok, err, arith}
use zk_rollup.Types.Bytes.{Bytes, Hash}
use zk_rollup.Types.Crypto.{Crypto}
use zk_rollup.Types.Text.{Hex, Text}
use zk_rollup.Types.Tx.{Batch}
use zk_rollup.Prover.Service.{ProveResponse}
use zk_rollup.Sequencer.{SequencerState, drain_for_batch, restore_mempool}
use zk_rollup.Sequencer.Consistency.{IsConsistent}
use zk_rollup.Sequencer.Settlement.{restore_mempool-drain_for_batch}
use zk_rollup.Routes.{
  Outside, ApiError, internal, decode_response, begin_batch, settle_batch, finish_batch,
  trigger_batch, submit_failed, prove_failed,
}

abbrev pub batch_of : SequencerState → Batch
batch_of s = record { txs = s.mempool }

abbrev pub drained : SequencerState → SequencerState
drained s = record s { mempool = []; speculative_state = s.canonical_state }

module _ ⦃c : Crypto⦄ ⦃h : Hex⦄ where
  pub begin_batch_waiting :
      (s : SequencerState)
      → s.mempool ≢ []
      → begin_batch s ≡ (ok (s.canonical_state, batch_of s), drained s)
  unfolding begin_batch drain_for_batch
  begin_batch_waiting s ne = ground arith

  -- the call, once the prover has answered
  pub trigger_batch_step :
      (o : Outside) (s : SequencerState)
      → s.mempool ≢ []
      → trigger_batch o s
        ≡ settle_batch o
            (batch_of s)
            (o.prove s.canonical_state (batch_of s))
            (o.proving (drained s))
  unfolding trigger_batch
  trigger_batch_step o s ne = ground (arith, begin_batch_waiting s ne)

  pub restored :
      (s : SequencerState) → IsConsistent s → restore_mempool (batch_of s) (drained s) ≡ s
  restored s v = unfold drain_for_batch in restore_mempool-drain_for_batch s v

  pub settle_batch_failed :
      (o : Outside) (b : Batch) (e : Text) (s : SequencerState)
      → settle_batch o b (err e) s ≡ (err (internal (prove_failed e)), restore_mempool b s)
  unfolding settle_batch
  settle_batch_failed o b e s = refl

  pub settle_batch_proved :
      (o : Outside) (b : Batch) (p : ProveResponse) (s : SequencerState) {pv proof : Bytes}
      {root : Hash}
      → decode_response p ≡ ok (pv, proof, root)
      → settle_batch o b (ok p) s ≡ finish_batch o b p root (o.submit_batch pv proof) (o.settling s)
  unfolding settle_batch
  settle_batch_proved o b p s e = ground (arith, e)

  pub settle_batch_undecodable :
      (o : Outside) (b : Batch) (p : ProveResponse) (s : SequencerState) {e : ApiError}
      → decode_response p ≡ err e
      → settle_batch o b (ok p) s ≡ (err e, s)
  unfolding settle_batch
  settle_batch_undecodable o b p s q = ground (arith, q)

  pub finish_batch_failed :
      (o : Outside) (b : Batch) (p : ProveResponse) (root : Hash) (e : Text) (s : SequencerState)
      → finish_batch o b p root (err e) s ≡ (err (internal (submit_failed e)), restore_mempool b s)
  unfolding finish_batch
  finish_batch_failed o b p root e s = refl

  -- If the prover fails and no other request comes in while it works, the error is reported and the
  -- state is as before the call, the whole mempool included.
  pub trigger_batch_prover_down :
      (o : Outside) (s : SequencerState) (e : Text)
      → IsConsistent s
      → s.mempool ≢ []
      → o.prove s.canonical_state (batch_of s) ≡ err e
      → o.proving (drained s) ≡ drained s
      → trigger_batch o s ≡ (err (internal (prove_failed e)), s)
  trigger_batch_prover_down o s e v ne p quiet =
      cc (trigger_batch_step o s ne, settle_batch_failed o (batch_of s) e (drained s), restored s v)

  -- If the contract refuses the batch and no other request comes in meanwhile, the error is reported
  -- and the state is as before the call, the whole mempool included.
  pub trigger_batch_contract_refuses :
      (o : Outside) (s : SequencerState) (p : ProveResponse) (pv proof : Bytes) (root : Hash)
      (e : Text)
      → IsConsistent s
      → s.mempool ≢ []
      → o.prove s.canonical_state (batch_of s) ≡ ok p
      → decode_response p ≡ ok (pv, proof, root)
      → o.submit_batch pv proof ≡ err e
      → o.proving (drained s) ≡ drained s
      → o.settling (drained s) ≡ drained s
      → trigger_batch o s ≡ (err (internal (submit_failed e)), s)
  trigger_batch_contract_refuses o s p pv proof root e v ne proved decoded refused q1 q2 = cc (
    trigger_batch_step o s ne,
    settle_batch_proved o (batch_of s) p (drained s) decoded,
    finish_batch_failed o (batch_of s) p root e (drained s),
    restored s v,
  )

  -- A prover's answer that cannot be decoded loses the batch: if no request comes in meanwhile, the
  -- call fails and leaves the state of the drain, in which the mempool is empty.
  pub trigger_batch_loses :
      (o : Outside) (s : SequencerState) (p : ProveResponse) (e : ApiError)
      → s.mempool ≢ []
      → o.prove s.canonical_state (batch_of s) ≡ ok p
      → decode_response p ≡ err e
      → o.proving (drained s) ≡ drained s
      → trigger_batch o s ≡ (err e, drained s)
  trigger_batch_loses o s p e ne proved undecodable quiet =
      cc (
        trigger_batch_step o s ne,
        settle_batch_undecodable o (batch_of s) p (drained s) undecodable,
      )
