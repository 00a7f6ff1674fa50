-- ===== src/System/Verdict.antt =====
-- What submitBatch of contracts/src/Rollup.sol answers to a batch that a call of POST /batch has proved.
use zk_rollup.Base.{◌≡◌, ◌≢◌, sym, ◌∙◌, ok}
use zk_rollup.Types.Bytes.{Bytes, Hash}
use zk_rollup.Types.Crypto.{Crypto, IsLawful}
use zk_rollup.Types.State.{State, merkle_root}
use zk_rollup.Types.Tx.{Batch}
use zk_rollup.Stf.Run.{values_of}
use zk_rollup.Prover.{Abi, IsLawfulAbi}
use zk_rollup.Routes.Decode.{values_of-HasHashes}
use zk_rollup.Rollup.{Verifier, Rollup, Submission, submit_batch, zero_word, BatchSettled}
use zk_rollup.Rollup.Calls.{
  Advances-submit_batch, advanced, announced, decode_words-append, bytes_eq_ne,
  submit_batch-Advances,
}
use zk_rollup.Rollup.Lockstep.{InStep}
use zk_rollup.System.{System, submitting}
use zk_rollup.System.Flight.{InFlight}

module _ ⦃c : Crypto⦄ ⦃a : Abi⦄ ⦃v : Verifier⦄ where
  pub current-accepted :
      (s : System) (prev : State) (batch : Batch) (pv proof : Bytes) (root : Hash)
      → IsLawful c
      → IsLawfulAbi a
      → InStep s.contract s.sequencer
      → InFlight s.sequencer.canonical_state (submitting prev batch pv proof root)
      → v.verify_proof s.contract.verifier s.contract.program_vkey pv proof ≡ ok tt
      → root ≢ zero_word
      → merkle_root prev ≡ s.sequencer.canonical_root
      → let values = values_of batch.txs prev in
        submit_batch (record { public_values = pv; proof_bytes = proof }) s.contract
        ≡ ok (announced values s.contract, advanced values s.contract)
  current-accepted s prev batch pv proof root law abi step (st, shown, read) verified not_zero
        current =
      let call : Submission = record { public_values = pv; proof_bytes = proof } in
      let values = values_of batch.txs prev in
      let sized = values_of-HasHashes batch.txs prev law in
      Advances-submit_batch call s.contract values (record {
        verified = verified;
        decoded =
            rw shown (rw (abi.abi_encode_words values sized) (decode_words-append values sized));
        current = current ∙ sym step.same_root;
        not_empty = bytes_eq_ne values.new_root zero_word (λ p. not_zero (read ∙ p));
      })

  pub accepted-current :
      (s : System) (prev : State) (batch : Batch) (pv proof : Bytes) (root : Hash)
      (event : BatchSettled) (next : Rollup)
      → IsLawful c
      → IsLawfulAbi a
      → InStep s.contract s.sequencer
      → InFlight s.sequencer.canonical_state (submitting prev batch pv proof root)
      → submit_batch (record { public_values = pv; proof_bytes = proof }) s.contract
        ≡ ok (event, next)
      → merkle_root prev ≡ s.sequencer.canonical_root
  accepted-current s prev batch pv proof root event next law abi step (st, shown, read) done =
      let call : Submission = record { public_values = pv; proof_bytes = proof } in
      let vs = values_of batch.txs prev in
      let sized = values_of-HasHashes batch.txs prev law in
      let (values, adv, _, _) = submit_batch-Advances call s.contract next event done in
      let encoded = shown ∙ abi.abi_encode_words vs sized in
      let same : values ≡ vs = cc (adv.decoded, encoded, decode_words-append vs sized) in
      cc (same, adv.current, step.same_root)
