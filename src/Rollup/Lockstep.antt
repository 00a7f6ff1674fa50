-- ===== src/Rollup/Lockstep.antt =====
-- The sequencer (crates/sequencer/src/state.rs) beside the contract (contracts/src/Rollup.sol): a
-- batch that goes through moves both.
use zk_rollup.Base.{err, false, ap, some, ◌≡◌, ◌≢◌, ◌∙◌, sym, List, ok}
use zk_rollup.Types.Bytes.{Bytes, bytes_eq}
use zk_rollup.Types.Crypto.{Crypto, IsLawful}
use zk_rollup.Types.State.{State, merkle_root}
use zk_rollup.Types.Tx.{Tx, Batch}
use zk_rollup.Stf.{PublicValues, ApplyOutput, apply_batch}
use zk_rollup.Stf.Run.{AllAccept-apply_batch}
use zk_rollup.Prover.{Abi, IsLawfulAbi}
use zk_rollup.Prover.Honest.{values-HasHashes}
use zk_rollup.Sequencer.{SequencerState, readmit, commit_batch}
use zk_rollup.Sequencer.Consistency.{IsConsistent}
use zk_rollup.Routes.Batches.{drained, batch_of}
use zk_rollup.Routes.Commit.{commit_batch-Settled}
use zk_rollup.Rollup.{
  Verifier, Rollup, BatchSettled, Submission, zero_word, submit_batch, decode_words,
  stale_state_root,
}
use zk_rollup.Rollup.Calls.{
  stale, submit_batch-Advances, Advances-submit_batch, decode_words-append, advanced, announced,
  bytes_eq_ne,
}

-- The contract and the sequencer have settled the same batches.
pub record InStep (r : Rollup) (s : SequencerState) : Type 0 where
  pub same_root : r.state_root ≡ s.canonical_root
  pub same_count : r.batch_count ≡ s.batch_count

-- the call that carries public values and a proof
abbrev pub call_of : ⦃a : Abi⦄ → PublicValues → Bytes → Submission
call_of ⦃a = a⦄ pv proof = record { public_values = a.abi_encode pv; proof_bytes = proof }

module _ ⦃c : Crypto⦄ ⦃a : Abi⦄ ⦃v : Verifier⦄ where
  -- If the sequencer is consistent and in step with the contract, then the contract accepts the
  -- public values of the run of its drained batch, with a proof that the verifier accepts and a new
  -- root that is not zero; the commit that follows, whatever transactions came in since the drain
  -- and come in after it, succeeds and has both in step again, at the number that the event names.
  pub submit_batch-commit_batch :
      (r : Rollup) (s : SequencerState) (out : ApplyOutput) (proof : Bytes) (ts us : List Tx)
      → IsLawful c
      → IsLawfulAbi a
      → IsConsistent s
      → InStep r s
      → apply_batch s.canonical_state (batch_of s) ≡ ok out
      → v.verify_proof r.verifier r.program_vkey (a.abi_encode out.public_values) proof ≡ ok tt
      → merkle_root s.speculative_state ≢ zero_word
      → let call = call_of out.public_values proof in
        let (done, left) =
          commit_batch (batch_of s) out.public_values.new_root (readmit ts (drained s)) in
        (event : BatchSettled) × (t : Rollup) × (submit_batch call r ≡ ok (event, t))
        × (done ≡ ok tt)
        × InStep t (readmit us left)
        × (event.batch_number ≡ (readmit us left).batch_count)
  submit_batch-commit_batch r s out proof ts us law abi k step ran verified not_zero =
      let (_, left, shown) = AllAccept-apply_batch s.canonical_state (batch_of s) out ran in
      let sized = values-HasHashes s.canonical_state (batch_of s) out law ran in
      let pv = out.public_values in
      let new : pv.new_root ≡ merkle_root s.speculative_state = cc (shown, k.speculative) in
      let prev : pv.prev_root ≡ r.state_root = cc (shown, k.rooted, step.same_root) in
      let accepted = Advances-submit_batch (call_of pv proof) r pv (record {
        verified = verified;
        decoded = rw (abi.abi_encode_words pv sized) (decode_words-append pv sized);
        current = prev;
        not_empty = bytes_eq_ne pv.new_root zero_word (λ p. not_zero (sym new ∙ p));
      }) in
      let (done, settled) = commit_batch-Settled s ts us k in
      (
        announced pv r,
        advanced pv r,
        accepted,
        cc (new, done),
        record {
          same_root = new ∙ sym (cc (settled.root_known));
          same_count = cc (settled.counted, step.same_count);
        },
        cc (settled.counted, step.same_count),
      )

  -- Of two batches that both run from one state, say those of two calls of POST /batch that overlap,
  -- only one settles: after the contract has accepted the first, it refuses the second, whose proof
  -- verifies as well, for its outdated root, if the first has changed the root.
  pub submit_batch_overlapping :
      (r t : Rollup) (s : State) (b d : Batch) (out next : ApplyOutput) (p q : Bytes)
      (event : BatchSettled)
      → IsLawful c
      → IsLawfulAbi a
      → apply_batch s b ≡ ok out
      → apply_batch s d ≡ ok next
      → submit_batch (call_of out.public_values p) r ≡ ok (event, t)
      → v.verify_proof r.verifier r.program_vkey (a.abi_encode next.public_values) q ≡ ok tt
      → merkle_root s ≢ merkle_root out.new_state
      → submit_batch (call_of next.public_values q) t
        ≡ err (stale_state_root (merkle_root out.new_state) (merkle_root s))
  submit_batch_overlapping r t s b d out next p q event law abi ran also accepted verified differ =
      let pv = out.public_values in
      let pw = next.public_values in
      let (_, left, shown) = AllAccept-apply_batch s b out ran in
      let (_, _, shown') = AllAccept-apply_batch s d next also in
      let sized = values-HasHashes s b out law ran in
      let sized' = values-HasHashes s d next law also in
      let (values, adv, moved, _) = submit_batch-Advances (call_of pv p) r t event accepted in
      let read = decode_words-append pv sized in
      let same : values ≡ pv = cc (adv.decoded, read, abi.abi_encode_words pv sized) in
      let root : values.new_root ≡ merkle_root out.new_state = cc (same, shown, left) in
      let prev : pw.prev_root ≡ merkle_root s = cc (shown') in
      let decoded : decode_words (a.abi_encode pw) ≡ some pw =
        rw (abi.abi_encode_words pw sized') (decode_words-append pw sized') in
      let other : bytes_eq pw.prev_root values.new_root ≡ false =
        bytes_eq_ne pw.prev_root values.new_root (λ e. differ (sym prev ∙ (e ∙ root))) in
      let refused = stale (call_of pw q) (advanced values r) pw verified decoded other in
      rw moved (refused ∙ ap err (λ i. stale_state_root (root i) (prev i)))
