-- ===== src/Clients/Receipts.antt =====
-- What an answer of `L1Client::submit_batch` (crates/sequencer/src/l1.rs) says of the contract, and
-- what becomes of the sequencer when the receipt of an accepted batch does not come.
use zk_rollup.Base.{
  [], ap, ◌≡◌, ◌≢◌, inl, inr, sym, ◌∙◌, Bool, true, false, List, ok, err, is_ok, arith,
  if◌then◌else◌, Result-cases,
}
use zk_rollup.Types.Bytes.{Bytes, Hash}
use zk_rollup.Types.Crypto.{Crypto, IsLawful}
use zk_rollup.Types.State.{merkle_root}
use zk_rollup.Types.Tx.{Tx, Batch}
use zk_rollup.Stf.{ApplyOutput, apply_batch}
use zk_rollup.Prover.{Abi, IsLawfulAbi}
use zk_rollup.Sequencer.{SequencerState, readmit}
use zk_rollup.Sequencer.Consistency.{IsConsistent}
use zk_rollup.Sequencer.Settlement.{readmit-SameCanonical}
use zk_rollup.Types.Text.{Text, Hex}
use zk_rollup.Prover.Service.{ProveResponse}
use zk_rollup.Rollup.Lockstep.{call_of, submit_batch_overlapping}
use zk_rollup.Routes.Batches.{batch_of, drained, trigger_batch_contract_refuses}
use zk_rollup.Rollup
use zk_rollup.Rollup.{Verifier, Submission, BatchSettled, stale_state_root, after_call}
use zk_rollup.Clients.L1
use zk_rollup.Clients.L1.{Alloy, Receipt, L1Client, L1Error, reverted, provider, gas_limit}
use zk_rollup.Routes.{
  SettleOutcome, Outside, trigger_batch, decode_response, internal, submit_failed,
}

module _ ⦃v : Verifier⦄ ⦃y : Alloy⦄ where
  -- What L1 may make of a call that the client sends: with a receipt, the call has run and the receipt
  -- tells whether it has reverted; without one it may have run or not.
  pub data Mined (client : L1Client) (call : Submission) (r : Rollup.Rollup)
      : Rollup.Rollup → Type 0 where
    no_provider : (e : L1Error) → provider client ≡ err e → Mined client call r r
    not_sent :
        (url : y.Url) (e : y.Error) (ran : Bool)
        → provider client ≡ ok url
        → y.send client.wallet url client.rollup_address call gas_limit ≡ err e
        → Mined client call r (if ran then after_call call r else r)
    no_receipt :
        (url : y.Url) (hash : Hash) (e : y.Error) (ran : Bool)
        → provider client ≡ ok url
        → y.send client.wallet url client.rollup_address call gas_limit ≡ ok hash
        → y.get_receipt url hash ≡ err e
        → Mined client call r (if ran then after_call call r else r)
    receipt :
        (url : y.Url) (hash : Hash) (given : Receipt)
        → provider client ≡ ok url
        → y.send client.wallet url client.rollup_address call gas_limit ≡ ok hash
        → y.get_receipt url hash ≡ ok given
        → given.status ≡ is_ok (Rollup.submit_batch call r)
        → Mined client call r (after_call call r)

  ran_ok :
      (call : Submission) (r : Rollup.Rollup)
      → is_ok (Rollup.submit_batch call r) ≡ true
      → (event : BatchSettled) × (Rollup.submit_batch call r ≡ ok (event, after_call call r))
  unfolding after_call
  ran_ok call r p = elim (Result-cases (Rollup.submit_batch call r)) [
    | inl ((event, next), q) ↦ (event, ground arith)
    | inr (e, q) ↦ absurd (ground arith)
  ]

  ran_err :
      (call : Submission) (r : Rollup.Rollup)
      → is_ok (Rollup.submit_batch call r) ≡ false
      → after_call call r ≡ r
  unfolding after_call
  ran_err call r p = elim (Result-cases (Rollup.submit_batch call r)) [
    | inl ((event, next), q) ↦ absurd (ground arith)
    | inr (e, q) ↦ ground arith
  ]

  -- An outcome says that the contract has accepted the batch and is in the state that the call leaves.
  pub submit_batch-Mined :
      (client : L1Client) (call : Submission) (r next : Rollup.Rollup) (outcome : SettleOutcome)
      → Mined client call r next
      → L1.submit_batch client call.public_values call.proof_bytes ≡ ok outcome
      → (event : BatchSettled) × (Rollup.submit_batch call r ≡ ok (event, next))
  unfolding L1.submit_batch
  submit_batch-Mined client call r next outcome (no_provider e p) q = absurd (ground arith)
  submit_batch-Mined client call r next outcome (not_sent url e ran p s) q = absurd (ground arith)
  submit_batch-Mined client call r next outcome (no_receipt url hash e ran p s g) q =
      absurd (ground arith)
  submit_batch-Mined client call r next outcome (receipt url hash given p s g t) q =
      ran_ok call r (sym t ∙ ground arith)

module _ ⦃c : Crypto⦄ ⦃h : Hex⦄ ⦃a : Abi⦄ ⦃v : Verifier⦄ where
  -- A receipt that does not come: on a consistent sequencer the contract accepts the batch, but the
  -- client reports an error. If no other request comes in during the call, POST /batch fails and
  -- leaves the sequencer as it was before the call, and whatever transactions come in afterwards, the contract refuses every later batch that runs from the sequencer's
  -- canonical state, although its proof verifies, unless the accepted batch has left the root as it
  -- was.
  pub trigger_batch_receipt_lost :
      (o : Outside) (s : SequencerState) (p : ProveResponse) (out later : ApplyOutput)
      (proof q : Bytes) (root : Hash) (e : Text) (r next : Rollup.Rollup) (event : BatchSettled)
      (us : List Tx) (d : Batch)
      → IsLawful c
      → IsLawfulAbi a
      → IsConsistent s
      → s.mempool ≢ []
      → o.prove s.canonical_state (batch_of s) ≡ ok p
      → apply_batch s.canonical_state (batch_of s) ≡ ok out
      → decode_response p ≡ ok (a.abi_encode out.public_values, proof, root)
      → Rollup.submit_batch (call_of out.public_values proof) r ≡ ok (event, next)
      → o.submit_batch (a.abi_encode out.public_values) proof ≡ err e
      → o.proving (drained s) ≡ drained s
      → o.settling (drained s) ≡ drained s
      → merkle_root s.canonical_state ≢ merkle_root out.new_state
      → apply_batch (readmit us s).canonical_state d ≡ ok later
      → v.verify_proof r.verifier r.program_vkey (a.abi_encode later.public_values) q ≡ ok tt
      → (trigger_batch o s ≡ (err (internal (submit_failed e)), s))
        × (Rollup.submit_batch (call_of later.public_values q) next
            ≡ err (stale_state_root (merkle_root out.new_state) s.canonical_root))
  trigger_batch_receipt_lost o s p out later proof q root e r next event us d law abi k ne proved
        ran decoded accepted lost q1 q2 differ again verified =
      let same = readmit-SameCanonical us s in
      let refused =
        submit_batch_overlapping r next s.canonical_state (batch_of s) d out later proof q event law
          abi ran (rw (← same.same_state) again) accepted verified differ in
      (
        trigger_batch_contract_refuses o s p (a.abi_encode out.public_values) proof root e k ne
            proved decoded lost q1 q2,
        refused
            ∙ ap (λ (x : Hash). err (stale_state_root (merkle_root out.new_state) x))
                (sym k.rooted),
      )
