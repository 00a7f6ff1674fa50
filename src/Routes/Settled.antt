-- ===== src/Routes/Settled.antt =====
-- POST /batch when the prover attests the batch and the contract accepts it.
use zk_rollup.Base.{◌<◌, ◌≡◌, ◌≢◌, refl, [], ◌∷◌, ◌++◌, List, All, length, ok, arith, ◌∙◌, sym, ap}
use zk_rollup.Types.Bytes.{Bytes, Hash}
use zk_rollup.Types.Crypto.{Crypto, IsLawful}
use zk_rollup.Types.State.{merkle_root}
use zk_rollup.Types.Text.{Hex, IsLawfulHex, hex0x}
use zk_rollup.Types.Tx.{Tx, Batch}
use zk_rollup.Stf.{ApplyOutput, apply_batch, wrapping_add}
use zk_rollup.Stf.Run.{AllAccept-apply_batch}
use zk_rollup.Prover.{Abi, IsLawfulAbi, HasHashes}
use zk_rollup.Prover.Service.{ProveResponse}
use zk_rollup.Sequencer.{SequencerState, readmit, commit_batch}
use zk_rollup.Sequencer.Consistency.{IsConsistent}
use zk_rollup.Routes.{Outside, SettleOutcome, BatchResponse, finish_batch, trigger_batch}
use zk_rollup.Routes.Decode.{
  HasBytes, decode_response-attests, values_of-HasHashes, values_of-HasBytes,
}
use zk_rollup.Routes.Commit.{Settled, commit_batch-Settled}
use zk_rollup.Routes.Batches.{batch_of, drained, trigger_batch_step, settle_batch_proved}

module _ ⦃c : Crypto⦄ where
  pub readmit-append :
      (ts us : List Tx) (s : SequencerState) → readmit (ts ++ us) s ≡ readmit us (readmit ts s)
  unfolding readmit
  readmit-append [] us s = refl
  readmit-append (t ∷ ts) us s = readmit-append ts us _

module _ ⦃c : Crypto⦄ ⦃h : Hex⦄ where
  -- what a commit that succeeds answers
  pub settled_answer : SequencerState → Batch → ProveResponse → SettleOutcome → BatchResponse
  settled_answer s b p outcome = record {
    batch_number = s.batch_count;
    txs = length b.txs;
    prev_root = p.prev_root;
    new_root = p.new_root;
    batch_hash = p.batch_hash;
    l1_tx_hash = outcome.tx_hash;
    l1_block = outcome.block_number;
    gas_used = outcome.gas_used;
  }

  settled_answer_number :
      (s : SequencerState) (b : Batch) (p : ProveResponse) (outcome : SettleOutcome)
      → (settled_answer s b p outcome).batch_number ≡ s.batch_count
  unfolding settled_answer
  settled_answer_number s b p outcome = refl

  settled_answer_txs :
      (s : SequencerState) (b : Batch) (p : ProveResponse) (outcome : SettleOutcome)
      → (settled_answer s b p outcome).txs ≡ length b.txs
  unfolding settled_answer
  settled_answer_txs s b p outcome = refl

  pub finish_batch_committed :
      (o : Outside) (b : Batch) (p : ProveResponse) (root : Hash) (outcome : SettleOutcome)
      (s : SequencerState)
      → (commit_batch b root s).0 ≡ ok tt
      → let next = o.responding (commit_batch b root s).1 in
        finish_batch o b p root (ok outcome) s ≡ (ok (settled_answer next b p outcome), next)
  unfolding finish_batch settled_answer
  finish_batch_committed o b p root outcome s e = ground (arith, e)

module _ ⦃c : Crypto⦄ ⦃h : Hex⦄ ⦃a : Abi⦄ where
  -- A batch settles: if the sequencer is consistent, its mempool is not empty, the prover's answer shows the public values of the
  -- run of `apply_batch` on the snapshot, and the contract accepts them with the proof, then POST
  -- /batch succeeds whatever transactions are posted meanwhile. It answers with the next batch number
  -- and the number of transactions; the canonical state becomes the speculative state of the moment
  -- of the drain, the canonical root its root, and the sequencer is consistent again.
  pub trigger_batch-Settled :
      (o : Outside) (s : SequencerState) (p : ProveResponse) (out : ApplyOutput) (proof : Bytes)
      (outcome : SettleOutcome) (ts us vs : List Tx)
      → IsLawful c
      → IsLawfulHex h
      → IsLawfulAbi a
      → IsConsistent s
      → s.mempool ≢ []
      → apply_batch s.canonical_state (batch_of s) ≡ ok out
      → o.prove s.canonical_state (batch_of s) ≡ ok p
      → p.public_values ≡ hex0x (a.abi_encode out.public_values)
      → p.proof ≡ hex0x proof
      → All (λ x. x < 256) proof
      → o.submit_batch (a.abi_encode out.public_values) proof ≡ ok outcome
      → ((t : SequencerState) → o.proving t ≡ readmit ts t)
      → ((t : SequencerState) → o.settling t ≡ readmit us t)
      → ((t : SequencerState) → o.responding t ≡ readmit vs t)
      → let (r, next) = trigger_batch o s in
        (resp : BatchResponse) × (r ≡ ok resp)
        × (resp.batch_number ≡ wrapping_add s.batch_count 1)
        × (resp.txs ≡ length s.mempool)
        × Settled s (merkle_root s.speculative_state) next
  trigger_batch-Settled o s p out proof outcome ts us vs law hex abi v ne ran proved shown
        shown_proof wp accepted m1 m2 m3 =
      let b = batch_of s in
      let root = merkle_root s.speculative_state in
      let (_, left, values) = AllAccept-apply_batch s.canonical_state b out ran in
      let n : HasHashes out.public_values =
        rw values (values_of-HasHashes s.mempool s.canonical_state law) in
      let w : HasBytes out.public_values =
        rw values (values_of-HasBytes s.mempool s.canonical_state law) in
      let same_root : out.public_values.new_root ≡ root = cc (values, v.speculative) in
      let decoded =
        decode_response-attests p out.public_values proof hex abi n w wp shown shown_proof in
      let arrived : o.settling (o.proving (drained s)) ≡ readmit (ts ++ us) (drained s) =
        m2 _ ∙ (ap (readmit us) (m1 _) ∙ sym (readmit-append ts us (drained s))) in
      let (done, settled) = commit_batch-Settled s (ts ++ us) vs v in
      let next = readmit vs (commit_batch b root (readmit (ts ++ us) (drained s))).1 in
      let path : trigger_batch o s ≡ (ok (settled_answer next b p outcome), next) = cc (
        trigger_batch_step o s ne,
        settle_batch_proved o b p (o.proving (drained s)) decoded,
        same_root,
        arrived,
        finish_batch_committed o b p root outcome (readmit (ts ++ us) (drained s)) done,
        m3 (commit_batch b root (readmit (ts ++ us) (drained s))).1,
      ) in
      rw path (
        settled_answer next b p outcome,
        refl,
        settled_answer_number next b p outcome ∙ settled.counted,
        settled_answer_txs next b p outcome,
        settled,
      )
