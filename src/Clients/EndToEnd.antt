-- ===== src/Clients/EndToEnd.antt =====
-- POST /batch of crates/sequencer/src/routes.rs with its two clients in place: the sequencer, the
-- prover service, the zkVM program and the contract together.
use zk_rollup.Base.{◌++◌, ◌<◌, ◌≡◌, ◌≢◌, refl, ap, ◌∙◌, [], List, All, length, Bool, ok, map_err}
use zk_rollup.Types.Bytes.{Bytes}
use zk_rollup.Types.Crypto.{Crypto, IsLawful}
use zk_rollup.Types.Text.{Text, Hex, IsLawfulHex, hex0x}
use zk_rollup.Types.Tx.{Tx}
use zk_rollup.Stf.Run.{values_of, AllAccept-apply_batch}
use zk_rollup.Prover.{Abi, IsLawfulAbi, Sdk, ScriptError}
use zk_rollup.Prover.Service
use zk_rollup.Prover.Service.{ProveResponse, WorkRequest, ApiError, AppState}
use zk_rollup.Prover.Honest.{RunsProgram, serve-apply_batch}
use zk_rollup.Sequencer.{SequencerState, readmit}
use zk_rollup.Sequencer.Consistency.{IsConsistent}
use zk_rollup.Routes.{Outside, SettleOutcome, BatchResponse, trigger_batch}
use zk_rollup.Routes.Batches.{batch_of}
use zk_rollup.Routes.Decode.{values_of-HasHashes}
use zk_rollup.Routes.Settled.{trigger_batch-Settled}
use zk_rollup.Rollup
use zk_rollup.Rollup.{Verifier, Submission}
use zk_rollup.Rollup.Calls.{submit_batch-Advances, decode_words-append}
use zk_rollup.Rollup.Lockstep.{InStep, call_of}
use zk_rollup.Clients.Http.{Http, Json, IsLawfulJson}
use zk_rollup.Clients.Prover
use zk_rollup.Clients.Prover.{ProverClient, ClientError, prove_path}
use zk_rollup.Clients.Server.{post_prove, received, prove-post_prove}
use zk_rollup.Clients.L1
use zk_rollup.Clients.L1.{Alloy, L1Client, L1Error}
use zk_rollup.Clients.Receipts.{Mined, submit_batch-Mined}

module _ ⦃http : Http⦄ ⦃j : Json⦄ ⦃y : Alloy⦄ where
  -- the two clients, and what their errors show as texts
  pub record Endpoints : Type 0 where
    pub prover : ProverClient
    pub l1 : L1Client
    pub show_prover : ClientError → Text
    pub show_l1 : L1Error → Text

  -- what the handler gets from its clients, while other requests come in: `ts` before the prover
  -- answers, `us` before L1 does, and `vs` before the response is written
  unfoldable pub outside : ⦃c : Crypto⦄ → Endpoints → List Tx → List Tx → List Tx → Outside
  outside ctx ts us vs = record {
    prove = λ prev_state batch. map_err ctx.show_prover (Prover.prove ctx.prover prev_state batch);
    submit_batch = λ pv proof. map_err ctx.show_l1 (L1.submit_batch ctx.l1 pv proof);
    proving = readmit ts;
    settling = readmit us;
    responding = readmit vs;
  }

module _ ⦃c : Crypto⦄ ⦃h : Hex⦄ ⦃a : Abi⦄ ⦃d : Sdk⦄ ⦃v : Verifier⦄ ⦃http : Http⦄ ⦃j : Json⦄
    ⦃y : Alloy⦄ (show : ApiError (ScriptError d.SdkError) → Text) where
  -- With crates that meet their laws and an SDK that runs the program: if the sequencer is
  -- consistent, in step with the contract and has transactions waiting, its request reaches the
  -- prover service, which answers it with a proof, and L1 answers the submission with a receipt of
  -- success, then POST /batch succeeds, whatever transactions are posted meanwhile, and the sequencer
  -- is consistent and in step with the contract again. The response has the contract's new number of
  -- batches and the number of transactions that waited.
  pub trigger_batch-outside :
      (ctx : Endpoints) (alive : Bool) (state : AppState) (s : SequencerState) (p : ProveResponse)
      (proof : Bytes) (outcome : SettleOutcome) (r next : Rollup.Rollup) (ts us vs : List Tx)
      → IsLawful c
      → IsLawfulHex h
      → IsLawfulAbi a
      → IsLawfulJson j
      → RunsProgram d
      → IsConsistent s
      → InStep r s
      → s.mempool ≢ []
      → let req : WorkRequest = record { prev_state = s.canonical_state; batch = batch_of s } in
        http.post (ctx.prover.base ++ prove_path) (j.write_work req)
          ≡ ok (post_prove show alive state (j.write_work req))
        → Service.prove alive state.mode
            (record { prev_state = s.canonical_state; batch = batch_of s })
          ≡ ok p
        → p.proof ≡ hex0x proof
        → All (λ x. x < 256) proof
        → L1.submit_batch ctx.l1 (a.abi_encode (values_of s.mempool s.canonical_state)) proof
          ≡ ok outcome
        → Mined ctx.l1 (call_of (values_of s.mempool s.canonical_state) proof) r next
        → let (result, after) = trigger_batch (outside ctx ts us vs) s in
          (resp : BatchResponse) × (result ≡ ok resp)
          × IsConsistent after
          × InStep next after
          × (resp.batch_number ≡ next.batch_count)
          × (resp.txs ≡ length s.mempool)
  unfolding outside
  trigger_batch-outside ctx alive state s p proof outcome r next ts us vs law hex abi json runs k
        step ne delivered served shown_proof bytes answered mined =
      let req : WorkRequest = record { prev_state = s.canonical_state; batch = batch_of s } in
      let (out, ran, shown, _, _, _) =
        serve-apply_batch alive state.mode req p law abi runs served in
      let (_, left, values) = AllAccept-apply_batch s.canonical_state (batch_of s) out ran in
      let vs' = values_of s.mempool s.canonical_state in
      let got : Prover.prove ctx.prover s.canonical_state (batch_of s) ≡ ok p =
        prove-post_prove show ctx.prover req alive state json delivered
        ∙ ap (received show) served in
      let (event, accepted) =
        submit_batch-Mined ctx.l1 (call_of vs' proof) r next outcome mined answered in
      let (pv, adv, moved, _) = submit_batch-Advances (call_of vs' proof) r next event accepted in
      let sized = values_of-HasHashes s.mempool s.canonical_state law in
      let same : pv ≡ vs' =
        cc (adv.decoded, decode_words-append vs' sized, abi.abi_encode_words vs' sized) in
      let (resp, done, number, count, settled) =
        trigger_batch-Settled (outside ctx ts us vs) s p out proof outcome ts us vs law hex abi k ne
          ran (ap (map_err ctx.show_prover) got) shown shown_proof bytes
          (rw values (ap (map_err ctx.show_l1) answered)) (λ t. refl) (λ t. refl) (λ t. refl) in
      (
        resp,
        done,
        settled.consistent,
        record {
          same_root = cc (moved, same, settled.root_known, k.speculative);
          same_count = cc (moved, settled.counted, step.same_count);
        },
        cc (moved, number, step.same_count),
        count,
      )
