-- ===== src/System/Flight.antt =====
-- What is known of a call of POST /batch of crates/sequencer/src/routes.rs while it waits.
use zk_rollup.Base.{◌+◌, ◌≤◌, ◌<◌, ◌≡◌, ◌≢◌, List, [], All, All-imp, ok, arith, Bool}
use zk_rollup.Types.Address.{Address}
use zk_rollup.Types.Bytes.{Bytes, Hash, u64_mod}
use zk_rollup.Types.Crypto.{Crypto, IsLawful}
use zk_rollup.Types.State.{State, get, merkle_root}
use zk_rollup.Types.State.Laws.{IsValid}
use zk_rollup.Types.Text.{Hex, IsLawfulHex}
use zk_rollup.Types.Tx.{Tx, Batch}
use zk_rollup.Types.Tx.Binding.{IsTx}
use zk_rollup.Stf.Run.{AllAccept, after, values_of, AllAccept-apply_batch}
use zk_rollup.Stf.Ledger.{sent, nonce-after}
use zk_rollup.Prover.{Abi, IsLawfulAbi, Sdk, ProofMode}
use zk_rollup.Prover.Service
use zk_rollup.Prover.Service.{ProveResponse}
use zk_rollup.Prover.Honest.{RunsProgram, serve-apply_batch}
use zk_rollup.Routes.{decode_response}
use zk_rollup.Routes.Decode.{decode_response_run}
use zk_rollup.System.{Call, proving, submitting}

-- No account's nonce is smaller in the second state.
abbrev pub Older : State → State → Type 0
Older s t = (k : Address) → (get s k).nonce ≤ (get t k).nonce

module _ ⦃c : Crypto⦄ where
  -- A batch that was drained when the canonical state was `prev`.
  pub record Started (canonical prev : State) (batch : Batch) : Type 0 where
    pub valid : IsValid prev
    pub txs : All IsTx batch.txs
    pub not_empty : batch.txs ≢ []
    pub pending : AllAccept batch.txs prev
    pub older : Older prev canonical

  pub Started-Older :
      (s t prev : State) (batch : Batch) → Older s t → Started s prev batch → Started t prev batch
  Started-Older s t prev batch o h = record {
    valid = h.valid;
    txs = h.txs;
    not_empty = h.not_empty;
    pending = h.pending;
    older = λ k. omega (arith, h.older k, o k);
  }

  -- the nonces after a run in which none wraps
  pub nonce-after_small :
      (txs : List Tx) (s : State) (k : Address)
      → IsValid s
      → All IsTx txs
      → AllAccept txs s
      → (get s k).nonce + sent k txs < u64_mod
      → (get (after txs s) k).nonce ≡ (get s k).nonce + sent k txs
  nonce-after_small txs s k v t p small = omega (arith, nonce-after txs s k v t p)

module _ ⦃c : Crypto⦄ ⦃a : Abi⦄ where
  abbrev pub InFlight : State → Call → Type 0
  InFlight canonical (proving prev batch) = Started canonical prev batch
  InFlight canonical (submitting prev batch pv proof root) =
      Started canonical prev batch
      × (pv ≡ a.abi_encode (values_of batch.txs prev))
      × (root ≡ merkle_root (after batch.txs prev))

  InFlight-Older : (s t : State) → Older s t → (call : Call) → InFlight s call → InFlight t call
  InFlight-Older s t o (proving prev batch) h = Started-Older s t prev batch o h
  InFlight-Older s t o (submitting prev batch pv proof root) h =
      (Started-Older s t prev batch o h.0, h.1, h.2)

  pub All-InFlight-Older :
      (s t : State) (calls : List Call)
      → Older s t
      → All (InFlight s) calls
      → All (InFlight t) calls
  All-InFlight-Older s t calls o h = All-imp (InFlight-Older s t o) calls h

module _ ⦃c : Crypto⦄ ⦃h : Hex⦄ ⦃a : Abi⦄ ⦃d : Sdk⦄ where
  -- the answer of the prover service, decoded, is that of the batch's run
  pub prove-InFlight :
      (canonical prev : State) (batch : Batch) (alive : Bool) (mode : ProofMode) (p : ProveResponse)
      (pv proof : Bytes) (root : Hash)
      → IsLawful c
      → IsLawfulHex h
      → IsLawfulAbi a
      → RunsProgram d
      → Started canonical prev batch
      → Service.prove alive mode (record { prev_state = prev; batch = batch }) ≡ ok p
      → decode_response p ≡ ok (pv, proof, root)
      → InFlight canonical (submitting prev batch pv proof root)
  prove-InFlight canonical prev batch alive mode p pv proof root law hex abi runs st served
        decoded =
      let (out, ran, shown, _, _, _) =
        serve-apply_batch alive mode (record { prev_state = prev; batch = batch }) p law abi runs
          served in
      let (_, left, values) = AllAccept-apply_batch prev batch out ran in
      let (same, read) =
        decode_response_run prev batch out p pv proof root law hex abi ran shown decoded in
      (st, cc (same, values), cc (read, values))
