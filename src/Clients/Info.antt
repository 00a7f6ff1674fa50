-- ===== src/Clients/Info.antt =====
-- GET /health and GET /info of crates/sequencer/src/routes.rs, which read the whole context.
use zk_rollup.Base.{ℕ, ◌≡◌, ◌++◌, refl, [], ◌∷◌, length, Option, ok}
use zk_rollup.Types.Address.{Address}
use zk_rollup.Types.Crypto.{Crypto}
use zk_rollup.Types.State.{State, merkle_root}
use zk_rollup.Types.Text.{Text, Hex, hex0x}
use zk_rollup.Prover.{Abi, Sdk, ScriptError}
use zk_rollup.Prover.Service
use zk_rollup.Prover.Service.{AppState, ApiError}
use zk_rollup.Sequencer.{from_genesis}
use zk_rollup.Sequencer.Genesis.{Files, Genesis, into_state}
use zk_rollup.Clients.Http.{Http, Json, IsLawfulJson}
use zk_rollup.Clients.L1.{Alloy}
use zk_rollup.Clients.Prover.{info_path}
use zk_rollup.Clients.Server.{get_info, info-get_info}
use zk_rollup.Clients.Startup.{AppCtx, Env, main, main_inv, ok_injective}

unfoldable pub health : Text
health = b'o' ∷ b'k' ∷ []

pub record InfoResponse : Type 0 where
  pub canonical_root : Text
  pub batch_count : ℕ
  pub mempool_size : ℕ
  pub program_vkey : Text
  pub proof_mode : Text
  pub rollup_address : Text

-- `show_address` is the `Debug` text of an address
unfoldable pub info : ⦃h : Hex⦄ → ⦃y : Alloy⦄ → (Address → Text) → AppCtx → InfoResponse
unfolding hex0x
info show_address ctx = record {
  canonical_root = hex0x ctx.state.canonical_root;
  batch_count = ctx.state.batch_count;
  mempool_size = length ctx.state.mempool;
  program_vkey = ctx.program_vkey;
  proof_mode = ctx.proof_mode;
  rollup_address = show_address ctx.l1.rollup_address;
}

module _ ⦃c : Crypto⦄ ⦃h : Hex⦄ ⦃a : Abi⦄ ⦃d : Sdk⦄ ⦃http : Http⦄ ⦃j : Json⦄ ⦃y : Alloy⦄ ⦃f : Files⦄
    (show : ApiError (ScriptError d.SdkError) → Text) where
  -- what /info answers when the sequencer has started, with the prover service that it has asked
  pub info-main :
      (path : Option Text) (env : Env) (ctx : AppCtx) (service : AppState)
      (show_address : Address → Text)
      → IsLawfulJson j
      → main path env ≡ ok ctx
      → http.get (ctx.prover.base ++ info_path) ≡ ok (get_info show service)
      → (genesis : Genesis) × (initial : State) × (into_state genesis ≡ ok initial)
        × (info show_address ctx ≡ record {
          canonical_root = hex0x (merkle_root initial);
          batch_count = 0;
          mempool_size = 0;
          program_vkey = service.vkey;
          proof_mode = (Service.info service).mode;
          rollup_address = show_address ctx.l1.rollup_address;
        })
  unfolding info from_genesis Service.info
  info-main path env ctx service show_address law e delivered =
      let (genesis, initial, _, q, started, _, told) = main_inv path env ctx e in
      let served = info-get_info show ctx.prover service law delivered in
      let same = ok_injective _ _ told served refl in
      let key : ctx.program_vkey ≡ service.vkey = λ i. (same i).vkey in
      let mode : ctx.proof_mode ≡ (Service.info service).mode = λ i. (same i).mode in
      (genesis, initial, q, rw (started, key, mode) refl)
