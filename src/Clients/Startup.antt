-- ===== src/Clients/Startup.antt =====
-- `main` of crates/sequencer/src/main.rs up to the listener. The process environment is a
-- parameter.
use zk_rollup.Base.{
  ◌++◌, ◌≡◌, refl, ap, ◌∙◌, [], ◌∷◌, true, false, not, Bool, Option, none, some, Result, ok, ◌>>=◌,
  ◌>>◌, map_err, map_err-eq-ok, >>=-eq-ok, fail_if,
}
use zk_rollup.Types.Bytes.{Hash, bytes_eq}
use zk_rollup.Types.Order.{eq_of_bytes_eq}
use zk_rollup.Types.Crypto.{Crypto}
use zk_rollup.Types.State.{State, merkle_root}
use zk_rollup.Types.Text.{Text, Hex}
use zk_rollup.Types.Tx.{ok_or}
use zk_rollup.Sequencer.{SequencerState, from_genesis}
use zk_rollup.Sequencer.Consistency.{IsConsistent, from_genesis-IsConsistent}
use zk_rollup.Sequencer.Genesis.{Files, Genesis, LoadError, BadAddress, load, into_state}
use zk_rollup.Rollup
use zk_rollup.Rollup.Lockstep.{InStep}
use zk_rollup.Clients.Http.{Http, Json}
use zk_rollup.Clients.Prover
use zk_rollup.Clients.Prover.{ProverClient, ClientError}
use zk_rollup.Clients.L1
use zk_rollup.Clients.L1.{Alloy, L1Client, L1Error}

-- the variables that `main` reads
pub record Env : Type 0 where
  pub genesis_path : Option Text
  pub prover_svc_url : Option Text
  pub l1_rpc_url : Option Text
  pub deployer_private_key : Option Text
  pub rollup_address : Option Text

-- `unwrap_or`
abbrev pub unwrap_or {ℓ} : {A : Type ℓ} → Option A → A → A
unwrap_or none a = a
unwrap_or (some a) b = a

-- `env_or`, with `parse` of the type and the variable's value
unfoldable pub env_or : {T : Type 0} → (Text → Option T) → Option Text → T → T
env_or parse none fallback = fallback
env_or parse (some t) fallback = unwrap_or (parse t) fallback

abbrev pub default_path : Text
default_path =
    b'.' ∷ b'/' ∷ b'g' ∷ b'e' ∷ b'n' ∷ b'e' ∷ b's' ∷ b'i' ∷ b's' ∷ b'.' ∷ b'j' ∷ b's' ∷ b'o' ∷ b'n'
    ∷ []

abbrev pub localhost : Text
localhost =
    b'h' ∷ b't' ∷ b't' ∷ b'p' ∷ b':' ∷ b'/' ∷ b'/' ∷ b'l' ∷ b'o' ∷ b'c' ∷ b'a' ∷ b'l' ∷ b'h' ∷ b'o'
    ∷ b's' ∷ b't' ∷ b':' ∷ []

abbrev pub default_prover : Text
default_prover = localhost ++ b'7' ∷ b'0' ∷ b'0' ∷ b'2' ∷ []

abbrev pub default_rpc : Text
default_rpc = localhost ++ b'8' ∷ b'5' ∷ b'4' ∷ b'5' ∷ []

-- the option `--genesis`, then the variable, then the default
unfoldable pub genesis_path : Option Text → Env → Text
genesis_path none env = unwrap_or env.genesis_path default_path
genesis_path (some path) env = path

pub ok_injective : {A E : Type 0} (x y : Result A E) {a b : A} → x ≡ ok a → y ≡ ok b → x ≡ y → a ≡ b
ok_injective x y p q e = cc

passed :
    {A E : Type 0} (b : Bool) (e : E) (x : A) {z : A}
    → fail_if (not b) e >> ok x ≡ ok z
    → (b ≡ true) × (z ≡ x)
passed true e x p = (refl, cc)
passed false e x p = cc

from_genesis-InStep :
    ⦃c : Crypto⦄
    → (t : State) (r : Rollup.Rollup) → r.state_root ≡ merkle_root t
    → r.batch_count ≡ 0
    → InStep r (from_genesis t)
unfolding from_genesis
from_genesis-InStep t r root fresh = record { same_root = root; same_count = fresh }

module _ ⦃y : Alloy⦄ where
  pub record AppCtx : Type 0 where
    pub state : SequencerState
    pub prover : ProverClient
    pub l1 : L1Client
    pub program_vkey : Text
    pub proof_mode : Text

module _ ⦃http : Http⦄ ⦃j : Json⦄ ⦃y : Alloy⦄ ⦃h : Hex⦄ ⦃f : Files⦄ where
  pub data MainError : Type 0 where
    not_loaded : LoadError → MainError
    bad_genesis : BadAddress → MainError
    no_info : ClientError → MainError
    no_private_key : MainError
    no_rollup_address : MainError
    not_connected : L1Error → MainError
    no_state_root : L1Error → MainError
    genesis_mismatch : Hash → Hash → MainError

module _ ⦃c : Crypto⦄ ⦃http : Http⦄ ⦃j : Json⦄ ⦃y : Alloy⦄ ⦃h : Hex⦄ ⦃f : Files⦄ where
  -- `main`, with the option `--genesis`
  unfoldable pub main : Option Text → Env → Result AppCtx MainError
  unfolding genesis_path
  main path env = do
    genesis ← map_err not_loaded (load (genesis_path path env))
    initial_state ← map_err bad_genesis (into_state genesis)
    let initial_root = merkle_root initial_state
    let prover = Prover.new (unwrap_or env.prover_svc_url default_prover)
    prover_info ← map_err no_info (Prover.info prover)
    l1_pk ← ok_or env.deployer_private_key no_private_key
    rollup_address ← ok_or env.rollup_address no_rollup_address
    l1 ←
        map_err not_connected
          (L1.connect (unwrap_or env.l1_rpc_url default_rpc) l1_pk rollup_address)
    on_chain_root ← map_err no_state_root (L1.state_root l1)
    fail_if (not (bytes_eq on_chain_root initial_root))
        (genesis_mismatch initial_root on_chain_root)
    ok (record {
      state = from_genesis initial_state;
      prover = prover;
      l1 = l1;
      program_vkey = prover_info.vkey;
      proof_mode = prover_info.mode;
    })

  -- the steps of a start that succeeds
  pub main_inv :
      (path : Option Text) (env : Env) (ctx : AppCtx)
      → main path env ≡ ok ctx
      → (genesis : Genesis) × (initial : State) × (load (genesis_path path env) ≡ ok genesis)
        × (into_state genesis ≡ ok initial)
        × (ctx.state ≡ from_genesis initial)
        × (L1.state_root ctx.l1 ≡ ok (merkle_root initial))
        × (Prover.info ctx.prover ≡ ok (record { mode = ctx.proof_mode; vkey = ctx.program_vkey }))
  unfolding main
  main_inv path env ctx e =
      let (genesis, p1, e1) = >>=-eq-ok (map_err not_loaded (load (genesis_path path env))) _ e in
      let (initial, p2, e2) = >>=-eq-ok (map_err bad_genesis (into_state genesis)) _ e1 in
      let (shown, p3, e3) = >>=-eq-ok (map_err no_info (Prover.info _)) _ e2 in
      let (l1_pk, p4, e4) = >>=-eq-ok (ok_or env.deployer_private_key _) _ e3 in
      let (at, p5, e5) = >>=-eq-ok (ok_or env.rollup_address _) _ e4 in
      let (l1, p6, e6) = >>=-eq-ok (map_err not_connected (L1.connect _ l1_pk at)) _ e5 in
      let (root, p7, e7) = >>=-eq-ok (map_err no_state_root (L1.state_root l1)) _ e6 in
      let (same, made) = passed (bytes_eq root (merkle_root initial)) _ _ e7 in
      let started = ap (λ (x : AppCtx). x.state) made in
      let client = ap (λ (x : AppCtx). x.l1) made in
      let told = map_err-eq-ok _ (L1.state_root l1) p7 in
      let asked =
        ap L1.state_root client ∙ (told ∙ ap ok (eq_of_bytes_eq root (merkle_root initial) same)) in
      (
        genesis,
        initial,
        map_err-eq-ok _ (load (genesis_path path env)) p1,
        map_err-eq-ok _ (into_state genesis) p2,
        started,
        asked,
        rw made (map_err-eq-ok _ (Prover.info _) p3),
      )

  -- If the sequencer starts, its state is that of the genesis file, consistent, L1 has answered with
  -- the state's root, and the prover service with the mode and key that it keeps. It is in step with
  -- every contract that has the root with which L1 has answered and no batches yet.
  pub main-InStep :
      (path : Option Text) (env : Env) (ctx : AppCtx) (r : Rollup.Rollup)
      → main path env ≡ ok ctx
      → L1.state_root ctx.l1 ≡ ok r.state_root
      → r.batch_count ≡ 0
      → (genesis : Genesis) × (initial : State) × (load (genesis_path path env) ≡ ok genesis)
        × (into_state genesis ≡ ok initial)
        × (ctx.state ≡ from_genesis initial)
        × (L1.state_root ctx.l1 ≡ ok (merkle_root initial))
        × (Prover.info ctx.prover ≡ ok (record { mode = ctx.proof_mode; vkey = ctx.program_vkey }))
        × IsConsistent ctx.state
        × InStep r ctx.state
  main-InStep path env ctx r e answered fresh =
      let (genesis, initial, p, q, started, asked, told) = main_inv path env ctx e in
      (
        genesis,
        initial,
        p,
        q,
        started,
        asked,
        told,
        rw started (from_genesis-IsConsistent initial),
        rw started (from_genesis-InStep initial r (ok_injective _ _ answered asked refl) fresh),
      )
