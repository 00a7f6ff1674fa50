-- ===== src/Clients/Deploy.antt =====
-- How a rollup is brought up: bin/compute_root.rs prints the root of a genesis file, the contract is
-- deployed with it, and `main` of crates/sequencer/src/main.rs starts from the file.
use zk_rollup.Base.{
  ◌<◌, ◌≡◌, ◌≢◌, ◌⊎◌, ◌∙◌, sym, ap, refl, All, Bool-cases, inl, inr, some, ok, err, if◌then◌else◌,
}
use zk_rollup.Types.Bytes.{Hash, bytes_eq}
use zk_rollup.Types.Order.{eq_of_bytes_eq, bytes_eq_refl}
use zk_rollup.Types.Crypto.{Crypto, IsLawful}
use zk_rollup.Types.State.{State, merkle_root}
use zk_rollup.Types.Text.{Text, Hex, IsLawfulHex, hex0x, hex_to_bytes}
use zk_rollup.Types.Text.RoundTrip.{hex_to_bytes-hex0x}
use zk_rollup.Sequencer.{from_genesis}
use zk_rollup.Sequencer.Genesis.{Files, Genesis, load, into_state}
use zk_rollup.Sequencer.Genesis.ComputeRoot.{compute_root, compute_root_inv}
use zk_rollup.Prover.Service.{InfoResponse}
use zk_rollup.Clients.Http.{Http, Json}
use zk_rollup.Clients.Prover
use zk_rollup.Clients.L1
use zk_rollup.Clients.L1.{Alloy, L1Client}
use zk_rollup.Clients.Startup.{
  AppCtx, Env, genesis_mismatch, main, default_prover, default_rpc, unwrap_or, genesis_path,
  ok_injective,
}

module _ ⦃http : Http⦄ ⦃j : Json⦄ ⦃y : Alloy⦄ where
  -- What the start gets from its surroundings: the variables that must be set, the prover service's
  -- answer, a client of L1, and the root that the contract holds.
  pub record Surroundings (env : Env) : Type 0 where
    pub told : InfoResponse
    pub private_key : Text
    pub address : Text
    pub l1 : L1Client
    pub on_chain : Hash
    pub answered : Prover.info (Prover.new (unwrap_or env.prover_svc_url default_prover)) ≡ ok told
    pub has_key : env.deployer_private_key ≡ some private_key
    pub has_address : env.rollup_address ≡ some address
    pub connected : L1.connect (unwrap_or env.l1_rpc_url default_rpc) private_key address ≡ ok l1
    pub read : L1.state_root l1 ≡ ok on_chain

  -- the context that the handlers get
  abbrev pub context : ⦃c : Crypto⦄ → (env : Env) → Surroundings env → State → AppCtx
  context env w initial = record {
    state = from_genesis initial;
    prover = Prover.new (unwrap_or env.prover_svc_url default_prover);
    l1 = w.l1;
    program_vkey = w.told.vkey;
    proof_mode = w.told.mode;
  }

module _ ⦃c : Crypto⦄ ⦃http : Http⦄ ⦃j : Json⦄ ⦃y : Alloy⦄ ⦃h : Hex⦄ ⦃f : Files⦄ where
  main_compared :
      (path : Text) (env : Env) (w : Surroundings env) (genesis : Genesis) (initial : State)
      → load path ≡ ok genesis
      → into_state genesis ≡ ok initial
      → main (some path) env ≡ (
          if bytes_eq w.on_chain (merkle_root initial)
          then ok (context env w initial)
          else err (genesis_mismatch (merkle_root initial) w.on_chain))
  unfolding main genesis_path
  main_compared path env w genesis initial p q =
      rw (p, q, w.answered, w.has_key, w.has_address, w.connected, w.read)
        (elim (Bool-cases (bytes_eq w.on_chain (merkle_root initial))) [
          | inl same ↦ rw same refl
          | inr other ↦ rw other refl
        ])

  root_bytes : (s : State) → IsLawful c → All (λ x. x < 256) (merkle_root s)
  unfolding merkle_root
  root_bytes s law = law.keccak_bytes _

  hex0x_injective :
      (a b : Hash)
      → IsLawfulHex h
      → All (λ x. x < 256) a
      → All (λ x. x < 256) b
      → hex0x a ≡ hex0x b
      → a ≡ b
  hex0x_injective a b law v w e =
      ok_injective _ _ (hex_to_bytes-hex0x a law v) (hex_to_bytes-hex0x b law w) (ap hex_to_bytes e)

  -- If `compute_root` prints a text for a file, the sequencer that starts on this file in
  -- surroundings which answer compares just that text: if it is the text of the root that the
  -- contract holds, then it starts, in the state of the genesis, whose root was printed; if not, it
  -- refuses to start and names the two roots. The root that L1 answers consists of bytes.
  pub compute_root-main :
      (path text : Text) (env : Env) (w : Surroundings env)
      → IsLawful c
      → IsLawfulHex h
      → All (λ x. x < 256) w.on_chain
      → compute_root (some path) ≡ ok text
      → (initial : State) × (text ≡ hex0x (merkle_root initial))
        × (((text ≡ hex0x w.on_chain) × (main (some path) env ≡ ok (context env w initial)))
            ⊎ ((text ≢ hex0x w.on_chain)
                × (main (some path) env ≡ err (genesis_mismatch (merkle_root initial) w.on_chain))))
  compute_root-main path text env w law hex bytes e =
      let (genesis, initial, p, q, shown) = compute_root_inv path text e in
      let compared = main_compared path env w genesis initial p q in
      let root = merkle_root initial in
      elim (Bool-cases (bytes_eq w.on_chain root)) [
        | inl same ↦ (
          initial,
          shown,
          inl (shown ∙ ap hex0x (sym (eq_of_bytes_eq w.on_chain root same)), rw same at compared),
        )
        | inr other ↦ (
          initial,
          shown,
          inr (
            λ told. cc (
              other,
              hex0x_injective w.on_chain root hex bytes (root_bytes initial law) (sym told ∙ shown),
              bytes_eq_refl w.on_chain,
            ),
            rw other at compared,
          ),
        )
      ]
