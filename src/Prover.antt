-- ===== src/Prover.antt =====
-- The zkVM program (crates/sp1-program-stf/src/main.rs), the host code around the SP1 SDK
-- (crates/sp1-script/src/lib.rs) and, below, the HTTP service on top (crates/prover-svc/src/main.rs).
-- The SDK and the ABI encoder are interfaces.
pub mod Service
pub mod Honest
pub mod Executed
use zk_rollup.Base.{
  ℕ, ◌+◌, ◌≡◌, List, [], ◌∷◌, ◌++◌, map, Option, none, some, Result, ok, err, ◌>>=◌, ◌>>◌, map_err,
  length, leb, ◌&&◌, ◌||◌, if◌then◌else◌,
}
use zk_rollup.Types.Bytes.{Bytes, bytes_eq}
use zk_rollup.Types.Crypto.{Crypto}
use zk_rollup.Types.State.{State}
use zk_rollup.Types.Text.{Text}
use zk_rollup.Types.Tx.{Batch, ok_or}
use zk_rollup.Stf.{PublicValues, ApplyOutput, apply_batch}
use zk_rollup.Stf.Monad.{StfError}

-- `PublicValuesStruct::abi_encode` and `abi_decode` of alloy_sol_types
pub record Abi : Type 0 where
  pub abi_encode : PublicValues → Bytes
  pub abi_decode : Bytes → Option PublicValues

abbrev pub HasHashes : PublicValues → Type 0
HasHashes pv = (length pv.prev_root ≡ 32) × (length pv.new_root ≡ 32) × (length pv.batch_hash ≡ 32)

-- What the ABI says of a tuple of three `bytes32`: the three words one after the other.
pub record IsLawfulAbi (a : Abi) : Type 0 where
  pub abi_encode_words :
      (pv : PublicValues)
      → HasHashes pv
      → a.abi_encode pv ≡ pv.prev_root ++ (pv.new_root ++ pv.batch_hash)
  pub abi_decode-abi_encode :
      (pv : PublicValues) → HasHashes pv → a.abi_decode (a.abi_encode pv) ≡ some pv

-- What the host writes to the program's standard input, value by value.
pub data Item : Type 0 where
  state : State → Item
  batch : Batch → Item

abbrev pub Stdin : Type 0
Stdin = List Item

-- Why the program panics: the input is not the two values that it reads, or the batch is refused.
pub data Panic : Type 0 where
  bad_input : Panic
  stf_rejected : StfError → Panic

unfoldable pub build_stdin : State → Batch → Stdin
build_stdin prev_state b = state prev_state ∷ batch b ∷ []

-- `SP1` SDK: the client's operations on the embedded program
pub record Sdk : Type 1 where
  pub SdkError : Type 0
  pub Proof : Type 0
  -- `client.execute(STF_ELF, stdin).run()`: the public values and the instruction count
  pub execute : Stdin → Result (Bytes × ℕ) SdkError
  -- `client.setup(STF_ELF)` and `verifying_key().bytes32()`
  pub setup : Result Text SdkError
  -- `client.prove(&pk, stdin).run()` and `.groth16().run()`
  pub prove : Stdin → Result Proof SdkError
  pub prove_groth16 : Stdin → Result Proof SdkError
  -- `proof.public_values.as_slice()` and `proof.bytes()`
  pub public_values : Proof → Bytes
  pub bytes : Proof → Bytes

pub data ProofMode : Type 0 where
  mock groth16 : ProofMode

-- `to_ascii_lowercase` on a code point
abbrev pub to_lower : ℕ → ℕ
to_lower x = if leb b'A' x && leb x b'Z' then x + 32 else x

abbrev pub groth16_text : Text
groth16_text = b'g' ∷ b'r' ∷ b'o' ∷ b't' ∷ b'h' ∷ b'1' ∷ b'6' ∷ []

abbrev pub real_text : Text
real_text = b'r' ∷ b'e' ∷ b'a' ∷ b'l' ∷ []

-- `ProofMode::from_env`, from the variable's value if it is set
unfoldable pub from_env : Option Text → ProofMode
from_env none = mock
from_env (some t) =
    let lower = map to_lower t in
    if bytes_eq lower groth16_text || bytes_eq lower real_text then groth16 else mock

pub record ExecuteOutput : Type 0 where
  pub public_values : PublicValues
  pub public_values_bytes : Bytes
  pub cycles : ℕ

pub record ProveOutput : Type 0 where
  pub proof_bytes : Bytes
  pub public_values : PublicValues
  pub public_values_bytes : Bytes
  pub vkey_bytes32 : Text

module _ ⦃c : Crypto⦄ ⦃a : Abi⦄ where
  -- `main` of the program: what it commits, or its panic
  unfoldable pub program : Stdin → Result Bytes Panic
  program (state prev_state ∷ batch b ∷ rest) = do
    out ← map_err stf_rejected (apply_batch prev_state b)
    ok (a.abi_encode out.public_values)
  program _ = err bad_input

-- the errors of sp1-script, each with what `anyhow!` prints
pub data ScriptError (E : Type 0) : Type 0 where
  setup_failed : E → ScriptError E
  execute_failed : E → ScriptError E
  prove_failed : E → ScriptError E
  decode_failed : ScriptError E

module _ ⦃a : Abi⦄ ⦃d : Sdk⦄ where
  unfoldable pub execute_only : State → Batch → Result ExecuteOutput (ScriptError d.SdkError)
  unfolding build_stdin
  execute_only prev_state b = do
    run ← map_err execute_failed (d.execute (build_stdin prev_state b))
    pv ← ok_or (a.abi_decode run.0) decode_failed
    ok (record { public_values = pv; public_values_bytes = run.0; cycles = run.1 })

  -- the two arms on the mode: the proof and the bytes to submit
  unfoldable pub prove_in_mode :
      ProofMode → Stdin → Result (d.Proof × Bytes) (ScriptError d.SdkError)
  prove_in_mode mock stdin = do proof ← map_err prove_failed (d.prove stdin); ok (proof, [])
  prove_in_mode groth16 stdin = do
    proof ← map_err prove_failed (d.prove_groth16 stdin)
    ok (proof, d.bytes proof)

  unfoldable pub prove : State → Batch → ProofMode → Result ProveOutput (ScriptError d.SdkError)
  unfolding build_stdin prove_in_mode
  prove prev_state b mode = do
    vkey ← map_err setup_failed d.setup
    proved ← prove_in_mode mode (build_stdin prev_state b)
    pv ← ok_or (a.abi_decode (d.public_values proved.0)) decode_failed
    ok (record {
      proof_bytes = proved.1;
      public_values = pv;
      public_values_bytes = d.public_values proved.0;
      vkey_bytes32 = vkey;
    })

  -- the verification key of the program, as the contract expects it
  unfoldable pub vkey_bytes32 : Result Text (ScriptError d.SdkError)
  vkey_bytes32 = map_err setup_failed d.setup
