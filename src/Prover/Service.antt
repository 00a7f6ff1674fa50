-- ===== src/Prover/Service.antt =====
-- The handlers of crates/prover-svc/src/main.rs.
use zk_rollup.Base.{ℕ, Option, [], ◌∷◌, Bool, true, false, Result, ok, err, ◌>>=◌, map_err}
use zk_rollup.Types.Bytes.{Bytes}
use zk_rollup.Types.State.{State}
use zk_rollup.Types.Text.{Text, Hex, hex0x}
use zk_rollup.Types.Tx.{Batch}
use zk_rollup.Stf.{PublicValues}
use zk_rollup.Prover.{
  Abi, Sdk, ProofMode, mock, groth16, groth16_text, ScriptError, from_env, vkey_bytes32,
  execute_only, vkey_bytes32, from_env,
}
use zk_rollup.Prover

-- also the two values that a client posts
pub record WorkRequest : Type 0 where
  pub prev_state : State
  pub batch : Batch

pub record ExecuteResponse : Type 0 where
  pub public_values : Text
  pub prev_root : Text
  pub new_root : Text
  pub batch_hash : Text
  pub cycles : ℕ

pub record ProveResponse : Type 0 where
  pub proof : Text
  pub public_values : Text
  pub vkey : Text
  pub prev_root : Text
  pub new_root : Text
  pub batch_hash : Text

-- `internal` when the worker thread was dropped, `bad_request` with the script's error
pub data ApiError (E : Type 0) : Type 0 where
  internal : ApiError E
  bad_request : E → ApiError E

-- the status code of `into_response`
abbrev pub status : {E : Type 0} → ApiError E → ℕ
status internal = 500
status (bad_request _) = 400

-- The work runs on a thread of its own: its result comes back, or nothing if the thread died.
abbrev pub run_off_runtime : {A E : Type 0} → Bool → Result A E → Result A (ApiError E)
run_off_runtime false r = err internal
run_off_runtime true r = map_err bad_request r

-- the state of the service: the mode, and the verification key that `main` has computed
pub record AppState : Type 0 where
  pub mode : ProofMode
  pub vkey : Text

pub record InfoResponse : Type 0 where
  pub mode : Text
  pub vkey : Text

pub record VkeyResponse : Type 0 where
  pub vkey : Text

abbrev pub mock_text : Text
mock_text = b'm' ∷ b'o' ∷ b'c' ∷ b'k' ∷ []

unfoldable pub health : Text
health = b'o' ∷ b'k' ∷ []

unfoldable pub info : AppState → InfoResponse
info state = record {
  mode = elim state.mode [ mock ↦ mock_text | groth16 ↦ groth16_text ];
  vkey = state.vkey;
}

unfoldable pub vkey : AppState → VkeyResponse
vkey state = record { vkey = state.vkey }

module _ ⦃h : Hex⦄ where
  unfoldable pub pv_hex : PublicValues → Bytes → ExecuteResponse
  unfolding hex0x
  pv_hex pv bytes = record {
    public_values = hex0x bytes;
    prev_root = hex0x pv.prev_root;
    new_root = hex0x pv.new_root;
    batch_hash = hex0x pv.batch_hash;
    cycles = 0;
  }

module _ ⦃a : Abi⦄ ⦃d : Sdk⦄ ⦃h : Hex⦄ where
  unfoldable pub execute :
      Bool → WorkRequest → Result ExecuteResponse (ApiError (ScriptError d.SdkError))
  unfolding pv_hex
  execute alive req = do
    out ← run_off_runtime alive (execute_only req.prev_state req.batch)
    let resp = pv_hex out.public_values out.public_values_bytes
    ok (record resp { cycles = out.cycles })

  unfoldable pub prove :
      Bool → ProofMode → WorkRequest → Result ProveResponse (ApiError (ScriptError d.SdkError))
  unfolding hex0x
  prove alive mode req = do
    out ← run_off_runtime alive (Prover.prove req.prev_state req.batch mode)
    ok (record {
      proof = hex0x out.proof_bytes;
      public_values = hex0x out.public_values_bytes;
      vkey = out.vkey_bytes32;
      prev_root = hex0x out.public_values.prev_root;
      new_root = hex0x out.public_values.new_root;
      batch_hash = hex0x out.public_values.batch_hash;
    })

-- `main` up to the listener: the mode from PROOF_MODE, and the verification key
unfoldable pub start :
    ⦃a : Abi⦄ → ⦃d : Sdk⦄ → Option Text → Result AppState (ScriptError d.SdkError)
unfolding from_env vkey_bytes32
start proof_mode = do
  program_vkey ← vkey_bytes32
  ok (record { mode = from_env proof_mode; vkey = program_vkey })
