-- ===== src/Drivers/Script.antt =====
-- The binaries of crates/sp1-script/src/bin: execute.rs, prove.rs and vkey.rs.
use zk_rollup.Base.{◌≡◌, not, some, Result, ok, ◌>>=◌, ◌>>◌, map_err, fail_if, arith}
use zk_rollup.Types.Bytes.{bytes_eq}
use zk_rollup.Types.Order.{bytes_eq_refl}
use zk_rollup.Types.Crypto.{Crypto, IsLawful}
use zk_rollup.Types.State.{merkle_root}
use zk_rollup.Types.Text.{Text}
use zk_rollup.Types.Tx.{ok_or}
use zk_rollup.Stf.Run.{AllAccept-apply_batch}
use zk_rollup.Prover.{
  Abi, IsLawfulAbi, Sdk, ProofMode, mock, groth16, ScriptError, ExecuteOutput, ProveOutput,
  execute_only, vkey_bytes32,
}
use zk_rollup.Prover
use zk_rollup.Prover.Service.{WorkRequest}
use zk_rollup.Prover.Honest.{RunsProgram}
use zk_rollup.Prover.Executed.{execute_only-apply_batch}
use zk_rollup.Drivers.Wallet.{Signer}
use zk_rollup.Drivers.Requests.{execute_request, prove_request}

-- the argument `--mode`
pub data Mode : Type 0 where
  mock_mode groth16_mode : Mode

-- `impl From<Mode> for ProofMode`
unfoldable pub from_mode : Mode → ProofMode
from_mode mock_mode = mock
from_mode groth16_mode = groth16

pub data MainError (E : Type 0) : Type 0 where
  panicked : MainError E
  failed : E → MainError E

module _ ⦃c : Crypto⦄ ⦃k : Signer c⦄ ⦃a : Abi⦄ ⦃d : Sdk⦄ where
  -- `main` of execute.rs: what it prints, after it has compared the previous roots
  unfoldable pub execute_main : Result ExecuteOutput (MainError (ScriptError d.SdkError))
  execute_main = do
    req ← ok_or execute_request panicked
    let prev_root = merkle_root req.prev_state
    out ← map_err failed (execute_only req.prev_state req.batch)
    fail_if (not (bytes_eq out.public_values.prev_root prev_root)) panicked
    ok out

  -- `main` of prove.rs
  unfoldable pub prove_main : Mode → Result ProveOutput (MainError (ScriptError d.SdkError))
  unfolding from_mode
  prove_main mode = do
    req ← ok_or prove_request panicked
    map_err failed (Prover.prove req.prev_state req.batch (from_mode mode))

  -- The check at the end of execute.rs never fails: if the request can be signed and the program runs,
  -- the run's output is printed.
  pub execute_main-prints :
      (req : WorkRequest) (out : ExecuteOutput)
      → IsLawful c
      → IsLawfulAbi a
      → RunsProgram d
      → execute_request ≡ some req
      → execute_only req.prev_state req.batch ≡ ok out
      → execute_main ≡ ok out
  unfolding execute_main
  execute_main-prints req out law abi runs p e =
      let (ran, applied, same, _) =
        execute_only-apply_batch req.prev_state req.batch out law abi runs e in
      let (_, _, values) = AllAccept-apply_batch req.prev_state req.batch ran applied in
      let root : out.public_values.prev_root ≡ merkle_root req.prev_state = cc (same, values) in
      ground (arith, p, e, root, bytes_eq_refl (merkle_root req.prev_state))

-- `main` of vkey.rs: what it prints
unfoldable pub vkey_main : ⦃a : Abi⦄ → ⦃d : Sdk⦄ → Result Text (ScriptError d.SdkError)
unfolding vkey_bytes32
vkey_main = vkey_bytes32
