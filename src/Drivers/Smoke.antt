-- ===== src/Drivers/Smoke.antt =====
-- crates/prover-svc/src/bin/smoke.rs, against a service. What it prints and writes to files is left out,
-- but for the slice that panics on a text that is too short.
pub mod Wire
use zk_rollup.Base.{
  ◌≡◌, sym, Bool, false, not, ltb, some, Result, ok, ◌>>=◌, ◌>>◌, map_err, fail_if, length,
  length-append, ◌++◌, arith,
}
use zk_rollup.Types.Bytes.{bytes_eq}
use zk_rollup.Types.Order.{bytes_eq_refl}
use zk_rollup.Types.Crypto.{Crypto, IsLawful}
use zk_rollup.Types.State.{merkle_root}
use zk_rollup.Types.Text.{Text, Hex, IsLawfulHex, hex0x}
use zk_rollup.Types.Tx.{batch_hash, ok_or}
use zk_rollup.Stf.{PublicValues}
use zk_rollup.Prover.{Abi, IsLawfulAbi, HasHashes, Sdk, ProofMode}
use zk_rollup.Prover.Service
use zk_rollup.Prover.Service.{WorkRequest, ExecuteResponse, ProveResponse, ApiError}
use zk_rollup.Prover.Honest.{RunsProgram, serve-apply_batch, values-HasHashes}
use zk_rollup.Prover.Executed.{execute-apply_batch, execute-prove}
use zk_rollup.Drivers.Wallet.{Signer}
use zk_rollup.Drivers.Requests.{smoke_request}

pub data SmokeError (E : Type 0) : Type 0 where
  panicked : SmokeError E
  failed : E → SmokeError E
  -- got, expected
  prev_root_mismatch : Text → Text → SmokeError E
  batch_hash_mismatch : Text → Text → SmokeError E
  prove_prev_root_mismatch : SmokeError E
  prove_batch_hash_mismatch : SmokeError E
  new_root_mismatch : Text → Text → SmokeError E

-- `!=` on two strings
abbrev pub differ : Text → Text → Bool
differ s t = not (bytes_eq s t)

module _ ⦃c : Crypto⦄ ⦃k : Signer c⦄ ⦃h : Hex⦄ {E : Type 0} where
  -- `main`, with what the service answers on /execute and on /prove
  unfoldable pub smoke :
      (WorkRequest → Result ExecuteResponse E)
      → (WorkRequest → Result ProveResponse E)
      → Result (Unit {0}) (SmokeError E)
  smoke execute prove = do
    payload ← ok_or smoke_request panicked
    let prev_root_hex = hex0x (merkle_root payload.prev_state)
    let batch_hash_hex = hex0x (batch_hash payload.batch)
    exec ← map_err failed (execute payload)
    fail_if (differ exec.prev_root prev_root_hex) (prev_root_mismatch exec.prev_root prev_root_hex)
    fail_if (differ exec.batch_hash batch_hash_hex)
        (batch_hash_mismatch exec.batch_hash batch_hash_hex)
    proved ← map_err failed (prove payload)
    fail_if (ltb (length proved.public_values) 18) panicked
    fail_if (differ proved.prev_root prev_root_hex) prove_prev_root_mismatch
    fail_if (differ proved.batch_hash batch_hash_hex) prove_batch_hash_mismatch
    fail_if (differ proved.new_root exec.new_root) (new_root_mismatch exec.new_root proved.new_root)
    ok tt

  smoke_steps :
      (execute : WorkRequest → Result ExecuteResponse E)
      (prove : WorkRequest → Result ProveResponse E) (req : WorkRequest) (ran : ExecuteResponse)
      (proved : ProveResponse)
      → smoke_request ≡ some req
      → execute req ≡ ok ran
      → prove req ≡ ok proved
      → ran.prev_root ≡ hex0x (merkle_root req.prev_state)
      → ran.batch_hash ≡ hex0x (batch_hash req.batch)
      → ltb (length proved.public_values) 18 ≡ false
      → proved.prev_root ≡ hex0x (merkle_root req.prev_state)
      → proved.batch_hash ≡ hex0x (batch_hash req.batch)
      → proved.new_root ≡ ran.new_root
      → smoke execute prove ≡ ok tt
  unfolding smoke
  smoke_steps execute prove req ran proved p e f r1 r2 n r3 r4 r5 = ground (
    arith,
    p,
    e,
    f,
    n,
    r1,
    r2,
    r3,
    r4,
    r5,
    bytes_eq_refl (hex0x (merkle_root req.prev_state)),
    bytes_eq_refl (hex0x (batch_hash req.batch)),
    bytes_eq_refl ran.new_root,
  )

-- the text of encoded public values has 194 characters
shown_length :
    ⦃h : Hex⦄
    → ⦃a : Abi⦄ → (pv : PublicValues) → IsLawfulHex h
    → IsLawfulAbi a
    → HasHashes pv
    → ltb (length (hex0x (a.abi_encode pv))) 18 ≡ false
unfolding hex0x
shown_length ⦃a = a⦄ pv hex abi n = ground (
  arith,
  abi.abi_encode_words pv n,
  hex.encode_length (pv.prev_root ++ (pv.new_root ++ pv.batch_hash)),
  length-append pv.prev_root (pv.new_root ++ pv.batch_hash),
  length-append pv.new_root pv.batch_hash,
  n.0,
  n.1,
  n.2,
)

module _ ⦃c : Crypto⦄ ⦃k : Signer c⦄ ⦃h : Hex⦄ ⦃a : Abi⦄ ⦃d : Sdk⦄ where
  -- on the service's answers, however they are brought to it
  pub smoke_passes :
      {E : Type 0} (execute : WorkRequest → Result ExecuteResponse E)
      (prove : WorkRequest → Result ProveResponse E) (alive living : Bool) (mode : ProofMode)
      (req : WorkRequest) (ran : ExecuteResponse) (proved : ProveResponse)
      → IsLawful c
      → IsLawfulHex h
      → IsLawfulAbi a
      → RunsProgram d
      → smoke_request ≡ some req
      → Service.execute alive req ≡ ok ran
      → Service.prove living mode req ≡ ok proved
      → execute req ≡ ok ran
      → prove req ≡ ok proved
      → smoke execute prove ≡ ok tt
  smoke_passes execute prove alive living mode req ran proved law hex abi runs p e f e' f' =
      let (_, _, _, pr, _, bh) = execute-apply_batch alive req ran law abi runs e in
      let (out, applied, pv, pr', _, bh') =
        serve-apply_batch living mode req proved law abi runs f in
      let (_, _, nr, _) = execute-prove alive living mode req ran proved law abi runs e f in
      smoke_steps execute prove req ran proved p e' f' pr bh
        (rw pv (
          shown_length out.public_values hex abi
            (values-HasHashes req.prev_state req.batch out law applied)))
        pr' bh' (sym nr)
