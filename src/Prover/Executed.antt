-- ===== src/Prover/Executed.antt =====
-- POST /execute of crates/prover-svc/src/main.rs: the run without a proof, and its agreement with /prove.
use zk_rollup.Base.{ℕ, ◌≡◌, sym, Bool, some, ok, arith, map_err, map_err-eq-ok, >>=-eq-ok, ◌∙◌, ap}
use zk_rollup.Types.Bytes.{Bytes}
use zk_rollup.Types.Crypto.{Crypto, IsLawful}
use zk_rollup.Types.State.{State, merkle_root}
use zk_rollup.Types.Text.{Hex, hex0x}
use zk_rollup.Types.Tx.{Batch, batch_hash, ok_or}
use zk_rollup.Stf.{ApplyOutput, apply_batch}
use zk_rollup.Stf.Run.{AllAccept-apply_batch}
use zk_rollup.Prover
use zk_rollup.Prover.{Abi, IsLawfulAbi, Sdk, ProofMode, build_stdin, execute_only, ExecuteOutput}
use zk_rollup.Prover.Service
use zk_rollup.Prover.Service.{WorkRequest, ExecuteResponse, ProveResponse, run_off_runtime}
use zk_rollup.Prover.Honest.{
  RunsProgram, program-build_stdin, values-HasHashes, ok_or-eq-ok, run_off_runtime-eq-ok,
  serve-apply_batch,
}

module _ ⦃c : Crypto⦄ ⦃a : Abi⦄ ⦃d : Sdk⦄ where
  execute_only_inv :
      (s : State) (b : Batch) (res : ExecuteOutput)
      → execute_only s b ≡ ok res
      → (bytes : Bytes) × (cycles : ℕ) × (d.execute (build_stdin s b) ≡ ok (bytes, cycles))
        × (a.abi_decode bytes ≡ some res.public_values)
        × (res.public_values_bytes ≡ bytes)
  unfolding execute_only
  execute_only_inv s b res e =
      let (run, q, e1) =
        >>=-eq-ok (map_err Prover.execute_failed (d.execute (build_stdin s b))) _ e in
      let (pv, o, e2) = >>=-eq-ok (ok_or (a.abi_decode run.0) _) _ e1 in
      let ran = map_err-eq-ok _ (d.execute (build_stdin s b)) q in
      let found = ok_or-eq-ok (a.abi_decode run.0) _ o in
      (run.0, run.1, ran, ground (arith, found), ground arith)

  pub execute_only-apply_batch :
      (s : State) (b : Batch) (res : ExecuteOutput)
      → IsLawful c
      → IsLawfulAbi a
      → RunsProgram d
      → execute_only s b ≡ ok res
      → (out : ApplyOutput) × (apply_batch s b ≡ ok out)
        × (res.public_values ≡ out.public_values)
        × (res.public_values_bytes ≡ a.abi_encode out.public_values)
  execute_only-apply_batch s b res law abi r e =
      let (bytes, cycles, ran, decoded, shown) = execute_only_inv s b res e in
      let (out, applied, committed) =
        program-build_stdin s b bytes (r.execute_runs (build_stdin s b) bytes cycles ran) in
      let back =
        abi.abi_decode-abi_encode out.public_values (values-HasHashes s b out law applied) in
      (out, applied, ground (arith, decoded, committed, back), shown ∙ committed)

module _ ⦃c : Crypto⦄ ⦃a : Abi⦄ ⦃d : Sdk⦄ ⦃h : Hex⦄ where
  execute_inv :
      (alive : Bool) (req : WorkRequest) (resp : ExecuteResponse)
      → Service.execute alive req ≡ ok resp
      → (res : ExecuteOutput) × (execute_only req.prev_state req.batch ≡ ok res)
        × (resp.public_values ≡ hex0x res.public_values_bytes)
        × (resp.prev_root ≡ hex0x res.public_values.prev_root)
        × (resp.new_root ≡ hex0x res.public_values.new_root)
        × (resp.batch_hash ≡ hex0x res.public_values.batch_hash)
  unfolding Service.execute
  execute_inv alive req resp e =
      let run = execute_only req.prev_state req.batch in
      let (res, q, e1) = >>=-eq-ok (run_off_runtime alive run) _ e in
      (
        res,
        run_off_runtime-eq-ok alive run q,
        ground arith,
        ground arith,
        ground arith,
        ground arith,
      )

  -- what the service answers on /execute
  pub execute-apply_batch :
      (alive : Bool) (req : WorkRequest) (resp : ExecuteResponse)
      → IsLawful c
      → IsLawfulAbi a
      → RunsProgram d
      → Service.execute alive req ≡ ok resp
      → (out : ApplyOutput) × (apply_batch req.prev_state req.batch ≡ ok out)
        × (resp.public_values ≡ hex0x (a.abi_encode out.public_values))
        × (resp.prev_root ≡ hex0x (merkle_root req.prev_state))
        × (resp.new_root ≡ hex0x (merkle_root out.new_state))
        × (resp.batch_hash ≡ hex0x (batch_hash req.batch))
  execute-apply_batch alive req resp law abi r e =
      let (res, q, pv, pr, nr, bh) = execute_inv alive req resp e in
      let (out, applied, same, bytes) =
        execute_only-apply_batch req.prev_state req.batch res law abi r q in
      let (_, left, values) = AllAccept-apply_batch req.prev_state req.batch out applied in
      (
        out,
        applied,
        pv ∙ ap hex0x bytes,
        cc (pr, same, values),
        cc (nr, same, values, left),
        cc (bh, same, values),
      )

  -- On one request /execute and /prove, if both answer, show the same public values, roots and hash,
  -- in whichever mode the proof is made.
  pub execute-prove :
      (alive living : Bool) (mode : ProofMode) (req : WorkRequest) (ran : ExecuteResponse)
      (proved : ProveResponse)
      → IsLawful c
      → IsLawfulAbi a
      → RunsProgram d
      → Service.execute alive req ≡ ok ran
      → Service.prove living mode req ≡ ok proved
      → (ran.public_values ≡ proved.public_values)
        × (ran.prev_root ≡ proved.prev_root)
        × (ran.new_root ≡ proved.new_root)
        × (ran.batch_hash ≡ proved.batch_hash)
  execute-prove alive living mode req ran proved law abi r e f =
      let (out, p, pv, pr, nr, bh) = execute-apply_batch alive req ran law abi r e in
      let (out', p', pv', pr', nr', bh') = serve-apply_batch living mode req proved law abi r f in
      let same : out ≡ out' = cc (p, p') in
      (cc (pv, pv', same), pr ∙ sym pr', cc (nr, nr', same), bh ∙ sym bh')
