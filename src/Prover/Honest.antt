-- ===== src/Prover/Honest.antt =====
-- From the zkVM program through the host code to the service's answer: what a proof attests is the
-- run of `apply_batch` on the posted state and batch.
use zk_rollup.Base.{
  ℕ, ◌≡◌, Bool, true, false, none, some, Result, ok, err, arith, Result-cases, Option, map_err,
  >>=-eq-ok, inl, inr, ◌∙◌, ap,
}
use zk_rollup.Types.Bytes.{Bytes}
use zk_rollup.Types.Crypto.{Crypto, IsLawful}
use zk_rollup.Types.State.{State, merkle_root}
use zk_rollup.Types.Text.{Hex, hex0x}
use zk_rollup.Types.Tx.{Batch, batch_hash, ok_or}
use zk_rollup.Stf.{ApplyOutput, apply_batch}
use zk_rollup.Stf.Run.{AllAccept-apply_batch, values_of}
use zk_rollup.Prover
use zk_rollup.Prover.{
  Abi, IsLawfulAbi, HasHashes, Sdk, Stdin, ProofMode, mock, groth16, build_stdin, program,
  prove_in_mode, execute_only, ProveOutput, ExecuteOutput,
}
use zk_rollup.Prover.Service
use zk_rollup.Prover.Service.{WorkRequest, ProveResponse, run_off_runtime}

module _ ⦃c : Crypto⦄ ⦃a : Abi⦄ where
  pub values-HasHashes :
      (s : State) (b : Batch) (out : ApplyOutput)
      → IsLawful c
      → apply_batch s b ≡ ok out
      → HasHashes out.public_values
  values-HasHashes s b out law e =
      let (_, _, v) = AllAccept-apply_batch s b out e in rw v (hashes law)
    where
      hashes : IsLawful c → HasHashes (values_of b.txs s)
      hashes law =
          unfold merkle_root batch_hash in
          (law.keccak_length _, law.keccak_length _, law.keccak_length _)

  -- what the program commits on the standard input that the host builds
  pub program-build_stdin :
      (s : State) (b : Batch) (bytes : Bytes)
      → program (build_stdin s b) ≡ ok bytes
      → (out : ApplyOutput) × (apply_batch s b ≡ ok out) × (bytes ≡ a.abi_encode out.public_values)
  unfolding program build_stdin
  program-build_stdin s b bytes e = elim (Result-cases (apply_batch s b)) [
    | inl (out, p) ↦ (out, p, ground arith)
    | inr (d, p) ↦ absurd (ground arith)
  ]

  -- What the SDK documents: executing and proving run the program on the given input, and the public
  -- values of a run are what the program commits.
  pub record RunsProgram (d : Sdk) : Type 0 where
    pub execute_runs :
        (stdin : Stdin) (bytes : Bytes) (cycles : ℕ)
        → d.execute stdin ≡ ok (bytes, cycles)
        → program stdin ≡ ok bytes
    pub prove_runs :
        (stdin : Stdin) (p : d.Proof)
        → d.prove stdin ≡ ok p
        → program stdin ≡ ok (d.public_values p)
    pub prove_groth16_runs :
        (stdin : Stdin) (p : d.Proof)
        → d.prove_groth16 stdin ≡ ok p
        → program stdin ≡ ok (d.public_values p)

module _ ⦃c : Crypto⦄ ⦃a : Abi⦄ ⦃d : Sdk⦄ where
  prove_in_mode_runs :
      (mode : ProofMode) (stdin : Stdin) (p : d.Proof) (bytes : Bytes)
      → RunsProgram d
      → prove_in_mode mode stdin ≡ ok (p, bytes)
      → program stdin ≡ ok (d.public_values p)
  unfolding prove_in_mode
  prove_in_mode_runs mock stdin p bytes r e = elim (Result-cases (d.prove stdin)) [
    | inl (q, h) ↦ r.prove_runs stdin p (ground arith)
    | inr (x, h) ↦ absurd (ground arith)
  ]
  prove_in_mode_runs groth16 stdin p bytes r e = elim (Result-cases (d.prove_groth16 stdin)) [
    | inl (q, h) ↦ r.prove_groth16_runs stdin p (ground arith)
    | inr (x, h) ↦ absurd (ground arith)
  ]

  pub ok_or-eq-ok : {A E : Type 0} (o : Option A) (x : E) {y : A} → ok_or o x ≡ ok y → o ≡ some y
  ok_or-eq-ok none x e = cc
  ok_or-eq-ok (some y) x e = cc

  -- the three steps of a `prove` that succeeds
  prove_inv :
      (s : State) (b : Batch) (mode : ProofMode) (res : ProveOutput)
      → Prover.prove s b mode ≡ ok res
      → (p : d.Proof) × (bytes : Bytes) × (prove_in_mode mode (build_stdin s b) ≡ ok (p, bytes))
        × (a.abi_decode (d.public_values p) ≡ some res.public_values)
        × (res.public_values_bytes ≡ d.public_values p)
        × (res.proof_bytes ≡ bytes)
  unfolding Prover.prove
  prove_inv s b mode res e =
      let (vkey, _, e1) = >>=-eq-ok (map_err Prover.setup_failed d.setup) _ e in
      let (proved, q, e2) = >>=-eq-ok (prove_in_mode mode (build_stdin s b)) _ e1 in
      let (pv, o, e3) = >>=-eq-ok (ok_or (a.abi_decode (d.public_values proved.0)) _) _ e2 in
      let found = ok_or-eq-ok (a.abi_decode (d.public_values proved.0)) _ o in
      (proved.0, proved.1, q, ground (arith, found), ground arith, ground arith)

  -- What `prove` returns attests the run of `apply_batch` on its arguments: the decoded public values
  -- are those of the run, and the bytes are their ABI encoding.
  pub prove-apply_batch :
      (s : State) (b : Batch) (mode : ProofMode) (res : ProveOutput)
      → IsLawful c
      → IsLawfulAbi a
      → RunsProgram d
      → Prover.prove s b mode ≡ ok res
      → (out : ApplyOutput) × (apply_batch s b ≡ ok out)
        × (res.public_values ≡ out.public_values)
        × (res.public_values_bytes ≡ a.abi_encode out.public_values)
  prove-apply_batch s b mode res law abi r e =
      let (p, bytes, in_mode, decoded, shown, submitted) = prove_inv s b mode res e in
      let ran = prove_in_mode_runs mode (build_stdin s b) p bytes r in_mode in
      let (out, applied, committed) = program-build_stdin s b (d.public_values p) ran in
      let back =
        abi.abi_decode-abi_encode out.public_values (values-HasHashes s b out law applied) in
      (out, applied, ground (arith, decoded, committed, back), shown ∙ committed)

pub run_off_runtime-eq-ok :
    {A E : Type 0} (alive : Bool) (r : Result A E) {x : A}
    → run_off_runtime alive r ≡ ok x
    → r ≡ ok x
run_off_runtime-eq-ok true (ok y) e = cc
run_off_runtime-eq-ok true (err y) e = cc
run_off_runtime-eq-ok false r e = cc

module _ ⦃c : Crypto⦄ ⦃a : Abi⦄ ⦃d : Sdk⦄ ⦃h : Hex⦄ where
  -- what a /prove that succeeds copies into its answer
  serve_inv :
      (alive : Bool) (mode : ProofMode) (req : WorkRequest) (resp : ProveResponse)
      → Service.prove alive mode req ≡ ok resp
      → (res : ProveOutput) × (Prover.prove req.prev_state req.batch mode ≡ ok res)
        × (resp.public_values ≡ hex0x res.public_values_bytes)
        × (resp.prev_root ≡ hex0x res.public_values.prev_root)
        × (resp.new_root ≡ hex0x res.public_values.new_root)
        × (resp.batch_hash ≡ hex0x res.public_values.batch_hash)
  unfolding Service.prove
  serve_inv alive mode req resp e =
      let run = Prover.prove req.prev_state req.batch mode in
      let (res, q, e1) = >>=-eq-ok (run_off_runtime alive run) _ e in
      (
        res,
        run_off_runtime-eq-ok alive run q,
        ground arith,
        ground arith,
        ground arith,
        ground arith,
      )

  -- What the service answers on /prove attests the run of `apply_batch` on the posted state and batch,
  -- in its public values and in the roots and the hash that it shows beside them.
  pub serve-apply_batch :
      (alive : Bool) (mode : ProofMode) (req : WorkRequest) (resp : ProveResponse)
      → IsLawful c
      → IsLawfulAbi a
      → RunsProgram d
      → Service.prove alive mode req ≡ ok resp
      → (out : ApplyOutput) × (apply_batch req.prev_state req.batch ≡ ok out)
        × (resp.public_values ≡ hex0x (a.abi_encode out.public_values))
        × (resp.prev_root ≡ hex0x (merkle_root req.prev_state))
        × (resp.new_root ≡ hex0x (merkle_root out.new_state))
        × (resp.batch_hash ≡ hex0x (batch_hash req.batch))
  serve-apply_batch alive mode req resp law abi r e =
      let (res, q, pv, pr, nr, bh) = serve_inv alive mode req resp e in
      let (out, applied, same, bytes) =
        prove-apply_batch req.prev_state req.batch mode res law abi r q in
      let (_, left, values) = AllAccept-apply_batch req.prev_state req.batch out applied in
      (
        out,
        applied,
        pv ∙ ap hex0x bytes,
        cc (pr, same, values),
        cc (nr, same, values, left),
        cc (bh, same, values),
      )
