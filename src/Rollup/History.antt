-- ===== src/Rollup/History.antt =====
-- What the contract of contracts/src/Rollup.sol holds, whatever calls reach it: the root of a state
-- that a chain of batches has made of the genesis.
use zk_rollup.Base.{
  ℕ, ◌+◌, ◌%◌, ◌≡◌, ◌⊎◌, inl, inr, refl, sym, ◌∙◌, List, [], ◌∷◌, ok, err, some, All, Any, arith,
  Result-cases,
}
use zk_rollup.Types.Bytes.{Bytes, Hash, u64_mod}
use zk_rollup.Types.Address.{Address}
use zk_rollup.Types.Crypto.{Crypto, IsLawful}
use zk_rollup.Types.State.{State, merkle_root}
use zk_rollup.Types.State.Laws.{IsValid, total}
use zk_rollup.Types.State.Binding.{RootCollision, same_state}
use zk_rollup.Types.Tx.{Batch}
use zk_rollup.Types.Tx.Binding.{IsTx}
use zk_rollup.Stf.{ApplyOutput, apply_batch, PublicValues}
use zk_rollup.Stf.Run.{AllAccept-apply_batch}
use zk_rollup.Prover.{Abi, IsLawfulAbi, Stdin, program}
use zk_rollup.Prover.Honest.{values-HasHashes}
use zk_rollup.Rollup.{
  Verifier, Rollup, BatchSettled, Submission, decode_words, Revert, deploy, submit_batch,
  after_call, after_calls,
}
use zk_rollup.Rollup.Calls.{submit_batch-Advances, decode_words-append, advanced}
use zk_rollup.Rollup.Chain.{IsItem, Chain, start, settle, Chain-IsValid, Attests, Ran, program-Ran}

module _ ⦃c : Crypto⦄ ⦃a : Abi⦄ ⦃v : Verifier⦄ where
  -- What the verifier promises under the key of the program: a proof is accepted only with public
  -- values that some run of the program has committed.
  abbrev pub IsSound : Rollup → Type 0
  IsSound r =
      (call : Submission)
      → v.verify_proof r.verifier r.program_vkey call.public_values call.proof_bytes ≡ ok tt
      → (stdin : Stdin) × All IsItem stdin × (program stdin ≡ ok call.public_values)

  -- The genesis, and the states that the runs behind the calls with verified proofs read and leave.
  abbrev pub Attested : (r : Rollup) → IsSound r → State → List Submission → State → Type 0
  Attested r sound genesis calls t =
      (t ≡ genesis)
      ⊎ Any
          (λ call.
            (verified : v.verify_proof r.verifier r.program_vkey call.public_values call.proof_bytes
              ≡ ok tt)
            × Attests (sound call verified).0 t)
          calls

  -- What a contract and a state have to do with each other.
  pub record Holds (P : State → Type 0) (r : Rollup) (genesis : State) (later : Rollup)
      : Type 0 where
    pub at : State
    -- it is one of those that are named
    pub named : P at
    pub batches : ℕ
    pub chain : Chain genesis at batches
    pub valid : IsValid at
    pub supply : total at ≡ total genesis
    pub root : later.state_root ≡ merkle_root at
    pub count : later.batch_count ≡ batches % u64_mod
    pub same_key : later.program_vkey ≡ r.program_vkey
    pub same_verifier : later.verifier ≡ r.verifier

  advanced-Holds :
      (P : State → Type 0) (r s : Rollup) (genesis : State) (values : PublicValues) (b : Batch)
      (out : ApplyOutput) (h : Holds P r genesis s)
      → IsValid genesis
      → All IsTx b.txs
      → apply_batch h.at b ≡ ok out
      → values.new_root ≡ merkle_root out.new_state
      → P out.new_state
      → Holds P r genesis (advanced values s)
  advanced-Holds P r s genesis values b out h g txs applied p n =
      let chain = settle b out h.chain txs applied in
      let (valid, supply) = Chain-IsValid g chain in
      record {
        at = out.new_state;
        named = n;
        batches = h.batches + 1;
        chain = chain;
        valid = valid;
        supply = supply;
        root = p;
        count = omega (arith, h.count);
        same_key = h.same_key;
        same_verifier = h.same_verifier;
      }

  Ran-decoded :
      (bytes : Bytes) (values : PublicValues) (run : Ran bytes)
      → IsLawful c
      → IsLawfulAbi a
      → decode_words bytes ≡ some values
      → (values.prev_root ≡ merkle_root run.before)
        × (values.new_root ≡ merkle_root run.out.new_state)
  Ran-decoded bytes values run law abi e =
      let (_, left, shown) = AllAccept-apply_batch run.before run.run run.out run.applied in
      let sized = values-HasHashes run.before run.run run.out law run.applied in
      let read = decode_words-append run.out.public_values sized in
      let encoded = run.committed ∙ abi.abi_encode_words run.out.public_values sized in
      let same : values ≡ run.out.public_values = cc (e, read, encoded) in
      (cc (same, shown), cc (same, shown, left))

  after_call_ok :
      (call : Submission) (s t : Rollup) (event : BatchSettled)
      → submit_batch call s ≡ ok (event, t)
      → after_call call s ≡ t
  unfolding after_call
  after_call_ok call s t event p = ground arith

  after_call_err :
      (call : Submission) (s : Rollup) (e : Revert)
      → submit_batch call s ≡ err e
      → after_call call s ≡ s
  unfolding after_call
  after_call_err call s e p = ground arith

  after_call-Holds :
      (P : State → Type 0) (r s : Rollup) (genesis : State) (call : Submission)
      → IsLawful c
      → IsLawfulAbi a
      → (sound : IsSound r)
      → ((verified : v.verify_proof r.verifier r.program_vkey call.public_values call.proof_bytes
              ≡ ok tt)
            (t : State)
          → Attests (sound call verified).0 t
          → P t)
      → IsValid genesis
      → Holds P r genesis s
      → Holds P r genesis (after_call call s) ⊎ RootCollision P
  after_call-Holds P r s genesis call law abi sound n g h =
      elim (Result-cases (submit_batch call s)) [
        | inr (e, p) ↦ inl (rw (after_call_err call s e p) h)
        | inl ((event, t), p) ↦
            let (values, adv, moved, _) = submit_batch-Advances call s t event p in
            let verified : v.verify_proof r.verifier r.program_vkey call.public_values
                  call.proof_bytes
                ≡ ok tt =
              rw (sym h.same_key) (rw (sym h.same_verifier) adv.verified) in
            let stdin = (sound call verified).0 in
            let (run, read, left) =
              program-Ran stdin call.public_values (sound call verified).1
                (sound call verified).2 in
            let (prev, new) = Ran-decoded call.public_values values run law abi adv.decoded in
            elim (same_state P h.at run.before h.named (n verified _ read) h.valid.entries
              run.entries (sym h.root ∙ (sym adv.current ∙ prev))) [
                | inr collision ↦ inr collision
                | inl st ↦ inl (
                    rw (after_call_ok call s t event p) (
                      rw moved (
                        advanced-Holds P r s genesis values run.run run.out h g run.txs
                          (rw st run.applied) new (n verified _ left))))
              ]
      ]

  calls-Holds :
      (P : State → Type 0) (r s : Rollup) (genesis : State) (calls : List Submission)
      → IsLawful c
      → IsLawfulAbi a
      → (sound : IsSound r) → ((t : State) → Attested r sound genesis calls t → P t)
      → IsValid genesis
      → Holds P r genesis s
      → Holds P r genesis (after_calls calls s) ⊎ RootCollision P
  unfolding after_calls
  calls-Holds P r s genesis [] law abi sound n g h = inl h
  calls-Holds P r s genesis (call ∷ calls) law abi sound n g h =
      elim (after_call-Holds P r s genesis call law abi sound
        (λ verified t m. n t (inr (inl (verified, m)))) g h) [
          | inr collision ↦ inr collision
          | inl h' ↦
              calls-Holds P r (after_call call s) genesis calls law abi sound
                (λ t m. n t (elim m [ inl p ↦ inl p | inr q ↦ inr (inr q) ])) g h'
        ]

  deploy-Holds :
      (P : State → Type 0) (verifier : Address) (key : Hash) (genesis : State) (r : Rollup)
      → IsValid genesis
      → deploy verifier key (merkle_root genesis) ≡ ok r
      → P genesis
      → Holds P r genesis r
  unfolding deploy
  deploy-Holds P verifier key genesis r g e n =
      let root : r.state_root ≡ merkle_root genesis = ground arith in
      let count : r.batch_count ≡ 0 = ground arith in
      record {
        at = genesis;
        named = n;
        batches = 0;
        chain = start;
        valid = g;
        supply = refl;
        root = root;
        count = omega (arith, count);
        same_key = refl;
        same_verifier = refl;
      }

  -- Whatever calls of `submitBatch` reach a contract that was deployed with the root of a valid
  -- genesis, from whomever: it holds the root of a valid state that batches of well-formed
  -- transactions have made of the genesis, as many as it has counted modulo 2 ^ 64, and the balances
  -- in that state sum to what they did in the genesis; or else two states, of the genesis and those
  -- which the verified runs of just these calls read and leave, have different encodings with one
  -- hash. The verifier is assumed to accept only what a run of the program has committed.
  pub after_calls-Holds :
      (verifier : Address) (key : Hash) (genesis : State) (r : Rollup) (calls : List Submission)
      → IsLawful c
      → IsLawfulAbi a
      → IsValid genesis
      → deploy verifier key (merkle_root genesis) ≡ ok r
      → (sound : IsSound r)
      → let P = Attested r sound genesis calls in
        Holds P r genesis (after_calls calls r) ⊎ RootCollision P
  after_calls-Holds verifier key genesis r calls law abi g e sound =
      let P = Attested r sound genesis calls in
      calls-Holds P r r genesis calls law abi sound (λ t m. m) g
        (deploy-Holds P verifier key genesis r g e (inl refl))
