-- ===== src/Clients/Restart.antt =====
-- A second start of `main` of crates/sequencer/src/main.rs, beside a contract that has settled batches.
use zk_rollup.Base.{◌<◌, ◌≡◌, ◌≢◌, refl, ap, ◌∙◌, arith, List, Option, ok}
use zk_rollup.Types.Bytes.{Hash, u64_mod}
use zk_rollup.Types.Crypto.{Crypto}
use zk_rollup.Types.State.{State, merkle_root}
use zk_rollup.Types.Text.{Text, Hex}
use zk_rollup.Types.Tx.{Tx}
use zk_rollup.Sequencer.{SequencerState, from_genesis, readmit}
use zk_rollup.Sequencer.Settlement.{readmit-SameCanonical}
use zk_rollup.Sequencer.Genesis.{Files}
use zk_rollup.Routes.Commit.{Settled}
use zk_rollup.Rollup
use zk_rollup.Rollup.{Verifier, BatchSettled, Submission, submit_batch}
use zk_rollup.Rollup.Calls.{submit_batch-Advances}
use zk_rollup.Clients.Http.{Http, Json}
use zk_rollup.Clients.L1
use zk_rollup.Clients.L1.{Alloy}
use zk_rollup.Clients.Startup.{AppCtx, Env, main, main_inv, ok_injective}

module _ ⦃c : Crypto⦄ ⦃v : Verifier⦄ ⦃http : Http⦄ ⦃j : Json⦄ ⦃y : Alloy⦄ ⦃h : Hex⦄
    ⦃f : Files⦄ where
  from_genesis_fresh :
      (t : State)
      → ((from_genesis t).batch_count ≡ 0) × ((from_genesis t).canonical_root ≡ merkle_root t)
  unfolding from_genesis
  from_genesis_fresh t = (refl, refl)

  -- If the sequencer starts beside a contract that has settled batches already, 64-bit many, with a
  -- genesis of the contract's present root, then the roots agree but it counts from 0: whenever the
  -- contract accepts a call and the sequencer settles its first batch, of whatever transactions were
  -- posted, the sequencer's number of batches is not the one that the contract counts and announces in its event.
  pub main_recounts :
      (path : Option Text) (env : Env) (ctx : AppCtx) (r t : Rollup.Rollup) (call : Submission)
      (event : BatchSettled) (posted : List Tx) (root : Hash) (next : SequencerState)
      → main path env ≡ ok ctx
      → L1.state_root ctx.l1 ≡ ok r.state_root
      → r.batch_count ≢ 0
      → r.batch_count < u64_mod
      → submit_batch call r ≡ ok (event, t)
      → Settled (readmit posted ctx.state) root next
      → (ctx.state.canonical_root ≡ r.state_root)
        × (next.batch_count ≡ 1)
        × (next.batch_count ≢ t.batch_count)
        × (next.batch_count ≢ event.batch_number)
  main_recounts path env ctx r t call event posted root next e answered some_batches bounded
        accepted settled =
      let (genesis, initial, _, _, started, asked, _) = main_inv path env ctx e in
      let (zero, same) = from_genesis_fresh initial in
      let begun : ctx.state.batch_count ≡ 0 =
        ap (λ (s : SequencerState). s.batch_count) started ∙ zero in
      let (values, _, moved, emitted) = submit_batch-Advances call r t event accepted in
      let kept = (readmit-SameCanonical posted ctx.state).same_count in
      let first : next.batch_count ≡ 1 = omega (arith, settled.counted, kept, begun) in
      let counted = ap (λ (s : Rollup.Rollup). s.batch_count) moved in
      let announced = ap (λ (s : BatchSettled). s.batch_number) emitted in
      (
        ap (λ (s : SequencerState). s.canonical_root) started
            ∙ (same ∙ ok_injective _ _ asked answered refl),
        first,
        λ p. omega (arith, first, counted, p, some_batches, bounded),
        λ p. omega (arith, first, announced, p, some_batches, bounded),
      )
