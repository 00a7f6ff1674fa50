-- ===== src/Tests/Startup.antt =====
-- The start of the sequencer at a concrete environment.
use zk_rollup.Tests.Stf.{paid}
use zk_rollup.Clients.Restart.{main_recounts}
use zk_rollup.Clients.Deploy.{Surroundings, context, compute_root-main}
use zk_rollup.Rollup.Calls.{announced, advanced}
use zk_rollup.Routes.Commit.{commit_batch-Settled}
use zk_rollup.Routes.Batches.{batch_of, drained}
use zk_rollup.Sequencer.Genesis.ComputeRoot.{compute_root}
use zk_rollup.Base.{◌≡◌, refl, [], ◌∷◌, ok, none, some, ◌≢◌, ◌⊎◌, arith, err, All, ◌<◌}
use zk_rollup.Types.Order.{bytes_eq_refl}
use zk_rollup.Types.State.{State, merkle_root}
use zk_rollup.Types.Text.{strip_0x, hex0x}
use zk_rollup.Sequencer.{from_genesis, SequencerState, readmit, commit_batch}
use zk_rollup.Sequencer.Consistency.{IsConsistent, readmit-IsConsistent, from_genesis-IsConsistent}
use zk_rollup.Sequencer.Genesis.{Files, Genesis, load, into_state}
use zk_rollup.Rollup.Lockstep.{InStep}
use zk_rollup.Clients.Prover
use zk_rollup.Clients.L1
use zk_rollup.Clients.Server.{get_info}
use zk_rollup.Prover.Service
use zk_rollup.Clients.Startup.{
  Env, AppCtx, main, default_prover, default_rpc, genesis_path, main-InStep, genesis_mismatch,
}
use zk_rollup.Tests.Crates.{crypto, hex, crypto-IsLawful, hex-IsLawfulHex}
use zk_rollup.Tests.Json.{json}
use zk_rollup.Tests.Clients.{http, alloy}
use zk_rollup.Tests.Data.{address, two_accounts, payments}
use zk_rollup.Tests.Rollup.{deployed, beside, beside_run, first_call, verifier}
use zk_rollup.Tests.Sequencer.{genesis, load_genesis}

abbrev env : Env
env = record {
  genesis_path = none;
  prover_svc_url = none;
  l1_rpc_url = none;
  deployer_private_key = some (b'k' ∷ []);
  rollup_address = some (b'r' ∷ []);
}

-- every path leads to one file
instance abbrev files : Files
files = record {
  IoError = Unit {0};
  JsonError = Unit {0};
  read = λ path. ok [];
  from_slice = λ bytes. ok genesis;
}

abbrev pub ctx : AppCtx
ctx = record {
  state = from_genesis two_accounts;
  prover = record { base = default_prover };
  l1 = record { rollup_address = address 8; rpc_url = default_rpc; wallet = b'k' ∷ [] };
  program_vkey = b'v' ∷ b'k' ∷ [];
  proof_mode = b'm' ∷ b'o' ∷ b'c' ∷ b'k' ∷ [];
}

l1_root : L1.state_root ctx.l1 ≡ ok (merkle_root two_accounts)
unfolding L1.state_root
l1_root = refl

starts : main none env ≡ ok ctx
unfolding main load Prover.new Prover.info get_info Service.info L1.connect L1.state_root strip_0x
starts = rw (load_genesis, bytes_eq_refl (merkle_root two_accounts)) refl

told :
    Prover.info (Prover.new default_prover)
    ≡ ok (record { mode = ctx.proof_mode; vkey = ctx.program_vkey })
unfolding Prover.new Prover.info get_info Service.info
told = refl

connected : L1.connect default_rpc (b'k' ∷ []) (b'r' ∷ []) ≡ ok ctx.l1
unfolding L1.connect strip_0x
connected = refl

main-InStep_example :
    (g : Genesis) × (initial : State) × (load (genesis_path none env) ≡ ok g)
    × (into_state g ≡ ok initial)
    × (ctx.state ≡ from_genesis initial)
    × (L1.state_root ctx.l1 ≡ ok (merkle_root initial))
    × (Prover.info ctx.prover ≡ ok (record { mode = ctx.proof_mode; vkey = ctx.program_vkey }))
    × IsConsistent ctx.state
    × InStep deployed ctx.state
main-InStep_example = main-InStep none env ctx deployed starts l1_root refl

abbrev surroundings : Surroundings env
surroundings = record {
  told = record { mode = ctx.proof_mode; vkey = ctx.program_vkey };
  private_key = b'k' ∷ [];
  address = b'r' ∷ [];
  l1 = ctx.l1;
  on_chain = merkle_root two_accounts;
  answered = told;
  has_key = refl;
  has_address = refl;
  connected = connected;
  read = l1_root;
}

printed : compute_root (some []) ≡ ok (hex0x (merkle_root two_accounts))
unfolding compute_root into_state
printed = rw load_genesis refl

root_bytes : All (λ x. x < 256) (merkle_root two_accounts)
unfolding merkle_root
root_bytes = crypto-IsLawful.keccak_bytes _

compute_root-main_example :
    let text = hex0x (merkle_root two_accounts) in
    let on_chain = merkle_root two_accounts in
    (initial : State) × (text ≡ hex0x (merkle_root initial))
    × (((text ≡ hex0x on_chain) × (main (some []) env ≡ ok (context env surroundings initial)))
        ⊎ ((text ≢ hex0x on_chain)
            × (main (some []) env ≡ err (genesis_mismatch (merkle_root initial) on_chain))))
compute_root-main_example =
    compute_root-main [] (hex0x (merkle_root two_accounts)) env surroundings crypto-IsLawful
      hex-IsLawfulHex root_bytes printed

-- the contract that has settled batches before the sequencer starts
abbrev resumed : SequencerState
resumed = readmit payments.txs ctx.state

resumed-IsConsistent : IsConsistent resumed
resumed-IsConsistent =
    readmit-IsConsistent payments.txs ctx.state (from_genesis-IsConsistent two_accounts)

abbrev recommitted : SequencerState
recommitted =
    readmit []
      (commit_batch (batch_of resumed) (merkle_root resumed.speculative_state)
        (readmit [] (drained resumed))).1

main_recounts_example :
    (ctx.state.canonical_root ≡ beside.state_root)
    × (recommitted.batch_count ≡ 1)
    × (recommitted.batch_count ≢ (advanced paid.public_values beside).batch_count)
    × (recommitted.batch_count ≢ (announced paid.public_values beside).batch_number)
main_recounts_example =
    main_recounts none env ctx beside (advanced paid.public_values beside) first_call
      (announced paid.public_values beside) payments.txs (merkle_root resumed.speculative_state)
      recommitted starts l1_root (λ p. omega (arith, p)) (omega arith) beside_run
      (commit_batch-Settled resumed [] [] resumed-IsConsistent).1
