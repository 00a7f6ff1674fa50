-- ===== src/System/Progress.antt =====
-- POST /batch of crates/sequencer/src/routes.rs goes through from every quiet state that an execution
-- reaches, whatever other calls wait.
use zk_rollup.Base.{◌≡◌, [], ◌∷◌}
use zk_rollup.Types.Address.{Address}
use zk_rollup.Types.Bytes.{Bytes, Hash}
use zk_rollup.Types.Crypto.{Crypto}
use zk_rollup.Types.State.{State}
use zk_rollup.Types.Text.{Hex}
use zk_rollup.Stf.{wrapping_add}
use zk_rollup.Stf.Run.{after}
use zk_rollup.Prover.{Abi, Sdk}
use zk_rollup.Prover.Service
use zk_rollup.Sequencer.{commit_batch}
use zk_rollup.Routes.Batches.{batch_of, drained}
use zk_rollup.Rollup.{Verifier, Rollup}
use zk_rollup.Rollup.Lockstep.{InStep}
use zk_rollup.System.{System, Call, proving, submitting}
use zk_rollup.System.Reach.{Reach}

module _ ⦃c : Crypto⦄ ⦃h : Hex⦄ ⦃a : Abi⦄ ⦃d : Sdk⦄ ⦃v : Verifier⦄ where
  -- the four states on the way of a batch
  abbrev began : System → System
  began s = record s {
    sequencer = drained s.sequencer;
    calls = proving s.sequencer.canonical_state (batch_of s.sequencer) ∷ s.calls;
  }

  abbrev attested : System → Bytes → Bytes → Hash → System
  attested s pv proof root = record s {
    sequencer = drained s.sequencer;
    calls = submitting s.sequencer.canonical_state (batch_of s.sequencer) pv proof root ∷ s.calls;
  }

  abbrev taken : System → Hash → Rollup → System
  taken s root next = record s {
    sequencer = drained s.sequencer;
    contract = next;
    settled = (batch_of s.sequencer, root) ∷ s.settled;
  }

  abbrev finished : System → Hash → Rollup → System
  finished s root next = record s {
    sequencer = (commit_batch (batch_of s.sequencer) root (drained s.sequencer)).1;
    contract = next;
  }

  -- a drained batch waits, first for its proof and then for L1
  abbrev waiting_for : System → Call → System
  waiting_for s call = record s { sequencer = drained s.sequencer; calls = call ∷ s.calls }

  -- The state to which the whole mempool of `s` is settled, with the other calls as they were.
  pub record SettlesAll (init s t : System) : Type 0 where
    pub reach : Reach init t
    pub calls : t.calls ≡ s.calls
    pub quiet : t.settled ≡ []
    pub canonical :
        t.sequencer.canonical_state ≡ after s.sequencer.mempool s.sequencer.canonical_state
    pub in_step : InStep t.contract t.sequencer
    pub counted : t.contract.batch_count ≡ wrapping_add s.contract.batch_count 1
