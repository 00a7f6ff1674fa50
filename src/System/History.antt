-- ===== src/System/History.antt =====
-- What the sequencer has committed in an execution of the system: crates/sequencer/src/routes.rs,
-- crates/sequencer/src/state.rs and contracts/src/Rollup.sol.
use zk_rollup.Base.{◌≡◌, List, [], ◌++◌}
use zk_rollup.Types.Address.{Address}
use zk_rollup.Types.Crypto.{Crypto}
use zk_rollup.Types.State.{State}
use zk_rollup.Types.Text.{Hex}
use zk_rollup.Types.Tx.{Tx}
use zk_rollup.Stf.Run.{AllAccept, after}
use zk_rollup.Prover.{Abi, Sdk}
use zk_rollup.Rollup.{Verifier, Rollup}
use zk_rollup.System.{System, Step}
use zk_rollup.System.Reach.{Reach, start, later, reached}

module _ ⦃c : Crypto⦄ ⦃h : Hex⦄ ⦃a : Abi⦄ ⦃d : Sdk⦄ ⦃v : Verifier⦄ where
  -- the transactions that a step commits, and those that an execution has committed, in order
  abbrev pub committed : {s t : System} → Step s t → List Tx
  committed (Step.commit xs ys batch root e) = batch.txs
  committed _ = []

  abbrev pub history : {init s : System} → Reach init s → List Tx
  history start = []
  history (later before roomy step) = history before ++ committed step

  -- a step runs what it commits on the canonical state
  pub record Runs (txs : List Tx) (s t : State) : Type 0 where
    pub accepted : AllAccept txs s
    pub reached : t ≡ after txs s
