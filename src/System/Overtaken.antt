-- ===== src/System/Overtaken.antt =====
-- Of the calls of POST /batch of crates/sequencer/src/routes.rs that wait for L1, those that
-- contracts/src/Rollup.sol accepts.
use zk_rollup.Types.Address.{Address}
use zk_rollup.Types.Bytes.{Bytes}
use zk_rollup.Types.Crypto.{Crypto}
use zk_rollup.Types.State.{State}
use zk_rollup.Rollup.{Rollup}
use zk_rollup.System.{System}
use zk_rollup.System.Reach.{Reach}
