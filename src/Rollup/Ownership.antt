-- ===== src/Rollup/Ownership.antt =====
-- Whose money the contract of contracts/src/Rollup.sol can move: README.md promises that the
-- sequencer is not trusted with funds.
use zk_rollup.Base.{◌+◌, ◌%◌, ◌≡◌, ℕ, List, All}
use zk_rollup.Types.Address.{Address}
use zk_rollup.Types.Bytes.{u64_mod}
use zk_rollup.Types.Crypto.{Crypto}
use zk_rollup.Types.State.{State, get, merkle_root}
use zk_rollup.Types.State.Laws.{IsValid, total}
use zk_rollup.Types.Tx.{Tx}
use zk_rollup.Types.Tx.Binding.{IsTx}
use zk_rollup.Stf.Ledger.{outgoing, incoming, sent, IsSigned}
use zk_rollup.Stf.Run.{AllAccept, after}
use zk_rollup.Rollup.{Rollup}
use zk_rollup.Rollup.Chain.{Chain}

module _ ⦃c : Crypto⦄ where
  -- the transactions of all batches of a chain, as one list
  record Flat (genesis s : State) : Type 0 where
    txs : List Tx
    well_formed : All IsTx txs
    accepted : AllAccept txs genesis
    reached : s ≡ after txs genesis

  -- A root that stands for accounts which signed transactions alone have made of the genesis.
  pub record Owned (genesis : State) (later : Rollup) : Type 0 where
    pub at : State
    pub valid : IsValid at
    pub same_root : later.state_root ≡ merkle_root at
    pub supply : total at ≡ total genesis
    pub batches : ℕ
    pub counted : later.batch_count ≡ batches % u64_mod
    pub txs : List Tx
    -- each carries a signature from which the account that it debits is recovered
    pub signed : All IsSigned txs
    -- what an account has lost, it has signed away
    pub balances :
        (k : Address)
        → (get at k).balance + outgoing k txs ≡ (get genesis k).balance + incoming k txs
    pub nonces : (k : Address) → (get at k).nonce ≡ ((get genesis k).nonce + sent k txs) % u64_mod
