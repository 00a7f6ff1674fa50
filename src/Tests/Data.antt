-- ===== src/Tests/Data.antt =====
-- Accounts, transactions and states for the runs.
use zk_rollup.Base.{ℕ, [], ◌∷◌, ◌++◌, All, replicate, arith, refl}
use zk_rollup.Types.Address.{Address}
use zk_rollup.Types.Bytes.{cmp_bytes}
use zk_rollup.Types.Search.{Account}
use zk_rollup.Types.State.{State}
use zk_rollup.Types.State.Laws.{IsValid}
use zk_rollup.Types.Tx.{Tx, Batch}
use zk_rollup.Types.Tx.Binding.{IsTx}

abbrev pub address : ℕ → Address
address k = record { bytes = replicate 19 0 ++ k ∷ [] }

abbrev pub alice : Address
alice = address 1

abbrev pub bob : Address
bob = address 2

abbrev pub carol : Address
carol = address 3

abbrev pub funds : ℕ → ℕ → Account
funds balance nonce = record { balance = balance; nonce = nonce }

abbrev pub two_accounts : State
two_accounts = record { accounts = (alice, funds 1000 0) ∷ (bob, funds 50 3) ∷ [] }

-- signed by the key of `signer`
abbrev pub signed_tx : ℕ → ℕ → ℕ → ℕ → ℕ → Tx
signed_tx signer from to amount nonce = record {
  from = address from;
  to = address to;
  amount = amount;
  nonce = nonce;
  signature = signer ∷ replicate 63 0 ++ 27 ∷ [];
}

abbrev pub pay_100 : Tx
pay_100 = signed_tx 1 1 2 100 0

abbrev pub pay_200 : Tx
pay_200 = signed_tx 1 1 2 200 1

abbrev pub pay_carol : Tx
pay_carol = signed_tx 2 2 3 7 3

abbrev pub forged : Tx
forged = signed_tx 2 1 2 100 0

abbrev pub payments : Batch
payments = record { txs = pay_100 ∷ pay_200 ∷ [] }

pub two_accounts-IsValid : IsValid two_accounts
unfolding cmp_bytes
two_accounts-IsValid = record { ordered = ((refl, tt), (tt, tt)); entries = omega arith }

pub payments-IsTx : All IsTx payments.txs
payments-IsTx = omega arith
