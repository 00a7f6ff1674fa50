-- ===== src/Stf/Ledger.antt =====
-- The accounts after a run of accepted transfers, counted from the transactions alone.
use zk_rollup.Base.{
  ℕ, length, ◌≤◌, ◌+◌, ◌%◌, ◌≡◌, refl, ok, List, [], ◌∷◌, arith, if◌then◌else◌, All, ◌∙◌,
}
use zk_rollup.Types.Address.{Address, addr_eq, addr_eq_refl, eq_of_addr_eq}
use zk_rollup.Types.Bytes.{u64_mod}
use zk_rollup.Types.Crypto.{Crypto}
use zk_rollup.Types.Search.Locate.{IsOrdered}
use zk_rollup.Types.State.{State, get}
use zk_rollup.Types.State.Laws.{IsValid, total, get_bounds}
use zk_rollup.Types.Tx.{Tx, recover_address, signing_hash}
use zk_rollup.Types.Tx.Binding.{IsTx}
use zk_rollup.Stf.Transfer.{Accepts, transferred}
use zk_rollup.Stf.Effect.{
  get-transferred, transferred-IsOrdered, transferred-IsValid, total-transferred,
}
use zk_rollup.Stf.Run.{AllAccept, after}

-- what `k` sends and receives in a list of transactions, and how many of them it signs
pub outgoing : Address → List Tx → ℕ
outgoing k [] = 0
outgoing k (tx ∷ txs) = (if addr_eq k tx.from then tx.amount else 0) + outgoing k txs

pub incoming : Address → List Tx → ℕ
incoming k [] = 0
incoming k (tx ∷ txs) = (if addr_eq k tx.to then tx.amount else 0) + incoming k txs

pub sent : Address → List Tx → ℕ
sent k [] = 0
sent k (tx ∷ txs) = (if addr_eq k tx.from then 1 else 0) + sent k txs

pub sent_le_length : (k : Address) (txs : List Tx) → sent k txs ≤ length txs
unfolding sent
sent_le_length k [] = omega arith
sent_le_length k (tx ∷ txs) = ground (arith, sent_le_length k txs)

-- whoever signs the first transaction has sent one
pub sent-cons_self : (tx : Tx) (txs : List Tx) → 1 ≤ sent tx.from (tx ∷ txs)
unfolding sent
sent-cons_self tx txs = ground (arith, addr_eq_refl tx.from)

module _ ⦃c : Crypto⦄ where
  balance-transferred :
      (s : State) (tx : Tx) (k : Address)
      → IsOrdered s.accounts
      → Accepts s tx
      → (get (transferred s tx) k).balance + (if addr_eq k tx.from then tx.amount else 0)
        ≡ (get s k).balance + (if addr_eq k tx.to then tx.amount else 0)
  balance-transferred s tx k h a = ground (
    arith,
    get-transferred s tx k h,
    eq_of_addr_eq k tx.from,
    eq_of_addr_eq k tx.to,
    a.distinct,
    a.funded,
  )

  -- Of every account: what it held and received is what it holds and sent.
  pub balance-after :
      (txs : List Tx) (s : State) (k : Address)
      → IsOrdered s.accounts
      → AllAccept txs s
      → (get (after txs s) k).balance + outgoing k txs ≡ (get s k).balance + incoming k txs
  unfolding outgoing incoming
  balance-after [] s k h a = refl
  balance-after (tx ∷ txs) s k h a = omega (
    arith,
    balance-transferred s tx k h a.0,
    balance-after txs (transferred s tx) k (transferred-IsOrdered s tx h) a.1,
  )

  nonce-transferred :
      (s : State) (tx : Tx) (k : Address)
      → IsValid s
      → Accepts s tx
      → (get (transferred s tx) k).nonce
        ≡ ((get s k).nonce + (if addr_eq k tx.from then 1 else 0)) % u64_mod
  nonce-transferred s tx k v a = ground (
    arith,
    get-transferred s tx k v.ordered,
    eq_of_addr_eq k tx.from,
    eq_of_addr_eq k tx.to,
    a.distinct,
    (get_bounds s k v).1,
  )

  -- Every nonce has grown by the number of transactions that the account has signed, modulo 2 ^ 64.
  pub nonce-after :
      (txs : List Tx) (s : State) (k : Address)
      → IsValid s
      → All IsTx txs
      → AllAccept txs s
      → (get (after txs s) k).nonce ≡ ((get s k).nonce + sent k txs) % u64_mod
  unfolding sent
  nonce-after [] s k v t a = omega (arith, (get_bounds s k v).1)
  nonce-after (tx ∷ txs) s k v t a = omega (
    arith,
    nonce-transferred s tx k v a.0,
    nonce-after txs (transferred s tx) k (transferred-IsValid s tx v t.0 a.0) t.1 a.1,
  )

  pub total-after :
      (txs : List Tx) (s : State)
      → IsOrdered s.accounts
      → AllAccept txs s
      → total (after txs s) ≡ total s
  total-after [] s h a = refl
  total-after (tx ∷ txs) s h a =
      total-after txs (transferred s tx) (transferred-IsOrdered s tx h) a.1
      ∙ total-transferred s tx h a.0

  pub after-IsValid :
      (txs : List Tx) (s : State)
      → IsValid s
      → All IsTx txs
      → AllAccept txs s
      → IsValid (after txs s)
  after-IsValid [] s v t a = v
  after-IsValid (tx ∷ txs) s v t a =
      after-IsValid txs (transferred s tx) (transferred-IsValid s tx v t.0 a.0) t.1 a.1

  -- each transaction is signed by the account that it debits
  pub IsSigned : Tx → Type 0
  IsSigned tx = recover_address (signing_hash tx) tx.signature ≡ ok tx.from

  pub AllAccept-IsSigned : (txs : List Tx) (s : State) → AllAccept txs s → All IsSigned txs
  unfolding IsSigned
  AllAccept-IsSigned [] s a = tt
  AllAccept-IsSigned (tx ∷ txs) s a = (a.0.signed, AllAccept-IsSigned txs (transferred s tx) a.1)
