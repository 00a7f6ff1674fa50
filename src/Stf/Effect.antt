-- ===== src/Stf/Effect.antt =====
-- What a transfer does to the state: the three kinds of account, validity and the total supply.
use zk_rollup.Base.{◌≤◌, ◌<◌, ◌≡◌, ◌≢◌, false, arith, if◌then◌else◌, err}
use zk_rollup.Types.Address.{Address, addr_eq}
use zk_rollup.Types.Bytes.{u64_mod}
use zk_rollup.Types.Crypto.{Crypto}
use zk_rollup.Types.Order.{eq_of_bytes_eq, bytes_eq_refl}
use zk_rollup.Types.Search.Locate.{IsOrdered}
use zk_rollup.Types.State.{State, get, set}
use zk_rollup.Types.State.Laws.{
  IsValid, get-set, set-IsOrdered, set-IsValid, get_bounds, total, total-set, two_balances,
}
use zk_rollup.Types.Tx.{Tx}
use zk_rollup.Types.Tx.Binding.{IsTx}
use zk_rollup.Stf.{apply_tx}
use zk_rollup.Stf.Monad.{overflow}
use zk_rollup.Stf.Transfer.{Accepts, transferred, debited, credited, apply_tx-Explains}

-- Every account after a transfer: the recipient's, the sender's, and all the others as they were.
pub get-transferred :
    (s : State) (tx : Tx) (k : Address)
    → IsOrdered s.accounts
    → get (transferred s tx) k ≡ (
        if addr_eq k tx.to
        then credited s tx
        else if addr_eq k tx.from
        then debited s tx
        else get s k)
get-transferred s tx k h = ground (
  arith,
  get-set (set s tx.from (debited s tx)) tx.to k (credited s tx)
      (set-IsOrdered s tx.from (debited s tx) h),
  get-set s tx.from k (debited s tx) h,
)

pub transferred-IsOrdered :
    (s : State) (tx : Tx) → IsOrdered s.accounts → IsOrdered (transferred s tx).accounts
transferred-IsOrdered s tx h =
    set-IsOrdered (set s tx.from (debited s tx)) tx.to (credited s tx)
      (set-IsOrdered s tx.from (debited s tx) h)

module _ ⦃c : Crypto⦄ where
  pub transferred-IsValid :
      (s : State) (tx : Tx) → IsValid s → IsTx tx → Accepts s tx → IsValid (transferred s tx)
  transferred-IsValid s tx v t a =
      let (bound, _) = get_bounds s tx.from v in
      let (_, nonce_bound) = get_bounds s tx.to v in
      set-IsValid (set s tx.from (debited s tx)) tx.to (credited s tx)
        (set-IsValid s tx.from (debited s tx) v (t.from_ok, omega arith, omega arith))
        (t.to_ok, a.room, nonce_bound)

  pub total-transferred :
      (s : State) (tx : Tx)
      → IsOrdered s.accounts
      → Accepts s tx
      → total (transferred s tx) ≡ total s
  total-transferred s tx h a = ground (
    arith,
    total-set s tx.from (debited s tx) h,
    total-set (set s tx.from (debited s tx)) tx.to (credited s tx)
        (set-IsOrdered s tx.from (debited s tx) h),
    get-set s tx.from tx.to (debited s tx) h,
    eq_of_bytes_eq tx.to.bytes tx.from.bytes,
    bytes_eq_refl tx.from.bytes,
    a.distinct,
    a.funded,
  )

  -- the checks that come before the one for an overflow
  overflow_reached :
      (s : State) (tx : Tx)
      → (apply_tx tx s).0 ≡ err overflow
      → (addr_eq tx.from tx.to ≡ false) × (tx.amount ≤ (get s tx.from).balance)
  unfolding apply_tx
  overflow_reached s tx e = ground arith

  -- On accounts in strictly rising order whose balances sum to less than 2 ^ 64, a transfer is never
  -- refused for an overflow.
  pub apply_tx-ne-overflow :
      (s : State) (tx : Tx)
      → IsOrdered s.accounts
      → total s < u64_mod
      → (apply_tx tx s).0 ≢ err overflow
  apply_tx-ne-overflow s tx h small e =
      let (distinct, funded) = overflow_reached s tx e in
      omega (arith, apply_tx-Explains s tx overflow e, two_balances s tx.from tx.to h distinct)
