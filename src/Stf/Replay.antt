-- ===== src/Stf/Replay.antt =====
-- No accepted transaction can be accepted again, while no nonce has gone round.
use zk_rollup.Base.{◌+◌, ◌<◌, ◌≤◌, ◌≡◌, List, [], ◌∷◌, arith, All, length}
use zk_rollup.Types.Address.{Address, eq_of_addr_eq, addr_eq_refl}
use zk_rollup.Types.Bytes.{u64_mod}
use zk_rollup.Types.Crypto.{Crypto}
use zk_rollup.Types.Search.Locate.{IsOrdered}
use zk_rollup.Types.State.{State, get}
use zk_rollup.Types.Tx.{Tx}
use zk_rollup.Stf.Transfer.{Accepts, transferred}
use zk_rollup.Stf.Effect.{get-transferred, transferred-IsOrdered}
use zk_rollup.Stf.Run.{AllAccept}

-- Two transactions that claim the same turn of the same account.
abbrev pub SameTurn : Tx → Tx → Type 0
SameTurn t u = (t.from ≡ u.from) × (t.nonce ≡ u.nonce)

-- no two transactions of the list claim the same turn
abbrev pub NoReplay : List Tx → Type 0
NoReplay [] = Unit
NoReplay (tx ∷ txs) = All (λ u. ¬ (SameTurn tx u)) txs × NoReplay txs

module _ ⦃c : Crypto⦄ where
  nonce_grows :
      (s : State) (tx : Tx) (k : Address)
      → IsOrdered s.accounts
      → Accepts s tx
      → (get s k).nonce + 1 < u64_mod
      → ((get s k).nonce ≤ (get (transferred s tx) k).nonce)
        × ((get (transferred s tx) k).nonce ≤ (get s k).nonce + 1)
  nonce_grows s tx k h a small =
      ground (arith, get-transferred s tx k h, eq_of_addr_eq k tx.from, eq_of_addr_eq k tx.to)

  nonce_passed :
      (s : State) (tx : Tx)
      → IsOrdered s.accounts
      → Accepts s tx
      → (get s tx.from).nonce + 1 < u64_mod
      → tx.nonce < (get (transferred s tx) tx.from).nonce
  nonce_passed s tx h a small =
      ground (arith, get-transferred s tx tx.from h, addr_eq_refl tx.from, a.distinct, a.in_turn)

  -- a turn that has passed does not come again
  never_again :
      (txs : List Tx) (s : State) (tx : Tx)
      → IsOrdered s.accounts
      → AllAccept txs s
      → (get s tx.from).nonce + length txs < u64_mod
      → tx.nonce < (get s tx.from).nonce
      → All (λ u. ¬ (SameTurn tx u)) txs
  never_again [] s tx h a small past = tt
  never_again (u ∷ txs) s tx h a small past =
      let grows = nonce_grows s u tx.from h a.0 (omega arith) in
      (
        λ same. ground (arith, a.0.in_turn, same.0, same.1),
        never_again txs (transferred s u) tx (transferred-IsOrdered s u h) a.1 (omega arith)
            (omega arith),
      )

  pub AllAccept-NoReplay :
      (txs : List Tx) (s : State)
      → IsOrdered s.accounts
      → AllAccept txs s
      → ((k : Address) → (get s k).nonce + length txs < u64_mod)
      → NoReplay txs
  AllAccept-NoReplay [] s h a small = tt
  AllAccept-NoReplay (tx ∷ txs) s h a small =
      let h' = transferred-IsOrdered s tx h in
      let grow = λ (k : Address). nonce_grows s tx k h a.0 (omega (arith, small k)) in
      (
        never_again txs (transferred s tx) tx h' a.1 (omega (arith, small tx.from, grow tx.from))
            (nonce_passed s tx h a.0 (omega (arith, small tx.from))),
        AllAccept-NoReplay txs (transferred s tx) h' a.1 (λ k. omega (arith, small k, grow k)),
      )
