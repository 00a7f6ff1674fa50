-- ===== src/Stf/Wrapped.antt =====
-- What the unchecked `from_acc.nonce += 1` of crates/stf/src/lib.rs does at the last nonce.
use zk_rollup.Base.{◌+◌, ◌≤◌, ◌<◌, ◌≡◌, refl, ok, [], ◌∷◌, arith}
use zk_rollup.Types.Address.{addr_eq_refl}
use zk_rollup.Types.Bytes.{u64_mod}
use zk_rollup.Types.Crypto.{Crypto}
use zk_rollup.Types.Search.Locate.{IsOrdered}
use zk_rollup.Types.State.{State, get}
use zk_rollup.Types.Tx.{Tx, Batch}
use zk_rollup.Stf.{apply_batch, ApplyOutput}
use zk_rollup.Stf.Transfer.{Accepts, transferred}
use zk_rollup.Stf.Effect.{get-transferred}
use zk_rollup.Stf.Run.{after, values_of, apply_batch-AllAccept}

module _ ⦃c : Crypto⦄ where
  -- the account's first turn comes round after its last
  turn_again :
      (s : State) (last : Tx)
      → IsOrdered s.accounts
      → Accepts s last
      → last.nonce + 1 ≡ u64_mod
      → (get (transferred s last) last.from).nonce ≡ 0
  turn_again s last o a wraps =
      ground
        (arith, get-transferred s last last.from o, a.distinct, a.in_turn, addr_eq_refl last.from)

  pub again-Accepts :
      (genesis s : State) (first last : Tx)
      → IsOrdered s.accounts
      → Accepts genesis first
      → Accepts s last
      → first.nonce ≡ 0
      → last.nonce + 1 ≡ u64_mod
      → last.from ≡ first.from
      → first.amount ≤ (get (transferred s last) first.from).balance
      → (get (transferred s last) first.to).balance + first.amount < u64_mod
      → Accepts (transferred s last) first
  again-Accepts genesis s first last o used a zero wraps same funded room = record {
    distinct = used.distinct;
    signed = used.signed;
    in_turn = cc (turn_again s last o a wraps, zero, same);
    funded = funded;
    room = room;
  }

  -- Take a transaction of nonce 0 that some state has accepted, and a later state, ordered, that
  -- accepts the same sender's transaction of nonce 2 ^ 64 - 1. If the sender then still has the
  -- amount and the recipient has room for it, `apply_batch` accepts the old transaction once more
  -- after that last one, under its old signature, and moves its amount again.
  pub apply_batch_replayed :
      (genesis s : State) (first last : Tx)
      → IsOrdered s.accounts
      → Accepts genesis first
      → Accepts s last
      → first.nonce ≡ 0
      → last.nonce + 1 ≡ u64_mod
      → last.from ≡ first.from
      → first.amount ≤ (get (transferred s last) first.from).balance
      → (get (transferred s last) first.to).balance + first.amount < u64_mod
      → let b : Batch = record { txs = last ∷ first ∷ [] } in
        (out : ApplyOutput) × (apply_batch s b ≡ ok out)
        × (out.new_state ≡ transferred (transferred s last) first)
  apply_batch_replayed genesis s first last o used a zero wraps same funded room =
      let b : Batch = record { txs = last ∷ first ∷ [] } in
      let again = again-Accepts genesis s first last o used a zero wraps same funded room in
      (
        record { new_state = after b.txs s; public_values = values_of b.txs s },
        apply_batch-AllAccept s b (a, (again, tt)),
        refl,
      )
