-- ===== src/Tests/Stf.antt =====
-- Runs of `apply_tx` and `apply_batch`, and the theorems at these inputs.
use zk_rollup.Base.{◌↔◌, ◌+◌, ◌-◌, ◌^◌, ◌<◌, length, ◌≡◌, ◌≢◌, refl, [], ◌∷◌, ok, err, arith}
use zk_rollup.Types.Address.{Address}
use zk_rollup.Types.Bytes.{bytes_eq, cmp_bytes, u64_mod}
use zk_rollup.Types.State.{State, get, set}
use zk_rollup.Types.State.Laws.{total}
use zk_rollup.Types.State.Lookup.{get-eq-find}
use zk_rollup.Types.Search.Locate.{IsOrdered}
use zk_rollup.Types.Tx.{Tx, Batch, normalize_v, key_address, recover_address, signing_hash}
use zk_rollup.Stf.{apply_tx, apply_all, apply_batch, ApplyOutput}
use zk_rollup.Stf.Batches.{Settles, apply_batch-Settles, apply_batch-NoReplay}
use zk_rollup.Stf.Replay.{NoReplay}
use zk_rollup.Stf.Wrapped.{apply_batch_replayed}
use zk_rollup.Stf.Abstract.{AllMove, apply_batch-AllMove}
use zk_rollup.Stf.Run.{
  AllAccept, after, values_of, AllAccept-apply_all, apply_batch-eq-ok, apply_batch-AllAccept,
  apply_batch-FailsWith, FailsWith,
}
use zk_rollup.Stf.Effect.{apply_tx-ne-overflow}
use zk_rollup.Stf.Transfer.{transferred, Accepts-apply_tx}
use zk_rollup.Stf.Monad.{bad_signature, overflow}
use zk_rollup.Tests.Crates.{crypto}
use zk_rollup.Tests.Data.{
  alice, bob, funds, two_accounts, signed_tx, pay_100, pay_200, pay_carol, forged, payments,
  two_accounts-IsValid, payments-IsTx,
}

abbrev after_payments : State
after_payments = record { accounts = (alice, funds 700 2) ∷ (bob, funds 350 3) ∷ [] }

run_payments : apply_all payments.txs two_accounts ≡ (ok tt, after_payments)
unfolding apply_all apply_tx get set bytes_eq cmp_bytes recover_address signing_hash key_address
    normalize_v
run_payments = refl

run_forged : apply_tx forged two_accounts ≡ (err bad_signature, two_accounts)
unfolding apply_all apply_tx get set bytes_eq cmp_bytes recover_address signing_hash key_address
    normalize_v
run_forged = refl

run_overflow :
    apply_tx
      (signed_tx 1 1 2 5 0)
      (record { accounts = (alice, funds 9 0) ∷ (bob, funds (2 ^ 64 - 3) 0) ∷ [] })
    ≡ (err overflow, record { accounts = (alice, funds 9 0) ∷ (bob, funds (2 ^ 64 - 3) 0) ∷ [] })
unfolding apply_tx get set bytes_eq cmp_bytes recover_address signing_hash key_address normalize_v
run_overflow = refl

pub payments_accepted : AllAccept payments.txs two_accounts
payments_accepted = AllAccept-apply_all payments.txs two_accounts (λ i. (run_payments i).0)

abbrev pub paid : ApplyOutput
paid = record {
  new_state = after payments.txs two_accounts;
  public_values = values_of payments.txs two_accounts;
}

pub paid_run : apply_batch two_accounts payments ≡ ok paid
paid_run = apply_batch-AllAccept two_accounts payments payments_accepted

apply_batch-eq-ok_example : apply_batch two_accounts payments ≡ ok paid
apply_batch-eq-ok_example =
    (apply_batch-eq-ok two_accounts payments paid).1 (payments_accepted, refl, refl)

apply_batch-Settles_example : Settles two_accounts payments.txs paid.new_state
apply_batch-Settles_example =
    apply_batch-Settles two_accounts payments paid two_accounts-IsValid payments-IsTx paid_run

pub small_nonces : (k : Address) → (get two_accounts k).nonce + length payments.txs < u64_mod
small_nonces k = rw (get-eq-find two_accounts k two_accounts-IsValid.ordered) (ground arith)

apply_batch-NoReplay_example : NoReplay payments.txs
apply_batch-NoReplay_example =
    apply_batch-NoReplay two_accounts payments paid two_accounts-IsValid.ordered small_nonces
      paid_run

abbrev pay_on : Batch
pay_on = record { txs = pay_carol ∷ [] }

abbrev paid_on : ApplyOutput
paid_on = record {
  new_state = after pay_on.txs paid.new_state;
  public_values = values_of pay_on.txs paid.new_state;
}

run_carol : (apply_all pay_on.txs paid.new_state).0 ≡ ok tt
unfolding apply_all apply_tx get set bytes_eq cmp_bytes recover_address signing_hash key_address
    normalize_v
run_carol = refl

paid_on_run : apply_batch paid.new_state pay_on ≡ ok paid_on
paid_on_run =
    apply_batch-AllAccept paid.new_state pay_on
      (AllAccept-apply_all pay_on.txs paid.new_state run_carol)

abbrev half_forged : Batch
half_forged = record { txs = pay_100 ∷ forged ∷ pay_200 ∷ [] }

run_half_forged : apply_batch two_accounts half_forged ≡ err bad_signature
unfolding apply_batch apply_all apply_tx get set bytes_eq cmp_bytes recover_address signing_hash
    key_address normalize_v
run_half_forged = refl

apply_batch-FailsWith_example :
    (left : State) × FailsWith half_forged.txs two_accounts bad_signature left
apply_batch-FailsWith_example =
    apply_batch-FailsWith two_accounts half_forged bad_signature run_half_forged

run_forged_err : (apply_tx forged two_accounts).0 ≡ err bad_signature
run_forged_err = λ i. (run_forged i).0

small_supply : total two_accounts < u64_mod
unfolding total
small_supply = omega arith

apply_tx-ne-overflow_example : (apply_tx pay_200 two_accounts).0 ≢ err overflow
apply_tx-ne-overflow_example =
    apply_tx-ne-overflow two_accounts pay_200 two_accounts-IsValid.ordered small_supply

apply_batch-AllMove_example : AllMove payments.txs (get two_accounts) (get paid.new_state) ↔ (
    (out : ApplyOutput) × (apply_batch two_accounts payments ≡ ok out)
    × (get out.new_state ≡ get paid.new_state))
apply_batch-AllMove_example =
    apply_batch-AllMove two_accounts payments (get paid.new_state) two_accounts-IsValid.ordered

-- alice has gone through all her nonces but the last
abbrev worn : State
worn = record { accounts = (alice, funds 1000 (2 ^ 64 - 1)) ∷ (bob, funds 150 3) ∷ [] }

abbrev last_payment : Tx
last_payment = signed_tx 1 1 2 5 (2 ^ 64 - 1)

run_last : (apply_tx last_payment worn).0 ≡ ok tt
unfolding apply_tx get set bytes_eq cmp_bytes recover_address signing_hash key_address normalize_v
run_last = refl

worn-IsOrdered : IsOrdered worn.accounts
unfolding cmp_bytes
worn-IsOrdered = ((refl, tt), (tt, tt))

left_alice : (get (transferred worn last_payment) alice).balance ≡ 995
unfolding get set bytes_eq cmp_bytes
left_alice = refl

left_bob : (get (transferred worn last_payment) bob).balance ≡ 155
unfolding get set bytes_eq cmp_bytes
left_bob = refl

apply_batch_replayed_example :
    (out : ApplyOutput) × (apply_batch worn (record { txs = last_payment ∷ pay_100 ∷ [] }) ≡ ok out)
    × (out.new_state ≡ transferred (transferred worn last_payment) pay_100)
apply_batch_replayed_example =
    apply_batch_replayed two_accounts worn pay_100 last_payment worn-IsOrdered payments_accepted.0
      (Accepts-apply_tx worn last_payment run_last) refl refl refl (omega (arith, left_alice))
      (omega (arith, left_bob))
