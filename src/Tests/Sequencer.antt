-- ===== src/Tests/Sequencer.antt =====
-- The sequencer's state and the genesis at concrete inputs.
use zk_rollup.Sequencer.Window.{drain_for_batch_window}
use zk_rollup.Stf.Ledger.{sent, sent_le_length}
use zk_rollup.Stf.Monad.{StfError}
use zk_rollup.Types.Tx.{Tx}
use mathlib.Core.List.Permᴰ.{swap}
use zk_rollup.Types.Text.RoundTrip.{from_hex-to_hex}
use zk_rollup.Base.{◌≡◌, refl, [], ◌∷◌, ok, err, arith, some, sym, ◌+◌, ◌<◌}
use zk_rollup.Types.Address.{Address, IsAddress}
use zk_rollup.Types.Bytes.{cmp_bytes, u64_mod, bytes_eq}
use zk_rollup.Types.State.{get, set, merkle_root, default_account}
use zk_rollup.Types.State.Laws.{IsValid}
use zk_rollup.Types.Text.{to_hex, from_hex}
use zk_rollup.Stf.{wrapping_add}
use zk_rollup.Stf.Run.{after}
use zk_rollup.Sequencer.{
  SequencerState, drain_for_batch, readmit, restore_mempool, commit_batch, admit_tx,
}
use zk_rollup.Sequencer.Consistency.{IsConsistent, commit_batch-AllAccept}
use zk_rollup.Sequencer.Settlement.{restore_mempool-drain_for_batch, commit_batch-drain_for_batch}
use zk_rollup.Sequencer.Genesis.{Genesis, into_state}
use zk_rollup.Sequencer.Genesis.Bag.{Listing, of_listing, state_of, state_of-into_state}
use mathlib.Core.Quot
use zk_rollup.Sequencer.Genesis.Startup.{last_entry, into_state-IsValid}
use zk_rollup.Tests.Crates.{crypto, hex, hex-IsLawfulHex}
use zk_rollup.Tests.Data.{
  alice, bob, two_accounts, pay_100, pay_carol, payments, pay_200, signed_tx, two_accounts-IsValid,
  payments-IsTx,
}
use zk_rollup.Tests.Stf.{payments_accepted, small_nonces}

abbrev pub waiting : SequencerState
waiting = record {
  canonical_state = two_accounts;
  canonical_root = merkle_root two_accounts;
  speculative_state = after payments.txs two_accounts;
  mempool = payments.txs;
  batch_count = 4;
}

pub waiting-IsConsistent : IsConsistent waiting
waiting-IsConsistent = record { rooted = refl; pending = payments_accepted; speculative = refl }

restore_mempool-drain_for_batch_example :
    let ((_, batch), drained) = drain_for_batch waiting in restore_mempool batch drained ≡ waiting
restore_mempool-drain_for_batch_example =
    restore_mempool-drain_for_batch waiting waiting-IsConsistent

commit_batch-drain_for_batch_example :
    let ((_, batch), drained) = drain_for_batch waiting in
    let root = merkle_root waiting.speculative_state in
    let (r, next) = commit_batch batch root (readmit (pay_carol ∷ pay_100 ∷ []) drained) in
    (r ≡ ok tt)
    × IsConsistent next
    × (next.canonical_state ≡ waiting.speculative_state)
    × (next.canonical_root ≡ root)
    × (next.batch_count ≡ wrapping_add waiting.batch_count 1)
commit_batch-drain_for_batch_example =
    commit_batch-drain_for_batch waiting (pay_carol ∷ pay_100 ∷ []) waiting-IsConsistent

committed_ok :
    (commit_batch payments (merkle_root (after payments.txs two_accounts)) waiting).0 ≡ ok tt
committed_ok =
    let root = merkle_root (after payments.txs two_accounts) in
    λ i. (commit_batch-AllAccept payments root waiting payments_accepted refl i).0

-- alice's next payment after the two that are in flight
abbrev third_payment : Tx
third_payment = signed_tx 1 1 2 1 2

third_turn : third_payment.nonce ≡ (get waiting.speculative_state alice).nonce
unfolding get set cmp_bytes bytes_eq
third_turn = refl

alice_has_turns : (get two_accounts alice).nonce + sent alice waiting.mempool < u64_mod
alice_has_turns = omega (arith, sent_le_length alice payments.txs, small_nonces alice)

drain_for_batch_window_example :
    let ((prev, batch), drained) = drain_for_batch waiting in
    let taken = (admit_tx pay_100 drained).1 in
    let (done, left) = commit_batch batch (merkle_root waiting.speculative_state) taken in
    ((e : StfError) × (admit_tx third_payment drained ≡ (err e, drained)))
    × ((admit_tx pay_100 drained).0 ≡ ok tt)
    × (taken.mempool ≡ pay_100 ∷ [])
    × (done ≡ ok tt)
    × (left.mempool ≡ [])
drain_for_batch_window_example =
    drain_for_batch_window waiting pay_100 third_payment pay_100 (pay_200 ∷ []) waiting-IsConsistent
      two_accounts-IsValid payments-IsTx refl alice_has_turns refl third_turn (refl, refl)
      payments_accepted.0

-- bob's first entry is replaced by his second
abbrev pub genesis : Genesis
genesis = record {
  accounts =
      record { address = to_hex alice; balance = 1000; nonce = 0 }
      ∷ record { address = to_hex bob; balance = 9; nonce = 9 }
      ∷ record { address = to_hex bob; balance = 50; nonce = 3 }
      ∷ [];
}

pub load_genesis : into_state genesis ≡ ok two_accounts
unfolding into_state from_hex to_hex set cmp_bytes
load_genesis = refl

into_state-IsValid_example :
    IsValid two_accounts
    × ((k : Address) → get two_accounts k ≡ last_entry genesis.accounts k default_account)
into_state-IsValid_example =
    into_state-IsValid genesis two_accounts hex-IsLawfulHex (omega arith) load_genesis

-- bob comes before alice
abbrev reversed : Genesis
reversed = record {
  accounts =
      record { address = to_hex bob; balance = 50; nonce = 3 }
      ∷ record { address = to_hex alice; balance = 1000; nonce = 0 }
      ∷ [];
}

abbrev sorted : Genesis
sorted = record {
  accounts =
      record { address = to_hex alice; balance = 1000; nonce = 0 }
      ∷ record { address = to_hex bob; balance = 50; nonce = 3 }
      ∷ [];
}

load_sorted : into_state sorted ≡ ok two_accounts
unfolding into_state from_hex to_hex set cmp_bytes
load_sorted = refl

read_address : (a : Address) → IsAddress a → from_hex (to_hex a) ≡ ok a
read_address a valid = (from_hex-to_hex a hex-IsLawfulHex valid).0

different :
    (a b : Address) → from_hex (to_hex alice) ≡ ok a → from_hex (to_hex bob) ≡ ok b → ¬ (a ≡ b)
unfolding to_hex from_hex
different a b p q same = cc

reversed_different :
    (a b : Address) → from_hex (to_hex bob) ≡ ok a → from_hex (to_hex alice) ≡ ok b → ¬ (a ≡ b)
reversed_different a b p q same = different b a q p (sym same)

abbrev sorted_listing : Listing
sorted_listing = record { genesis = sorted; apart = ((different, tt), (tt, tt)) }

abbrev reversed_listing : Listing
reversed_listing = record { genesis = reversed; apart = ((reversed_different, tt), (tt, tt)) }

sorted_state : state_of (of_listing sorted_listing) ≡ some two_accounts
unfolding state_of
sorted_state = rw load_sorted refl

state_of-into_state_example : into_state reversed ≡ ok two_accounts
state_of-into_state_example =
    (state_of-into_state (of_listing sorted_listing) two_accounts).0 sorted_state reversed_listing
      (Quot.sound (swap refl refl))
