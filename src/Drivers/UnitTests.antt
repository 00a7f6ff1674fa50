-- ===== src/Drivers/UnitTests.antt =====
-- The unit tests of crates/stf/src/lib.rs and crates/shared-types/src/lib.rs as functions: `none` where a test panics outside its
-- assertions, and else whether these hold. They pass with every signer that meets the laws.
pub mod Transfers
pub mod Passing
pub mod Crates
use zk_rollup.Base.{
  ℕ, replicate, [], ◌∷◌, ◌==◌, ◌&&◌, Bool, true, false, not, Option, none, some, Result, ok, err,
}
use zk_rollup.Types.Address.{Address, addr_eq}
use zk_rollup.Types.Bytes.{bytes_eq}
use zk_rollup.Types.Crypto.{Crypto}
use zk_rollup.Types.State.{State, get, set, new_state, merkle_root}
use zk_rollup.Types.Tx.{Tx, Batch, signing_hash, recover_address, key_address}
use zk_rollup.Types.Search.{Account}
use zk_rollup.Stf.{apply_batch, ApplyOutput}
use zk_rollup.Stf.Monad.{StfError, nonce_mismatch, insufficient_balance}
use zk_rollup.Drivers.Wallet.{Signer, ◌>>=◌, make_wallet, sign_bytes, unsigned_tx, signed_tx}
use zk_rollup.Drivers.Requests.{genesis_with}

-- `matches!(err, StfError::NonceMismatch { expected, got })`
abbrev pub is_nonce_mismatch : ℕ → ℕ → StfError → Bool
is_nonce_mismatch expected got (nonce_mismatch x y) = x == expected && y == got
is_nonce_mismatch expected got _ = false

-- `matches!(err, StfError::InsufficientBalance { have, need })`
abbrev pub is_insufficient_balance : ℕ → ℕ → StfError → Bool
is_insufficient_balance have need (insufficient_balance x y) = x == have && y == need
is_insufficient_balance have need _ = false

-- `.unwrap()` on a result, and `match .. { Err(e) => e, Ok(_) => panic!(..) }`
abbrev pub unwrap {ℓ} : {A E : Type ℓ} → Result A E → Option A
unwrap (ok a) = some a
unwrap (err e) = none

abbrev pub expect_err {ℓ} : {A E : Type ℓ} → Result A E → Option E
expect_err (ok a) = none
expect_err (err e) = some e

module _ ⦃c : Crypto⦄ ⦃k : Signer c⦄ where
  unfoldable pub happy_path_transfer : Option Bool
  happy_path_transfer = do
    (alice_sk, alice) ← make_wallet 1
    (bob_sk, bob) ← make_wallet 2
    let state = genesis_with 1000 0 alice bob
    tx ← signed_tx alice_sk alice bob 250 0
    out ← unwrap (apply_batch state (record { txs = tx ∷ [] }))
    some (
        (get out.new_state alice).balance == 750
        && ((get out.new_state alice).nonce == 1 && (get out.new_state bob).balance == 250))

  unfoldable pub rejects_bad_nonce : Option Bool
  rejects_bad_nonce = do
    (alice_sk, alice) ← make_wallet 1
    (bob_sk, bob) ← make_wallet 2
    let state = genesis_with 1000 0 alice bob
    tx ← signed_tx alice_sk alice bob 100 5
    e ← expect_err (apply_batch state (record { txs = tx ∷ [] }))
    some (is_nonce_mismatch 0 5 e)

  unfoldable pub rejects_insufficient_balance : Option Bool
  rejects_insufficient_balance = do
    (alice_sk, alice) ← make_wallet 1
    (bob_sk, bob) ← make_wallet 2
    let state = genesis_with 50 0 alice bob
    tx ← signed_tx alice_sk alice bob 100 0
    e ← expect_err (apply_batch state (record { txs = tx ∷ [] }))
    some (is_insufficient_balance 50 100 e)

  unfoldable pub sequential_batch_advances_root_deterministically : Option Bool
  sequential_batch_advances_root_deterministically = do
    (alice_sk, alice) ← make_wallet 1
    (bob_sk, bob) ← make_wallet 2
    let s0 = genesis_with 1000 0 alice bob
    let r0 = merkle_root s0
    first ← signed_tx alice_sk alice bob 100 0
    second ← signed_tx alice_sk alice bob 200 1
    let batch : Batch = record { txs = first ∷ second ∷ [] }
    out_a ← unwrap (apply_batch s0 batch)
    out_b ← unwrap (apply_batch s0 batch)
    some (
        bytes_eq (merkle_root out_a.new_state) (merkle_root out_b.new_state)
        && (not (bytes_eq (merkle_root out_a.new_state) r0)
            && ((get out_a.new_state alice).balance == 700
                && (get out_a.new_state bob).balance == 300)))

  -- `signer_address` of the tests is the address that `recover_address` computes of a key
  unfoldable pub round_trip_recover : Option Bool
  round_trip_recover = do
    sk ← k.from_bytes (replicate 32 7)
    let from = key_address (k.verifying_key sk)
    let h = signing_hash (unsigned_tx from (record { bytes = replicate 20 1 }) 100 0)
    sig ← sign_bytes sk h
    recovered ← unwrap (recover_address h sig)
    some (addr_eq recovered from)

unfoldable pub state_root_is_deterministic : ⦃c : Crypto⦄ → Bool
state_root_is_deterministic =
    let first : Address = record { bytes = replicate 20 1 } in
    let second : Address = record { bytes = replicate 20 2 } in
    let one : Account = record { balance = 100; nonce = 1 } in
    let two : Account = record { balance = 50; nonce = 0 } in
    let a = set (set new_state first one) second two in
    let b = set (set new_state second two) first one in bytes_eq (merkle_root a) (merkle_root b)
