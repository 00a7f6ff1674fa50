-- ===== src/Drivers/UnitTests/Transfers.antt =====
-- The unit tests of crates/stf/src/lib.rs with one transfer pass.
use zk_rollup.Base.{ℕ, replicate, ◌≡◌, ◌≢◌, [], ◌∷◌, true, false, some, arith}
use zk_rollup.Types.Address.{Address, addr_eq, addr_eq_refl, addr_eq_of_ne}
use zk_rollup.Types.Bytes.{Bytes, Hash}
use zk_rollup.Types.Crypto.{Crypto}
use zk_rollup.Types.Search.{Account}
use zk_rollup.Types.Search.Locate.{IsOrdered}
use zk_rollup.Types.State.{State, get, set, new_state}
use zk_rollup.Types.State.Laws.{get-set, set-IsOrdered}
use zk_rollup.Types.Tx.{Tx, key_address, signing_hash}
use zk_rollup.Stf.{apply_batch, apply_all, apply_tx}
use zk_rollup.Stf.Run.{apply_batch-AllAccept}
use zk_rollup.Drivers.Wallet.{
  Signer, IsLawfulSigner, make_wallet, sign_bytes, signed_tx, unsigned_tx,
}
use zk_rollup.Drivers.Signing.{NotReduced, signed_tx-recover_address, signed_tx-Accepts}
use zk_rollup.Drivers.Transfers.{after_first}
use zk_rollup.Drivers.Requests.{genesis_with}
use zk_rollup.Drivers.UnitTests.{
  happy_path_transfer, rejects_bad_nonce, rejects_insufficient_balance,
}

genesis_with-IsOrdered : (x y : ℕ) (a b : Address) → IsOrdered (genesis_with x y a b).accounts
unfolding genesis_with
genesis_with-IsOrdered x y a b =
    set-IsOrdered (set new_state a _) b _ (set-IsOrdered new_state a _ tt)

pub get-genesis_with :
    (x y : ℕ) (a b : Address)
    → addr_eq a b ≡ false
    → (get (genesis_with x y a b) a ≡ record { balance = x; nonce = 0 })
      × (get (genesis_with x y a b) b ≡ record { balance = y; nonce = 0 })
unfolding genesis_with
get-genesis_with x y a b other =
    let first : State = set new_state a (record { balance = x; nonce = 0 }) in
    let o : IsOrdered first.accounts = set-IsOrdered new_state a _ tt in
    let account : Account = record { balance = y; nonce = 0 } in
    (
      ground (
        arith,
        get-set first b a account o,
        get-set new_state a a (record { balance = x; nonce = 0 }) tt,
        addr_eq_refl a,
        other,
      ),
      ground (arith, get-set first b b account o, addr_eq_refl b),
    )

module _ ⦃c : Crypto⦄ ⦃k : Signer c⦄ where
  -- The wallets of the two seeds are made, are different, and the first can sign transfers to the
  -- second.
  pub record HasWallets : Type 0 where
    pub alice_sk : k.SigningKey
    pub bob_sk : k.SigningKey
    pub alice : Address
    pub bob : Address
    pub alice_made : make_wallet 1 ≡ some (alice_sk, alice)
    pub bob_made : make_wallet 2 ≡ some (bob_sk, bob)
    pub different : alice ≢ bob
    pub signs :
        (amount nonce : ℕ) → (tx : Tx) × (signed_tx alice_sk alice bob amount nonce ≡ some tx)
    -- the key of seed 7 is made and signs
    pub other_sk : k.SigningKey
    pub other_made : k.from_bytes (replicate 32 7) ≡ some other_sk
    pub other_signs : (hash : Hash) → (out : Bytes) × (sign_bytes other_sk hash ≡ some out)

  -- what the test of `recover_address` signs
  abbrev pub round_trip_hash : HasWallets → Hash
  round_trip_hash w =
      let from = key_address (k.verifying_key w.other_sk) in
      signing_hash (unsigned_tx from (record { bytes = replicate 20 1 }) 100 0)

  -- The signatures that the tests make have recovery ids of 0 or 1.
  pub record SmallIds (w : HasWallets) : Type 0 where
    pub happy : NotReduced (w.signs 250 0).0.signature
    pub bad_nonce : NotReduced (w.signs 100 5).0.signature
    pub first : NotReduced (w.signs 100 0).0.signature
    pub second : NotReduced (w.signs 200 1).0.signature
    pub round_trip : NotReduced (w.other_signs (round_trip_hash w)).0

  pub happy_path_transfer_passes :
      (w : HasWallets) → IsLawfulSigner c k → SmallIds w → happy_path_transfer ≡ some true
  unfolding happy_path_transfer
  happy_path_transfer_passes w law small =
      let (tx, signed) = w.signs 250 0 in
      let s = genesis_with 1000 0 w.alice w.bob in
      let other = addr_eq_of_ne w.alice w.bob w.different in
      let (from, to) = get-genesis_with 1000 0 w.alice w.bob other in
      let (out, shape, _) =
        signed_tx-recover_address 1 w.alice_sk w.alice w.bob 250 0 tx law w.alice_made signed
          small.happy in
      let a =
        (signed_tx-Accepts 1 w.alice_sk w.alice w.bob 250 0 tx s law w.alice_made signed w.different
            (ground (arith, from)) (ground (arith, from)) (ground (arith, to))).1
          small.happy in
      let (n, b, d) = after_first s tx (genesis_with-IsOrdered 1000 0 w.alice w.bob) a.distinct in
      let ran = apply_batch-AllAccept s (record { txs = tx ∷ [] }) (a, tt) in
      ground (arith, w.alice_made, w.bob_made, signed, ran, shape, n, b, d, from, to)

  pub rejects_bad_nonce_passes :
      (w : HasWallets) → IsLawfulSigner c k → SmallIds w → rejects_bad_nonce ≡ some true
  unfolding rejects_bad_nonce apply_batch apply_all apply_tx
  rejects_bad_nonce_passes w law small =
      let (tx, signed) = w.signs 100 5 in
      let other = addr_eq_of_ne w.alice w.bob w.different in
      let (from, to) = get-genesis_with 1000 0 w.alice w.bob other in
      let (out, shape, recovered) =
        signed_tx-recover_address 1 w.alice_sk w.alice w.bob 100 5 tx law w.alice_made signed
          small.bad_nonce in
      ground (
        arith,
        w.alice_made,
        w.bob_made,
        signed,
        shape,
        recovered,
        from,
        other,
        addr_eq_refl w.alice,
      )

  pub rejects_insufficient_balance_passes :
      (w : HasWallets) → IsLawfulSigner c k → SmallIds w → rejects_insufficient_balance ≡ some true
  unfolding rejects_insufficient_balance apply_batch apply_all apply_tx
  rejects_insufficient_balance_passes w law small =
      let (tx, signed) = w.signs 100 0 in
      let other = addr_eq_of_ne w.alice w.bob w.different in
      let (from, to) = get-genesis_with 50 0 w.alice w.bob other in
      let (out, shape, recovered) =
        signed_tx-recover_address 1 w.alice_sk w.alice w.bob 100 0 tx law w.alice_made signed
          small.first in
      ground (
        arith,
        w.alice_made,
        w.bob_made,
        signed,
        shape,
        recovered,
        from,
        other,
        addr_eq_refl w.alice,
      )
