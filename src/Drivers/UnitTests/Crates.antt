-- ===== src/Drivers/UnitTests/Crates.antt =====
-- The two unit tests of crates/stf/src/lib.rs and crates/shared-types/src/lib.rs that hang on what the
-- cryptographic crates compute: rejects_invalid_signature and empty_batch_hash_is_empty_keccak.
use zk_rollup.Base.{
  ℕ, zero, suc, ◌-◌, ◌≡◌, ◌≢◌, ◌↔◌, ◌∙◌, refl, sym, ap, [], ◌∷◌, Bool, true, false, Option, none,
  some, ok, inl, inr, arith, Result-cases,
}
use zk_rollup.Types.Address.{addr_eq_of_ne}
use zk_rollup.Types.Bytes.{Bytes, bytes_eq}
use zk_rollup.Types.Order.{bytes_eq_refl, eq_of_bytes_eq}
use zk_rollup.Types.Crypto.{Crypto}
use zk_rollup.Types.Text.{Text, Hex}
use zk_rollup.Types.Tx.{Tx, batch_hash, encode_txs, signing_hash, recover_address}
use zk_rollup.Stf.{apply_batch, apply_all, apply_tx}
use zk_rollup.Stf.Monad.{StfError, bad_signature}
use zk_rollup.Stf.Run.{apply_batch-AllAccept}
use zk_rollup.Stf.Transfer.{Accepts}
use zk_rollup.Drivers.Wallet.{Signer, ◌>>=◌, make_wallet, signed_tx}
use zk_rollup.Drivers.Signing.{signed_tx_inv}
use zk_rollup.Drivers.Requests.{genesis_with}
use zk_rollup.Drivers.UnitTests.{expect_err}
use zk_rollup.Drivers.UnitTests.Transfers.{HasWallets, get-genesis_with}

-- `matches!(err, StfError::BadSignature)`
abbrev pub is_bad_signature : StfError → Bool
is_bad_signature bad_signature = true
is_bad_signature _ = false

-- `bytes[i] ^= 0xFF` on bytes, which panics where the index is out of range
unfoldable pub flip_byte : ℕ → Bytes → Option Bytes
flip_byte i [] = none
flip_byte zero (x ∷ xs) = some ((255 - x) ∷ xs)
flip_byte (suc i) (x ∷ xs) = do rest ← flip_byte i xs; some (x ∷ rest)

abbrev pub empty_keccak : Text
empty_keccak =
    b'c' ∷ b'5' ∷ b'd' ∷ b'2' ∷ b'4' ∷ b'6' ∷ b'0' ∷ b'1' ∷ b'8' ∷ b'6' ∷ b'f' ∷ b'7' ∷ b'2' ∷ b'3'
    ∷ b'3' ∷ b'c' ∷ b'9' ∷ b'2' ∷ b'7' ∷ b'e' ∷ b'7' ∷ b'd' ∷ b'b' ∷ b'2' ∷ b'd' ∷ b'c' ∷ b'c'
    ∷ b'7' ∷ b'0' ∷ b'3' ∷ b'c' ∷ b'0' ∷ b'e' ∷ b'5' ∷ b'0' ∷ b'0' ∷ b'b' ∷ b'6' ∷ b'5' ∷ b'3'
    ∷ b'c' ∷ b'a' ∷ b'8' ∷ b'2' ∷ b'2' ∷ b'7' ∷ b'3' ∷ b'b' ∷ b'7' ∷ b'b' ∷ b'f' ∷ b'a' ∷ b'd'
    ∷ b'8' ∷ b'0' ∷ b'4' ∷ b'5' ∷ b'd' ∷ b'8' ∷ b'5' ∷ b'a' ∷ b'4' ∷ b'7' ∷ b'0' ∷ []

unfoldable pub empty_batch_hash_is_empty_keccak : ⦃c : Crypto⦄ → ⦃h : Hex⦄ → Bool
empty_batch_hash_is_empty_keccak ⦃h = h⦄ =
    bytes_eq (h.encode (batch_hash (record { txs = [] }))) empty_keccak

module _ ⦃c : Crypto⦄ ⦃k : Signer c⦄ where
  unfoldable pub rejects_invalid_signature : Option Bool
  rejects_invalid_signature = do
    (alice_sk, alice) ← make_wallet 1
    (bob_sk, bob) ← make_wallet 2
    let state = genesis_with 1000 0 alice bob
    tx ← signed_tx alice_sk alice bob 100 0
    signature ← flip_byte 5 tx.signature
    e ← expect_err (apply_batch state (record { txs = record tx { signature = signature } ∷ [] }))
    some (is_bad_signature e)

  -- the hash that is signed does not cover the signature
  signing_hash-signature :
      (tx : Tx) (signature : Bytes)
      → signing_hash (record tx { signature = signature }) ≡ signing_hash tx
  unfolding signing_hash
  signing_hash-signature tx signature = refl

  tampered_refused :
      (w : HasWallets) (tx : Tx) (signature : Bytes)
      → signed_tx w.alice_sk w.alice w.bob 100 0 ≡ some tx
      → flip_byte 5 tx.signature ≡ some signature
      → recover_address (signing_hash tx) signature ≢ ok w.alice
      → rejects_invalid_signature ≡ some true
  unfolding rejects_invalid_signature apply_batch apply_all apply_tx
  tampered_refused w tx signature signed flipped other =
      let (out, _, shape) = signed_tx_inv w.alice_sk w.alice w.bob 100 0 tx signed in
      let apart = addr_eq_of_ne w.alice w.bob w.different in
      let hash = signing_hash-signature tx signature in
      elim (Result-cases (recover_address (signing_hash tx) signature)) [
        | inr (e, p) ↦
            ground (arith, w.alice_made, w.bob_made, signed, flipped, shape, apart, hash, p)
        | inl (a, p) ↦
            let ne = addr_eq_of_ne a w.alice (λ same. other (p ∙ ap ok same)) in
            ground (arith, w.alice_made, w.bob_made, signed, flipped, shape, apart, hash, p, ne)
      ]

  tampered_accepted :
      (w : HasWallets) (tx : Tx) (signature : Bytes)
      → signed_tx w.alice_sk w.alice w.bob 100 0 ≡ some tx
      → flip_byte 5 tx.signature ≡ some signature
      → recover_address (signing_hash tx) signature ≡ ok w.alice
      → rejects_invalid_signature ≢ some true
  unfolding rejects_invalid_signature
  tampered_accepted w tx signature signed flipped same passes =
      let (out, _, shape) = signed_tx_inv w.alice_sk w.alice w.bob 100 0 tx signed in
      let apart = addr_eq_of_ne w.alice w.bob w.different in
      let (from, to) = get-genesis_with 1000 0 w.alice w.bob apart in
      let changed : Tx = record tx { signature = signature } in
      let s = genesis_with 1000 0 w.alice w.bob in
      let a : Accepts s changed = record {
        distinct = rw shape apart;
        signed =
            ap (λ x. recover_address x signature) (signing_hash-signature tx signature)
            ∙ (same ∙ ap (λ (t : Tx). ok t.from) (sym shape));
        in_turn = rw shape (ground (arith, from));
        funded = rw shape (ground (arith, from));
        room = rw shape (ground (arith, to));
      } in
      let ran = apply_batch-AllAccept s (record { txs = changed ∷ [] }) (a, tt) in
      ground (arith, w.alice_made, w.bob_made, signed, flipped, ran)

  empty_batch :
      ⦃h : Hex⦄
      → (empty_batch_hash_is_empty_keccak ≡ true) ↔ (h.encode (c.keccak []) ≡ empty_keccak)
  unfolding empty_batch_hash_is_empty_keccak batch_hash encode_txs
  empty_batch ⦃h = h⦄ =
      (eq_of_bytes_eq (h.encode (c.keccak [])) empty_keccak, λ p. rw p (bytes_eq_refl empty_keccak))

  -- With the wallets of the tests and a transfer that alice has signed, of whose signature the sixth
  -- byte is flipped: the test rejects_invalid_signature passes exactly if alice's address is not
  -- recovered from the flipped signature, and empty_batch_hash_is_empty_keccak passes exactly
  -- if the crates hash the empty string to the constant of the test.
  pub unit_tests_of_crates :
      ⦃h : Hex⦄
      → (w : HasWallets) (tx : Tx) (signature : Bytes)
      → signed_tx w.alice_sk w.alice w.bob 100 0 ≡ some tx
      → flip_byte 5 tx.signature ≡ some signature
      → ((rejects_invalid_signature ≡ some true)
          ↔ (recover_address (signing_hash tx) signature ≢ ok w.alice))
        × ((empty_batch_hash_is_empty_keccak ≡ true) ↔ (h.encode (c.keccak []) ≡ empty_keccak))
  unit_tests_of_crates w tx signature signed flipped = (
    (
      λ passes same. tampered_accepted w tx signature signed flipped same passes,
      tampered_refused w tx signature signed flipped,
    ),
    empty_batch,
  )
