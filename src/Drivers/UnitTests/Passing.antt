-- ===== src/Drivers/UnitTests/Passing.antt =====
-- The unit tests of crates/stf/src/lib.rs and crates/shared-types/src/lib.rs pass.
use zk_rollup.Base.{
  ℕ, replicate, All, ◌⊎◌, ◌<◌, ◌≡◌, ◌≢◌, ap, [], ◌∷◌, true, false, some, arith, inl, inr,
  Bool-cases, refl,
}
use zk_rollup.Types.Address.{Address, addr_eq_refl, addr_eq_of_ne}
use zk_rollup.Types.Bytes.{u64_mod, bytes_eq, cmp_bytes}
use zk_rollup.Types.Order.{bytes_eq_refl, eq_of_bytes_eq}
use zk_rollup.Types.Crypto.{Crypto, IsLawful}
use zk_rollup.Types.Search.{Account}
use zk_rollup.Types.State.{State, get, set, new_state, merkle_root}
use zk_rollup.Types.State.Laws.{set-IsValid, IsValid, IsEntry}
use zk_rollup.Types.State.Binding.{RootCollision, same_state}
use zk_rollup.Types.Tx.{Batch, key_address, signing_hash}
use zk_rollup.Types.Tx.Binding.{IsTx}
use zk_rollup.Stf.Ledger.{after-IsValid}
use zk_rollup.Stf.Run.{apply_batch-AllAccept, after}
use zk_rollup.Drivers.Wallet.{Signer, IsLawfulSigner, unsigned_tx}
use zk_rollup.Drivers.Signing.{recover_address-sign_bytes, signed_tx_inv}
use zk_rollup.Drivers.Transfers.{make_wallet-IsAddress, signed_tx-AllAccept}
use zk_rollup.Drivers.Requests.{genesis_with}
use zk_rollup.Drivers.UnitTests.{
  happy_path_transfer, rejects_bad_nonce, rejects_insufficient_balance, round_trip_recover,
  state_root_is_deterministic, sequential_batch_advances_root_deterministically,
}
use zk_rollup.Drivers.UnitTests.Transfers.{
  HasWallets, SmallIds, get-genesis_with, happy_path_transfer_passes, rejects_bad_nonce_passes,
  rejects_insufficient_balance_passes,
}

module _ ⦃c : Crypto⦄ ⦃k : Signer c⦄ where
  -- the state of the tests is valid
  genesis_with-IsValid :
      (x : ℕ) (w : HasWallets) → IsLawful c → x < u64_mod → IsValid (genesis_with x 0 w.alice w.bob)
  unfolding genesis_with
  genesis_with-IsValid x w lc small =
      let f = make_wallet-IsAddress 1 w.alice_sk w.alice lc w.alice_made in
      let g = make_wallet-IsAddress 2 w.bob_sk w.bob lc w.bob_made in
      set-IsValid _ w.bob _
        (set-IsValid new_state w.alice _ (record { ordered = tt; entries = tt })
          (f, small, omega arith))
        (g, omega arith, omega arith)

  -- the states whose roots the test of a batch of two compares
  abbrev pub Compared : HasWallets → State → Type 0
  Compared w u =
      let s = genesis_with 1000 0 w.alice w.bob in
      (u ≡ s) ⊎ (u ≡ after ((w.signs 100 0).0 ∷ (w.signs 200 1).0 ∷ []) s)

  -- two states in which an account has different balances have different roots
  roots_differ :
      (P : State → Type 0) (s t : State) (k : Address)
      → P s
      → P t
      → All IsEntry s.accounts
      → All IsEntry t.accounts
      → (get s k).balance ≢ (get t k).balance
      → (bytes_eq (merkle_root s) (merkle_root t) ≡ false) ⊎ RootCollision P
  roots_differ P s t k m n v w differ =
      elim (Bool-cases (bytes_eq (merkle_root s) (merkle_root t))) [
        | inr other ↦ inl other
        | inl same ↦
            elim (same_state P s t m n v w (eq_of_bytes_eq (merkle_root s) (merkle_root t) same)) [
              | inr collision ↦ inr collision
              | inl equal ↦ absurd (differ (λ i. (get (equal i) k).balance))
            ]
      ]

  sequential_batch_passes :
      (w : HasWallets)
      → IsLawful c
      → IsLawfulSigner c k
      → SmallIds w
      → (sequential_batch_advances_root_deterministically ≡ some true) ⊎ RootCollision (Compared w)
  unfolding sequential_batch_advances_root_deterministically
  sequential_batch_passes w lc law small =
      let (first, p) = w.signs 100 0 in
      let (second, q) = w.signs 200 1 in
      let s = genesis_with 1000 0 w.alice w.bob in
      let b : Batch = record { txs = first ∷ second ∷ [] } in
      let v = genesis_with-IsValid 1000 w lc (omega arith) in
      let other = addr_eq_of_ne w.alice w.bob w.different in
      let (from, to) = get-genesis_with 1000 0 w.alice w.bob other in
      let (a, left, gained) =
        signed_tx-AllAccept w.alice_sk w.alice w.bob first second s law w.alice_made p q small.first
          small.second w.different v.ordered (ground (arith, from)) (ground (arith, from))
          (ground (arith, to)) in
      let f = make_wallet-IsAddress 1 w.alice_sk w.alice lc w.alice_made in
      let g = make_wallet-IsAddress 2 w.bob_sk w.bob lc w.bob_made in
      let (_, _, shape) = signed_tx_inv w.alice_sk w.alice w.bob 100 0 first p in
      let (_, _, shape') = signed_tx_inv w.alice_sk w.alice w.bob 200 1 second q in
      let t : All IsTx b.txs = (
        rw shape
            (record { from_ok = f; to_ok = g; amount_ok = omega arith; nonce_ok = omega arith }),
        (
          rw shape'
              (record { from_ok = f; to_ok = g; amount_ok = omega arith; nonce_ok = omega arith }),
          tt,
        ),
      ) in
      let v' = after-IsValid b.txs s v t a in
      let ran = apply_batch-AllAccept s b a in
      elim (roots_differ (Compared w) (after b.txs s) s w.alice (inr refl) (inl refl) v'.entries
        v.entries (λ same. omega (arith, same, left, ap (λ (x : Account). x.balance) from))) [
          | inr collision ↦ inr collision
          | inl moved ↦ inl (
              ground (
                arith,
                w.alice_made,
                w.bob_made,
                p,
                q,
                ran,
                left,
                gained,
                from,
                to,
                moved,
                bytes_eq_refl (merkle_root (after b.txs s)),
              ))
        ]

  round_trip_recover_passes :
      (w : HasWallets) → IsLawfulSigner c k → SmallIds w → round_trip_recover ≡ some true
  unfolding round_trip_recover
  round_trip_recover_passes w law small =
      let from = key_address (k.verifying_key w.other_sk) in
      let h = signing_hash (unsigned_tx from (record { bytes = replicate 20 1 }) 100 0) in
      let (out, signed) = w.other_signs h in
      let back = recover_address-sign_bytes w.other_sk h out law small.round_trip signed in
      ground (arith, w.other_made, signed, back, addr_eq_refl from)

  state_root_is_deterministic_passes : state_root_is_deterministic ≡ true
  unfolding state_root_is_deterministic set cmp_bytes
  state_root_is_deterministic_passes = bytes_eq_refl _

  -- With crates that meet their laws, two different wallets the first of which can sign, and a third key that can, with recovery
  -- ids of 0 or 1 on the signatures that are made, the unit tests
  -- happy_path_transfer, rejects_bad_nonce, rejects_insufficient_balance, round_trip_recover and
  -- state_root_is_deterministic pass, and so does sequential_batch_advances_root_deterministically,
  -- unless the encodings of the two states that it compares, before and after its batch, are
  -- different strings with one hash.
  pub unit_tests_pass :
      (w : HasWallets)
      → IsLawful c
      → IsLawfulSigner c k
      → SmallIds w
      → (happy_path_transfer ≡ some true)
        × (rejects_bad_nonce ≡ some true)
        × (rejects_insufficient_balance ≡ some true)
        × (round_trip_recover ≡ some true)
        × (state_root_is_deterministic ≡ true)
        × ((sequential_batch_advances_root_deterministically ≡ some true)
            ⊎ RootCollision (Compared w))
  unit_tests_pass w lc law small = (
    happy_path_transfer_passes w law small,
    rejects_bad_nonce_passes w law small,
    rejects_insufficient_balance_passes w law small,
    round_trip_recover_passes w law small,
    state_root_is_deterministic_passes,
    sequential_batch_passes w lc law small,
  )
