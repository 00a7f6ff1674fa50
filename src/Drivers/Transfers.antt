-- ===== src/Drivers/Transfers.antt =====
-- What the wallets sign as transactions: their form, and two transfers in a row.
use zk_rollup.Base.{
  false, ℕ, zero, suc, ◌+◌, ◌-◌, ◌≤◌, ◌<◌, ◌≡◌, ◌≢◌, ◌++◌, [], ◌∷◌, All, All-append, some,
  Option-cases, inl, inr, length, drop, length-drop, length-append, arith, replicate,
}
use zk_rollup.Types.Address.{Address, IsAddress, addr_eq, addr_eq_refl}
use zk_rollup.Types.Bytes.{Bytes, u64_mod}
use zk_rollup.Types.Crypto.{Crypto, IsLawful}
use zk_rollup.Types.Search.Locate.{IsOrdered}
use zk_rollup.Types.State.{State, get}
use zk_rollup.Types.Text.{Hex}
use zk_rollup.Types.Tx.{Tx}
use zk_rollup.Stf.{wrapping_add}
use zk_rollup.Stf.Transfer.{transferred}
use zk_rollup.Stf.Effect.{get-transferred, transferred-IsOrdered}
use zk_rollup.Stf.Run.{AllAccept, after}
use zk_rollup.Routes.Requests.{IsSendable}
use zk_rollup.Drivers.Wallet.{Signer, IsLawfulSigner, make_wallet, sign_bytes, signed_tx}
use zk_rollup.Drivers.Signing.{NotReduced, signed_tx-Accepts, signed_tx_inv}

All-drop {κ} : (P : ℕ → Type κ) (n : ℕ) (xs : Bytes) → All P xs → All P (drop n xs)
All-drop P zero xs h = h
All-drop P (suc n) [] h = h
All-drop P (suc n) (x ∷ xs) h = All-drop P n xs h.1

-- the two accounts after the first transfer
pub after_first :
    (s : State) (tx : Tx)
    → IsOrdered s.accounts
    → addr_eq tx.from tx.to ≡ false
    → ((get (transferred s tx) tx.from).nonce ≡ wrapping_add (get s tx.from).nonce 1)
      × ((get (transferred s tx) tx.from).balance ≡ (get s tx.from).balance - tx.amount)
      × ((get (transferred s tx) tx.to).balance ≡ (get s tx.to).balance + tx.amount)
after_first s tx o d =
    let at_from = get-transferred s tx tx.from o in
    let at_to = get-transferred s tx tx.to o in
    (
      ground (arith, at_from, d, addr_eq_refl tx.from),
      ground (arith, at_from, d, addr_eq_refl tx.from),
      ground (arith, at_to, addr_eq_refl tx.to),
    )

module _ ⦃c : Crypto⦄ ⦃k : Signer c⦄ where
  pub make_wallet-IsAddress :
      (seed : ℕ) (sk : k.SigningKey) (from : Address)
      → IsLawful c
      → make_wallet seed ≡ some (sk, from)
      → IsAddress from
  unfolding make_wallet
  make_wallet-IsAddress seed sk from law e =
      elim (Option-cases (k.from_bytes (replicate 32 seed))) [
        | inl p ↦ absurd (ground arith)
        | inr (sk', p) ↦
            let h = c.keccak (drop 1 (c.to_encoded_point (k.verifying_key sk'))) in
            let same : from ≡ record { bytes = drop 12 h } = ground arith in
            rw same (
              omega (
                arith,
                length-drop h 12,
                law.keccak_length (drop 1 (c.to_encoded_point (k.verifying_key sk'))),
              ),
              All-drop (λ x. x < 256) 12 h (law.keccak_bytes _),
            )
      ]

  pub sign_bytes_inv :
      (sk : k.SigningKey) (hash out : Bytes)
      → IsLawfulSigner c k
      → sign_bytes sk hash ≡ some out
      → (length out ≡ 65) × All (λ x. x < 256) out
  unfolding sign_bytes
  sign_bytes_inv sk hash out law e = elim (Option-cases (k.sign_prehash sk hash)) [
    | inl p ↦ absurd (ground arith)
    | inr ((sig, rec), p) ↦
        let written : out ≡ k.to_bytes sig ++ k.to_byte rec ∷ [] = ground arith in
        rw written (
          omega
              (arith, length-append (k.to_bytes sig) (k.to_byte rec ∷ []), law.to_bytes_length sig),
          All-append (λ x. x < 256) (k.to_bytes sig) (k.to_byte rec ∷ []) (law.to_bytes_bytes sig)
              (omega (arith, law.to_byte_small rec)),
        )
  ]

  -- Two transfers of 300 units in all that a wallet signs are accepted one after the other, and the
  -- two balances after them.
  pub signed_tx-AllAccept :
      (sk : k.SigningKey) (alice bob : Address) (first second : Tx) (s : State)
      → IsLawfulSigner c k
      → make_wallet 1 ≡ some (sk, alice)
      → signed_tx sk alice bob 100 0 ≡ some first
      → signed_tx sk alice bob 200 1 ≡ some second
      → NotReduced first.signature
      → NotReduced second.signature
      → alice ≢ bob
      → IsOrdered s.accounts
      → (get s alice).nonce ≡ 0
      → 300 ≤ (get s alice).balance
      → (get s bob).balance + 300 < u64_mod
      → AllAccept (first ∷ second ∷ []) s
        × ((get (after (first ∷ second ∷ []) s) alice).balance ≡ (get s alice).balance - 300)
        × ((get (after (first ∷ second ∷ []) s) bob).balance ≡ (get s bob).balance + 300)
  signed_tx-AllAccept sk alice bob first second s law p signed signed' small small' differ o turn
        funds room =
      let (out, _, shape) = signed_tx_inv sk alice bob 100 0 first signed in
      let (out', _, shape') = signed_tx_inv sk alice bob 200 1 second signed' in
      let a =
        (signed_tx-Accepts 1 sk alice bob 100 0 first s law p signed differ turn (omega arith)
            (omega arith)).1
          small in
      let (n, b, d) = after_first s first o a.distinct in
      let turn' : (get (transferred s first) alice).nonce ≡ 1 = ground (arith, shape, n, turn) in
      let funds' : (get (transferred s first) alice).balance ≡ (get s alice).balance - 100 =
        ground (arith, shape, b) in
      let room' : (get (transferred s first) bob).balance ≡ (get s bob).balance + 100 =
        ground (arith, shape, d) in
      let a' =
        (signed_tx-Accepts 1 sk alice bob 200 1 second (transferred s first) law p signed' differ
            turn' (omega (arith, funds')) (omega (arith, room'))).1
          small' in
      let (_, b', d') =
        after_first (transferred s first) second (transferred-IsOrdered s first o) a'.distinct in
      ((a, (a', tt)), ground (arith, shape', b', funds'), ground (arith, shape', d', room'))

module _ ⦃c : Crypto⦄ ⦃k : Signer c⦄ ⦃h : Hex⦄ where
  pub signed_tx-IsSendable :
      (sk : k.SigningKey) (from to : Address) (amount nonce : ℕ) (tx : Tx)
      → IsLawfulSigner c k
      → IsAddress from
      → IsAddress to
      → signed_tx sk from to amount nonce ≡ some tx
      → IsSendable tx
  signed_tx-IsSendable sk from to amount nonce tx law f t e =
      let (out, p, q) = signed_tx_inv sk from to amount nonce tx e in
      let (n, bytes) = sign_bytes_inv sk _ out law p in
      rw q (record { from_ok = f; to_ok = t; signature_bytes = bytes; signature_length = n })
