-- ===== src/Drivers/Signing.antt =====
-- What the wallets sign is accepted: from the signature of a wallet its address is recovered.
use zk_rollup.Base.{
  ℕ, zero, suc, ◌+◌, ◌≤◌, ◌<◌, ◌≡◌, ◌≢◌, ◌++◌, refl, sym, ap, ◌∙◌, [], ◌∷◌, some, Option-cases, inl,
  inr, ◌⊎◌, length, length-append, take, replicate, take-length, get_elem?, ok, arith, ◌↔◌,
}
use zk_rollup.Types.Address.{Address, addr_eq_of_ne}
use zk_rollup.Types.Bytes.{Bytes, Hash, u64_mod}
use zk_rollup.Types.Crypto.{Crypto}
use zk_rollup.Types.State.{State, get}
use zk_rollup.Types.Tx.{Tx, signing_hash, recover_address, key_address, normalize_v, byte_at}
use zk_rollup.Stf.Transfer.{Accepts}
use zk_rollup.Drivers.Wallet.{
  Signer, IsLawfulSigner, make_wallet, sign_bytes, signed_tx, unsigned_tx,
}

get_elem?-append : (xs : Bytes) (x n : ℕ) → length xs ≡ n → get_elem? (xs ++ x ∷ []) n ≡ some x
get_elem?-append [] x zero h = refl
get_elem?-append [] x (suc n) h = absurd (omega arith)
get_elem?-append (y ∷ ys) x zero h = absurd (omega arith)
get_elem?-append (y ∷ ys) x (suc n) h = get_elem?-append ys x n (omega arith)

lt_two : (b : ℕ) → b < 2 → (b ≡ 0) ⊎ (b ≡ 1)
lt_two zero h = inl refl
lt_two (suc zero) h = inr refl
lt_two (suc (suc b)) h = absurd (omega arith)

-- The recovery id of a signature is 0 or 1: the curve point's coordinate was not reduced.
abbrev pub NotReduced : Bytes → Type 0
NotReduced signature = byte_at signature 64 < 2

module _ ⦃c : Crypto⦄ ⦃k : Signer c⦄ where
  recover_address_steps :
      (hash : Hash) (signature : Bytes) (b : ℕ) (sig : c.Signature) (rec : c.RecoveryId)
      (vk : c.VerifyingKey)
      → length signature ≡ 65
      → c.from_slice (take 64 signature) ≡ some sig
      → byte_at signature 64 ≡ b
      → b < 2
      → c.try_from b ≡ some rec
      → c.recover_from_prehash hash sig rec ≡ some vk
      → recover_address hash signature ≡ ok (key_address vk)
  unfolding recover_address normalize_v
  recover_address_steps hash signature b sig rec vk n p q small r t = elim (lt_two b small) [
    | inl z ↦ ground arith
    | inr o ↦ ground arith
  ]

  -- From what a key signs, the address of its public key is recovered.
  pub recover_address-sign_bytes :
      (sk : k.SigningKey) (hash : Hash) (out : Bytes)
      → IsLawfulSigner c k
      → NotReduced out
      → sign_bytes sk hash ≡ some out
      → recover_address hash out ≡ ok (key_address (k.verifying_key sk))
  unfolding sign_bytes
  recover_address-sign_bytes sk hash out law small e =
      elim (Option-cases (k.sign_prehash sk hash)) [
        | inl p ↦ absurd (ground arith)
        | inr ((sig, rec), p) ↦
            let body = k.to_bytes sig in
            let b = k.to_byte rec in
            let written : out ≡ body ++ b ∷ [] = ground arith in
            let read : take 64 (body ++ b ∷ []) ≡ body =
              take-length body (b ∷ []) 64 (law.to_bytes_length sig) in
            let last : byte_at (body ++ b ∷ []) 64 ≡ b =
              ground (arith, get_elem?-append body b 64 (law.to_bytes_length sig)) in
            let first : b < 2 = omega (arith, last, rw written at small) in
            let sized : length (body ++ b ∷ []) ≡ 65 =
              omega (arith, length-append body (b ∷ []), law.to_bytes_length sig) in
            rw written (
              recover_address_steps hash (body ++ b ∷ []) b sig rec (k.verifying_key sk) sized
                (rw read (law.from_slice-to_bytes sig)) last first (law.try_from-to_byte rec)
                (law.recover-sign sk hash sig rec p))
      ]

  -- the address of a wallet is that of its key
  make_wallet-key_address :
      (seed : ℕ) (sk : k.SigningKey) (from : Address)
      → make_wallet seed ≡ some (sk, from)
      → key_address (k.verifying_key sk) ≡ from
  unfolding make_wallet key_address
  make_wallet-key_address seed sk from e = elim (Option-cases (k.from_bytes (replicate 32 seed))) [
    | inl p ↦ absurd (ground arith)
    | inr (sk', p) ↦ ground arith
  ]

  pub signed_tx_inv :
      (sk : k.SigningKey) (from to : Address) (amount nonce : ℕ) (tx : Tx)
      → signed_tx sk from to amount nonce ≡ some tx
      → (out : Bytes) × (sign_bytes sk (signing_hash (unsigned_tx from to amount nonce)) ≡ some out)
        × (tx ≡ record (unsigned_tx from to amount nonce) { signature = out })
  unfolding signed_tx
  signed_tx_inv sk from to amount nonce tx e =
      elim (Option-cases (sign_bytes sk (signing_hash (unsigned_tx from to amount nonce)))) [
        | inl p ↦ absurd (ground arith)
        | inr (out, p) ↦ (out, p, ground arith)
      ]

  -- what a wallet signs: the transfer with a signature from which its address is recovered
  pub signed_tx-recover_address :
      (seed : ℕ) (sk : k.SigningKey) (from to : Address) (amount nonce : ℕ) (tx : Tx)
      → IsLawfulSigner c k
      → make_wallet seed ≡ some (sk, from)
      → signed_tx sk from to amount nonce ≡ some tx
      → NotReduced tx.signature
      → (out : Bytes) × (tx ≡ record (unsigned_tx from to amount nonce) { signature = out })
        × (recover_address (signing_hash tx) tx.signature ≡ ok from)
  signed_tx-recover_address seed sk from to amount nonce tx law wallet signed small =
      let (out, p, q) = signed_tx_inv sk from to amount nonce tx signed in
      let recovered = recover_address-sign_bytes sk _ out law (rw q at small) p in
      (
        out,
        q,
        rw q (
            unfold signing_hash in recovered ∙ ap ok (make_wallet-key_address seed sk from wallet)),
      )

  -- a signature of a wallet from which an address is recovered has a recovery id of 0 or 1
  recovered-NotReduced :
      (sk : k.SigningKey) (hash : Hash) (out : Bytes) (from : Address)
      → IsLawfulSigner c k
      → sign_bytes sk hash ≡ some out
      → recover_address hash out ≡ ok from
      → NotReduced out
  unfolding sign_bytes recover_address normalize_v
  recovered-NotReduced sk hash out from law e recovered =
      elim (Option-cases (k.sign_prehash sk hash)) [
        | inl p ↦ absurd (ground arith)
        | inr ((sig, rec), p) ↦
            let body = k.to_bytes sig in
            let b = k.to_byte rec in
            let written : out ≡ body ++ b ∷ [] = ground arith in
            let last : byte_at (body ++ b ∷ []) 64 ≡ b =
              ground (arith, get_elem?-append body b 64 (law.to_bytes_length sig)) in
            let read : byte_at out 64 ≡ b = rw written last in
            let small = law.to_byte_small rec in ground (arith, read, small, recovered)
      ]

  -- the signature is no part of what is signed
  signed_recover :
      (from to : Address) (amount nonce : ℕ) (out : Bytes) (tx : Tx)
      → tx ≡ record (unsigned_tx from to amount nonce) { signature = out }
      → recover_address (signing_hash tx) tx.signature ≡ ok tx.from
      → recover_address (signing_hash (unsigned_tx from to amount nonce)) out ≡ ok from
  unfolding signing_hash
  signed_recover from to amount nonce out tx q signed = rw q at signed

  -- With signing keys that meet their laws, a transfer that a wallet signs is accepted, in a state in which its sender is another than its
  -- recipient, has the nonce and the amount, and the recipient's balance has room for it, exactly if
  -- the recovery id of the signature is 0 or 1. k256 documents ids from 0 to 3: a wallet's signature
  -- with one of the others is refused.
  pub signed_tx-Accepts :
      (seed : ℕ) (sk : k.SigningKey) (from to : Address) (amount nonce : ℕ) (tx : Tx) (s : State)
      → IsLawfulSigner c k
      → make_wallet seed ≡ some (sk, from)
      → signed_tx sk from to amount nonce ≡ some tx
      → from ≢ to
      → (get s from).nonce ≡ nonce
      → amount ≤ (get s from).balance
      → (get s to).balance + amount < u64_mod
      → Accepts s tx ↔ NotReduced tx.signature
  signed_tx-Accepts seed sk from to amount nonce tx s law wallet signed differ turn funds room = (
    λ a.
        let (out, p, q) = signed_tx_inv sk from to amount nonce tx signed in
        let read = signed_recover from to amount nonce out tx q a.signed in
        rw q (recovered-NotReduced sk _ out from law p read),
    λ small.
        let (out, q, recovered) =
          signed_tx-recover_address seed sk from to amount nonce tx law wallet signed small in
        record {
          distinct = rw q (addr_eq_of_ne from to differ);
          signed = recovered ∙ ap ok (ap (λ (t : Tx). t.from) (sym q));
          in_turn = rw q turn;
          funded = rw q funds;
          room = rw q room;
        },
  )
