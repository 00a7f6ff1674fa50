-- ===== src/Drivers/Wallet.antt =====
-- The wallets of crates/sequencer/src/bin/demo.rs, crates/prover-svc/src/bin/smoke.rs and the binaries
-- of crates/sp1-script. `unwrap` panics where the model has `none`.
use zk_rollup.Base.{ℕ, ◌<◌, ◌≡◌, ◌++◌, [], ◌∷◌, All, Option, none, some, length, drop, replicate}
use zk_rollup.Types.Address.{Address}
use zk_rollup.Types.Bytes.{Bytes, Hash}
use zk_rollup.Types.Crypto.{Crypto}
use zk_rollup.Types.Text.{Text, Hex, hex0x}
use zk_rollup.Types.Tx.{Tx, signing_hash}

infixl 5 ◌>>=◌
abbrev pub ◌>>=◌ {ℓ κ} : {A : Type ℓ} {B : Type κ} → Option A → (A → Option B) → Option B
none >>= f = none
some a >>= f = f a

-- k256::ecdsa::SigningKey
pub record Signer (c : Crypto) : Type 1 where
  pub SigningKey : Type 0
  pub from_bytes : Bytes → Option SigningKey
  pub verifying_key : SigningKey → c.VerifyingKey
  pub sign_prehash : SigningKey → Hash → Option (c.Signature × c.RecoveryId)
  -- `Signature::to_bytes` and `RecoveryId::to_byte`
  pub to_bytes : c.Signature → Bytes
  pub to_byte : c.RecoveryId → ℕ

-- What the crate documents: a signature and its recovery id are read back from their bytes, and the
-- key that has signed is recovered from them.
pub record IsLawfulSigner (c : Crypto) (k : Signer c) : Type 0 where
  pub to_bytes_length : (sig : c.Signature) → length (k.to_bytes sig) ≡ 64
  pub to_bytes_bytes : (sig : c.Signature) → All (λ x. x < 256) (k.to_bytes sig)
  pub from_slice-to_bytes : (sig : c.Signature) → c.from_slice (k.to_bytes sig) ≡ some sig
  pub to_byte_small : (rec : c.RecoveryId) → k.to_byte rec < 4
  pub try_from-to_byte : (rec : c.RecoveryId) → c.try_from (k.to_byte rec) ≡ some rec
  pub recover-sign :
      (sk : k.SigningKey) (hash : Hash) (sig : c.Signature) (rec : c.RecoveryId)
      → k.sign_prehash sk hash ≡ some (sig, rec)
      → c.recover_from_prehash hash sig rec ≡ some (k.verifying_key sk)

module _ ⦃c : Crypto⦄ ⦃k : Signer c⦄ where
  -- `[seed; 32]` as the key, and the address of its public key
  unfoldable pub make_wallet : ℕ → Option (k.SigningKey × Address)
  make_wallet seed = do
    sk ← k.from_bytes (replicate 32 seed)
    let pub_bytes = c.to_encoded_point (k.verifying_key sk)
    let h = c.keccak (drop 1 pub_bytes)
    some (sk, record { bytes = drop 12 h })

  -- 64 bytes of the signature and the recovery id
  unfoldable pub sign_bytes : k.SigningKey → Hash → Option Bytes
  sign_bytes sk hash = do
    (sig, rec) ← k.sign_prehash sk hash
    some (k.to_bytes sig ++ k.to_byte rec ∷ [])

  -- the transaction before it is signed
  abbrev pub unsigned_tx : Address → Address → ℕ → ℕ → Tx
  unsigned_tx from to amount nonce = record {
    from = from;
    to = to;
    amount = amount;
    nonce = nonce;
    signature = replicate 65 0;
  }

  unfoldable pub signed_tx : k.SigningKey → Address → Address → ℕ → ℕ → Option Tx
  unfolding sign_bytes
  signed_tx sk from to amount nonce = do
    let tx = unsigned_tx from to amount nonce
    out ← sign_bytes sk (signing_hash tx)
    some (record tx { signature = out })

  -- `sign` of the demo client, which prints the bytes
  unfoldable pub sign : ⦃h : Hex⦄ → k.SigningKey → Hash → Option Text
  unfolding sign_bytes hex0x
  sign sk hash = do out ← sign_bytes sk hash; some (hex0x out)
