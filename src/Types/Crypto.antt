-- ===== src/Types/Crypto.antt =====
-- The cryptographic crates that crates/shared-types/src/lib.rs calls: tiny_keccak and k256.
-- They are not part of the repository, so they are an interface, with what they document as laws.
use zk_rollup.Base.{ℕ, ◌<◌, ◌≡◌, ◌≢◌, ◌⊎◌, inl, inr, ap, sym, Option, All, Bool-cases, length, refl}
use zk_rollup.Types.Bytes.{Bytes, Hash, bytes_eq}
use zk_rollup.Types.Order.{eq_of_bytes_eq, bytes_eq_refl}

pub record Crypto : Type 1 where
  -- k256::ecdsa::{Signature, RecoveryId, VerifyingKey}
  pub Signature : Type 0
  pub RecoveryId : Type 0
  pub VerifyingKey : Type 0
  -- `Keccak::v256`, `update` for each part and `finalize`: the hash of the parts put together
  pub keccak : Bytes → Hash
  -- `Signature::from_slice`
  pub from_slice : Bytes → Option Signature
  -- `RecoveryId::try_from`
  pub try_from : ℕ → Option RecoveryId
  -- `VerifyingKey::recover_from_prehash`
  pub recover_from_prehash : Hash → Signature → RecoveryId → Option VerifyingKey
  -- `to_encoded_point(false).as_bytes()`
  pub to_encoded_point : VerifyingKey → Bytes

-- What the crates document of their results' sizes.
pub record IsLawful (c : Crypto) : Type 0 where
  pub keccak_length : (b : Bytes) → length (c.keccak b) ≡ 32
  pub keccak_bytes : (b : Bytes) → All (λ x. x < 256) (c.keccak b)

-- Two different inputs with the same hash, each one of the strings that are named.
pub record Collision (c : Crypto) (P Q : Bytes → Type 0) : Type 0 where
  pub left : Bytes
  pub right : Bytes
  pub left_named : P left
  pub right_named : Q right
  pub differ : left ≢ right
  pub agree : c.keccak left ≡ c.keccak right

module _ ⦃c : Crypto⦄ where
  -- Two byte strings with one hash are equal, or they are a collision.
  pub same_hash :
      (a b : Bytes) → c.keccak a ≡ c.keccak b → (a ≡ b) ⊎ Collision c (λ x. x ≡ a) (λ x. x ≡ b)
  same_hash a b h = elim (Bool-cases (bytes_eq a b)) [
    | inl same ↦ inl (eq_of_bytes_eq a b same)
    | inr other ↦ inr (record {
      left = a;
      right = b;
      left_named = refl;
      right_named = refl;
      differ = λ p. cc (sym other, ap (bytes_eq a) (sym p), bytes_eq_refl a);
      agree = h;
    })
  ]

  -- strings that are named are also named among more
  pub Collision-imp :
      {P Q P' Q' : Bytes → Type 0}
      → ((x : Bytes) → P x → P' x)
      → ((x : Bytes) → Q x → Q' x)
      → Collision c P Q
      → Collision c P' Q'
  Collision-imp f g h = record {
    left = h.left;
    right = h.right;
    left_named = f h.left h.left_named;
    right_named = g h.right h.right_named;
    differ = h.differ;
    agree = h.agree;
  }
