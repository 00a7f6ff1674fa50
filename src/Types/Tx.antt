-- ===== src/Types/Tx.antt =====
-- `struct Tx`, `struct Batch`, their hashes, and `recover_address`.
pub mod Binding
pub mod Recover
use zk_rollup.Base.{
  ℕ, ◌-◌, Bool, true, false, ◌||◌, List, [], ◌∷◌, ◌++◌, Option, none, some, ◌==◌, if◌then◌else◌,
  not, length, get_elem?, take, drop, Result, ok, err, ◌>>=◌, ◌>>◌, fail_if,
}
use zk_rollup.Types.Address.{Address}
use zk_rollup.Types.Bytes.{Bytes, Hash, to_be_bytes}
use zk_rollup.Types.Crypto.{Crypto}

pub record Tx : Type 0 where
  pub from : Address
  pub to : Address
  pub amount : ℕ
  pub nonce : ℕ
  pub signature : Bytes

pub record Batch : Type 0 where
  pub txs : List Tx

-- from || to || amount_be || nonce_be
abbrev pub signing_payload : Tx → Bytes
signing_payload tx =
    tx.from.bytes ++ (tx.to.bytes ++ (to_be_bytes tx.amount ++ to_be_bytes tx.nonce))

-- the same, and then the signature
abbrev pub full_payload : Tx → Bytes
full_payload tx =
    tx.from.bytes
    ++ (tx.to.bytes ++ (to_be_bytes tx.amount ++ (to_be_bytes tx.nonce ++ tx.signature)))

pub data RecoverError : Type 0 where
  bad_signature bad_recovery_id recover : RecoverError

-- `match v { 0 | 1 => v, 27 | 28 => v - 27, _ => .. }`
unfoldable pub normalize_v : ℕ → Option ℕ
normalize_v v =
    if v == 0 || v == 1 then some v else if v == 27 || v == 28 then some (v - 27) else none

abbrev pub ok_or : {A E : Type 0} → Option A → E → Result A E
ok_or none e = err e
ok_or (some a) e = ok a

-- `signature[64]`, read only after the length check
abbrev pub byte_at : Bytes → ℕ → ℕ
byte_at b i = elim (get_elem? b i) [ none ↦ 0 | some x ↦ x ]

module _ ⦃c : Crypto⦄ where
  unfoldable pub signing_hash : Tx → Hash
  signing_hash tx = c.keccak (signing_payload tx)

  unfoldable pub full_hash : Tx → Hash
  full_hash tx = c.keccak (full_payload tx)

  -- what the loop of `Batch::hash` feeds to the hasher
  unfoldable pub encode_txs : List Tx → Bytes
  encode_txs [] = []
  encode_txs (tx ∷ txs) = full_hash tx ++ encode_txs txs

  unfoldable pub batch_hash : Batch → Hash
  batch_hash b = c.keccak (encode_txs b.txs)

  -- the last 20 bytes of the hash of the key's 64 bytes after the prefix byte
  unfoldable pub key_address : c.VerifyingKey → Address
  key_address vk = record { bytes = drop 12 (c.keccak (drop 1 (c.to_encoded_point vk))) }

  unfoldable pub recover_address : Hash → Bytes → Result Address RecoverError
  recover_address msg_hash signature = do
    fail_if (not (length signature == 65)) bad_signature
    sig ← ok_or (c.from_slice (take 64 signature)) bad_signature
    v_norm ← ok_or (normalize_v (byte_at signature 64)) bad_recovery_id
    rec ← ok_or (c.try_from v_norm) bad_recovery_id
    vk ← ok_or (c.recover_from_prehash msg_hash sig rec) recover
    ok (key_address vk)
