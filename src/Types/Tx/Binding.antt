-- ===== src/Types/Tx/Binding.antt =====
-- What the hashes of transactions and batches commit to.
use zk_rollup.Base.{
  ◌<◌, ◌≡◌, refl, ap, sym, ◌∙◌, List, [], ◌∷◌, ◌++◌, length, length-append, append-nil, arith, ap₂,
  All, ◌⊎◌, inl, inr, Any,
}
use zk_rollup.Types.Address.{IsAddress, address_path}
use zk_rollup.Types.Bytes.{Bytes, to_be_bytes, u64_mod}
use zk_rollup.Types.Crypto.{Crypto, Collision, same_hash, IsLawful, Collision-imp}
use zk_rollup.Types.Encoding.{append_injective, to_be_bytes_injective, length-to_be_bytes}
use zk_rollup.Types.Tx.{
  Tx, Batch, signing_payload, full_payload, signing_hash, full_hash, encode_txs, batch_hash,
}

-- What the types `[u8; 20]` and `u64` say of a transaction; the signature may have any length.
pub record IsTx (tx : Tx) : Type 0 where
  pub from_ok : IsAddress tx.from
  pub to_ok : IsAddress tx.to
  pub amount_ok : tx.amount < u64_mod
  pub nonce_ok : tx.nonce < u64_mod

-- Transactions that ask for the same transfer.
pub record SameTransfer (t u : Tx) : Type 0 where
  pub same_from : t.from ≡ u.from
  pub same_to : t.to ≡ u.to
  pub same_amount : t.amount ≡ u.amount
  pub same_nonce : t.nonce ≡ u.nonce

-- the four fixed parts, before any rest
payload_injective :
    (t u : Tx) (r s : Bytes)
    → IsTx t
    → IsTx u
    → t.from.bytes ++ (t.to.bytes ++ (to_be_bytes t.amount ++ (to_be_bytes t.nonce ++ r)))
      ≡ u.from.bytes ++ (u.to.bytes ++ (to_be_bytes u.amount ++ (to_be_bytes u.nonce ++ s)))
    → SameTransfer t u × (r ≡ s)
payload_injective t u r s h k p =
    let (pf, p1) = append_injective t.from.bytes u.from.bytes (h.from_ok.0 ∙ sym k.from_ok.0) p in
    let (pt, p2) = append_injective t.to.bytes u.to.bytes (h.to_ok.0 ∙ sym k.to_ok.0) p1 in
    let (pa, p3) =
      append_injective (to_be_bytes t.amount) (to_be_bytes u.amount)
        (length-to_be_bytes t.amount ∙ sym (length-to_be_bytes u.amount)) p2 in
    let (pn, pr) =
      append_injective (to_be_bytes t.nonce) (to_be_bytes u.nonce)
        (length-to_be_bytes t.nonce ∙ sym (length-to_be_bytes u.nonce)) p3 in
    (
      record {
        same_from = address_path t.from u.from pf;
        same_to = address_path t.to u.to pt;
        same_amount = to_be_bytes_injective t.amount u.amount h.amount_ok k.amount_ok pa;
        same_nonce = to_be_bytes_injective t.nonce u.nonce h.nonce_ok k.nonce_ok pn;
      },
      pr,
    )

module _ ⦃c : Crypto⦄ where
  -- The hash that is signed commits to the sender, the recipient, the amount and the nonce: two
  -- well-formed transactions with one signing hash ask for the same transfer, or else their two signed
  -- payloads are different strings with one hash.
  pub signing_hash_binding :
      (t u : Tx)
      → IsTx t
      → IsTx u
      → signing_hash t ≡ signing_hash u
      → SameTransfer t u ⊎ Collision c (λ x. x ≡ signing_payload t) (λ x. x ≡ signing_payload u)
  unfolding signing_hash
  signing_hash_binding t u h k p = elim (same_hash (signing_payload t) (signing_payload u) p) [
    | inl same ↦ inl (payload_injective t u [] [] h k (simp append-nil same)).0
    | inr collision ↦ inr collision
  ]

  tx_path : (t u : Tx) → SameTransfer t u → t.signature ≡ u.signature → t ≡ u
  tx_path t u h p = λ i. record {
    from = h.same_from i;
    to = h.same_to i;
    amount = h.same_amount i;
    nonce = h.same_nonce i;
    signature = p i;
  }

  full_hash_binding :
      (t u : Tx)
      → IsTx t
      → IsTx u
      → full_hash t ≡ full_hash u
      → (t ≡ u) ⊎ Collision c (λ x. x ≡ full_payload t) (λ x. x ≡ full_payload u)
  unfolding full_hash
  full_hash_binding t u h k p = elim (same_hash (full_payload t) (full_payload u) p) [
    | inl same ↦
        let (q, r) = payload_injective t u t.signature u.signature h k same in inl (tx_path t u q r)
    | inr collision ↦ inr collision
  ]

  -- the strings that the hashes of the transactions are of
  abbrev IsPayload : List Tx → Bytes → Type 0
  IsPayload txs x = Any (λ tx. x ≡ full_payload tx) txs

  -- the strings that are hashed for the hash of a batch
  abbrev pub HashedFor : Batch → Bytes → Type 0
  HashedFor b x = (x ≡ encode_txs b.txs) ⊎ IsPayload b.txs x

  length-full_hash : (t : Tx) → IsLawful c → length (full_hash t) ≡ 32
  unfolding full_hash
  length-full_hash t law = law.keccak_length (full_payload t)

  encode_txs_binding :
      (ts us : List Tx)
      → IsLawful c
      → All IsTx ts
      → All IsTx us
      → encode_txs ts ≡ encode_txs us
      → (ts ≡ us) ⊎ Collision c (IsPayload ts) (IsPayload us)
  unfolding encode_txs
  encode_txs_binding [] [] law h k p = inl refl
  encode_txs_binding [] (u ∷ us) law h k p = absurd (
      omega
        (arith, ap length p, length-append (full_hash u) (encode_txs us), length-full_hash u law))
  encode_txs_binding (t ∷ ts) [] law h k p = absurd (
      omega
        (arith, ap length p, length-append (full_hash t) (encode_txs ts), length-full_hash t law))
  encode_txs_binding (t ∷ ts) (u ∷ us) law h k p =
      let (q, r) =
        append_injective (full_hash t) (full_hash u)
          (length-full_hash t law ∙ sym (length-full_hash u law)) p in
      elim (full_hash_binding t u h.0 k.0 q) [
        | inr collision ↦ inr (Collision-imp (λ x. inl) (λ x. inl) collision)
        | inl same ↦ elim (encode_txs_binding ts us law h.1 k.1 r) [
          | inl rest ↦ inl (ap₂ ◌∷◌ same rest)
          | inr collision ↦ inr (Collision-imp (λ x. inr) (λ x. inr) collision)
        ]
      ]

  -- With hashes of 32 bytes, the batch hash commits to the whole list of transactions, signatures included: two batches of
  -- well-formed transactions with one hash are the same list, or the hash collides on two different
  -- strings, one that is hashed for the one batch and one that is hashed for the other: the hashes
  -- of the transactions put together, or a transaction with its signature.
  pub batch_hash_binding :
      (b d : Batch)
      → IsLawful c
      → All IsTx b.txs
      → All IsTx d.txs
      → batch_hash b ≡ batch_hash d
      → (b.txs ≡ d.txs) ⊎ Collision c (HashedFor b) (HashedFor d)
  unfolding batch_hash
  batch_hash_binding b d law h k p = elim (same_hash (encode_txs b.txs) (encode_txs d.txs) p) [
    | inr collision ↦ inr (Collision-imp (λ x. inl) (λ x. inl) collision)
    | inl same ↦ elim (encode_txs_binding b.txs d.txs law h k same) [
      | inl txs ↦ inl txs
      | inr collision ↦ inr (Collision-imp (λ x. inr) (λ x. inr) collision)
    ]
  ]
