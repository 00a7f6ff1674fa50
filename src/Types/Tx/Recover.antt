-- ===== src/Types/Tx/Recover.antt =====
-- `recover_address`: the layout r || s || v that it accepts, and its errors.
use zk_rollup.Base.{
  ℕ, ◌+◌, ◌<◌, ◌≡◌, ◌⊎◌, refl, [], ◌∷◌, ◌++◌, length, length-append, take-length, none, some,
  Result, ok, err, arith, zero, suc, ◌==◌, true,
}
use zk_rollup.Types.Address.{Address}
use zk_rollup.Types.Bytes.{Bytes, Hash}
use zk_rollup.Types.Crypto.{Crypto}
use zk_rollup.Types.Tx.{
  RecoverError, bad_signature, bad_recovery_id, recover, normalize_v, byte_at, recover_address,
  key_address,
}

last_byte : (l : Bytes) (v n : ℕ) → length l ≡ n → byte_at (l ++ v ∷ []) n ≡ v
last_byte [] v zero h = refl
last_byte [] v (suc n) h = absurd (omega arith)
last_byte (x ∷ l) v zero h = absurd (omega arith)
last_byte (x ∷ l) v (suc n) h = last_byte l v n (omega arith)

normalize_small : (v : ℕ) → v < 2 → normalize_v v ≡ some v
unfolding normalize_v
normalize_small v h = ground arith

normalize_large : (v : ℕ) → v < 2 → normalize_v (v + 27) ≡ some v
unfolding normalize_v
normalize_large v h = ground arith

module _ ⦃c : Crypto⦄ where
  -- what is done with a signature, once it is split into the 64 bytes and the recovery byte
  pub recover_parts : Hash → Bytes → ℕ → Result Address RecoverError
  recover_parts msg_hash body v = elim (c.from_slice body) [
    | none ↦ err bad_signature
    | some sig ↦ elim (c.try_from v) [
      | none ↦ err bad_recovery_id
      | some rec ↦ elim (c.recover_from_prehash msg_hash sig rec) [
        | none ↦ err recover
        | some vk ↦ ok (key_address vk)
      ]
    ]
  ]

  recover_address-append :
      (msg_hash : Hash) (body : Bytes) (v w : ℕ)
      → length body ≡ 64
      → normalize_v v ≡ some w
      → recover_address msg_hash (body ++ v ∷ []) ≡ recover_parts msg_hash body w
  unfolding recover_address recover_parts
  recover_address-append msg_hash body v w n e =
      let sized : (length (body ++ v ∷ []) == 65) ≡ true =
        ground (arith, length-append body (v ∷ [])) in
      rw (sized, recover_address)
        (rw (take-length body (v ∷ []) 64 n) (rw (last_byte body v 64 n) (rw e (ground arith))))

  -- A signature of 64 bytes and a recovery byte: 0 and 27 mean the same, and so do 1 and 28.
  pub recover_address_same :
      (msg_hash : Hash) (body : Bytes) (v : ℕ)
      → length body ≡ 64
      → v < 2
      → (recover_address msg_hash (body ++ v ∷ []) ≡ recover_parts msg_hash body v)
        × (recover_address msg_hash (body ++ (v + 27) ∷ []) ≡ recover_parts msg_hash body v)
  recover_address_same msg_hash body v n small = (
    recover_address-append msg_hash body v v n (normalize_small v small),
    recover_address-append msg_hash body (v + 27) v n (normalize_large v small),
  )

  -- A signature from which an address is recovered has 65 bytes, and the last is 0, 1, 27 or 28.
  pub recover_address_layout :
      (msg_hash : Hash) (signature : Bytes) (a : Address)
      → recover_address msg_hash signature ≡ ok a
      → (length signature ≡ 65) × (let v = byte_at signature 64 in (v < 2) ⊎ (v ≡ 27) ⊎ (v ≡ 28))
  unfolding recover_address normalize_v
  recover_address_layout msg_hash signature a e = (ground arith, ground arith)
