-- ===== src/Types/Text/RoundTrip.antt =====
-- Hexadecimal text reads back what was printed, with and without the prefix.
use zk_rollup.Base.{◌<◌, ◌≡◌, refl, [], ◌∷◌, All, length, ok, arith, Result-cases, inl, inr}
use zk_rollup.Types.Address.{Address, IsAddress}
use zk_rollup.Types.Bytes.{Bytes}
use zk_rollup.Types.Text.{
  Text, Hex, IsHexDigit, IsLawfulHex, strip_0x, hex0x, to_hex, from_hex, hex_to_bytes,
}

strip_0x-digits : (t : Text) → All IsHexDigit t → strip_0x t ≡ t
unfolding strip_0x
strip_0x-digits [] h = refl
strip_0x-digits (x ∷ []) h = refl
strip_0x-digits (x ∷ y ∷ rest) h = ground arith

module _ ⦃h : Hex⦄ where
  pub hex_to_bytes-hex0x :
      (b : Bytes) → IsLawfulHex h → All (λ x. x < 256) b → hex_to_bytes (hex0x b) ≡ ok b
  unfolding hex_to_bytes hex0x
  hex_to_bytes-hex0x b law w = law.decode_encode b w

  -- The text of a 20-byte address is read back as the address, with the prefix 0x and without it.
  pub from_hex-to_hex :
      (a : Address)
      → IsLawfulHex h
      → IsAddress a
      → (from_hex (to_hex a) ≡ ok a) × (from_hex (h.encode a.bytes) ≡ ok a)
  unfolding from_hex to_hex
  from_hex-to_hex a law w = (
    ground (arith, law.decode_encode a.bytes w.1),
    ground (
      arith,
      strip_0x-digits (h.encode a.bytes) (law.encode_digits a.bytes),
      law.decode_encode a.bytes w.1,
    ),
  )

  -- What a text that is read as an address holds: the digits of its 20 bytes.
  pub from_hex_inv :
      (t : Text) (a : Address)
      → from_hex t ≡ ok a
      → (h.decode (strip_0x t) ≡ ok a.bytes) × (length a.bytes ≡ 20)
  unfolding from_hex
  from_hex_inv t a e = elim (Result-cases (h.decode (strip_0x t))) [
    | inl (b, p) ↦ ground arith
    | inr (d, p) ↦ ground arith
  ]

  -- Whatever `from_hex` reads is an address: 20 bytes.
  pub from_hex-IsAddress :
      (t : Text) (a : Address) → IsLawfulHex h → from_hex t ≡ ok a → IsAddress a
  from_hex-IsAddress t a law e =
      let (p, n) = from_hex_inv t a e in (n, law.decode_bytes (strip_0x t) a.bytes p)
