-- ===== src/Types/Text.antt =====
-- `Address::to_hex` and `Address::from_hex`, over the crate `hex`, which is an interface. A text is
-- the list of its code points.
pub mod RoundTrip
use zk_rollup.Base.{
  ℕ, ◌*◌, ◌≤◌, ◌<◌, ◌≡◌, ◌⊎◌, List, [], ◌∷◌, All, length, Result, ok, err, ◌>>=◌, ◌>>◌, fail_if,
  not, ◌==◌, ◌&&◌, if◌then◌else◌,
}
use zk_rollup.Types.Address.{Address}
use zk_rollup.Types.Bytes.{Bytes}

abbrev pub Text : Type 0
Text = List ℕ

-- `hex::encode`, `hex::decode` and the errors of the latter, of which the code builds one
pub record Hex : Type 1 where
  pub FromHexError : Type 0
  pub invalid_string_length : FromHexError
  pub encode : Bytes → Text
  pub decode : Text → Result Bytes FromHexError

-- 0-9 and a-f
abbrev pub IsHexDigit : ℕ → Type 0
IsHexDigit x = ((b'0' ≤ x) × (x ≤ b'9')) ⊎ ((b'a' ≤ x) × (x ≤ b'f'))

-- What the crate documents: two lower-case digits for each byte, read back by `decode`.
pub record IsLawfulHex (h : Hex) : Type 0 where
  pub encode_length : (b : Bytes) → length (h.encode b) ≡ 2 * length b
  pub encode_digits : (b : Bytes) → All IsHexDigit (h.encode b)
  pub decode_encode : (b : Bytes) → All (λ x. x < 256) b → h.decode (h.encode b) ≡ ok b
  pub decode_bytes : (t : Text) (b : Bytes) → h.decode t ≡ ok b → All (λ x. x < 256) b

-- `s.strip_prefix("0x").unwrap_or(s)`
unfoldable pub strip_0x : Text → Text
strip_0x [] = []
strip_0x (x ∷ []) = x ∷ []
strip_0x (x ∷ y ∷ rest) = if x == b'0' && y == b'x' then rest else x ∷ y ∷ rest

module _ ⦃h : Hex⦄ where
  -- `hex0x`: "0x" and the digits
  unfoldable pub hex0x : Bytes → Text
  hex0x b = b'0' ∷ b'x' ∷ h.encode b

  unfoldable pub to_hex : Address → Text
  unfolding hex0x
  to_hex a = hex0x a.bytes

  unfoldable pub from_hex : Text → Result Address h.FromHexError
  unfolding strip_0x
  from_hex s = do
    bytes ← h.decode (strip_0x s)
    fail_if (not (length bytes == 20)) h.invalid_string_length
    ok (record { bytes = bytes })

  -- `hex_to_bytes` of crates/sequencer/src/routes.rs
  unfoldable pub hex_to_bytes : Text → Result Bytes h.FromHexError
  unfolding strip_0x
  hex_to_bytes s = h.decode (strip_0x s)
