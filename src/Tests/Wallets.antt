-- ===== src/Tests/Wallets.antt =====
-- Keys and signatures of one byte in place of k256's, with the laws of signing.
use zk_rollup.Base.{ℕ, ◌<◌, ◌≡◌, refl, ◌∷◌, All, replicate, some, arith}
use zk_rollup.Types.Bytes.{Bytes}
use zk_rollup.Drivers.Wallet.{Signer, IsLawfulSigner}
use zk_rollup.Tests.Crates.{crypto, Key, key_one, key_two, Parity, even, odd, number, first_key}

abbrev byte_of : Parity → ℕ
byte_of even = 0
byte_of odd = 1

abbrev key_bytes : Key → Bytes
key_bytes k = number k ∷ replicate 63 0

instance abbrev pub signer : Signer crypto
signer = record {
  SigningKey = Key;
  from_bytes = first_key;
  verifying_key = λ sk. sk;
  sign_prehash = λ sk hash. some (sk, even);
  to_bytes = key_bytes;
  to_byte = byte_of;
}

key_bytes_small : (k : Key) → All (λ x. x < 256) (key_bytes k)
key_bytes_small key_one = omega arith
key_bytes_small key_two = omega arith

key_read : (k : Key) → first_key (key_bytes k) ≡ some k
key_read key_one = refl
key_read key_two = refl

parity_read : (p : Parity) → crypto.try_from (byte_of p) ≡ some p
parity_read even = refl
parity_read odd = refl

byte_of_small : (p : Parity) → byte_of p < 4
byte_of_small even = omega arith
byte_of_small odd = omega arith

pub signer-IsLawfulSigner : IsLawfulSigner crypto signer
signer-IsLawfulSigner = record {
  to_bytes_length = λ sig. refl;
  to_bytes_bytes = key_bytes_small;
  from_slice-to_bytes = key_read;
  to_byte_small = byte_of_small;
  try_from-to_byte = parity_read;
  recover-sign = λ sk hash sig rec e. ground arith;
}
