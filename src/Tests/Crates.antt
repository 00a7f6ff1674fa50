-- ===== src/Tests/Crates.antt =====
-- Small functions in place of the crates, with the laws that the theorems ask of these.
use zk_rollup.Base.{
  ℕ, ◌+◌, ◌-◌, ◌*◌, ◌/◌, ◌%◌, ◌<◌, ◌≡◌, refl, ◌∙◌, ap, [], ◌∷◌, ◌++◌, All, length, length-append,
  replicate, take, drop, take-length, drop-length, true, Option, none, some, Result, ok, err, ◌>>=◌,
  ltb, leb, ◌&&◌, ◌==◌, if◌then◌else◌, arith, inl, inr, Result-cases,
}
use zk_rollup.Types.Bytes.{Bytes}
use zk_rollup.Types.Crypto.{Crypto, IsLawful}
use zk_rollup.Types.Text.{Text, Hex, IsHexDigit, IsLawfulHex}
use zk_rollup.Stf.{PublicValues}
use zk_rollup.Prover.{Abi, IsLawfulAbi, HasHashes, Sdk, Panic, Stdin, program}
use zk_rollup.Prover.Honest.{RunsProgram}

abbrev sum_bytes : Bytes → ℕ
sum_bytes [] = 0
sum_bytes (x ∷ xs) = x + sum_bytes xs

-- 31 zero bytes and a checksum
abbrev checksum : Bytes → Bytes
checksum b = replicate 31 0 ++ (sum_bytes b % 256) ∷ []

pub data Key : Type 0 where
  key_one key_two : Key

pub data Parity : Type 0 where
  even odd : Parity

abbrev pub number : Key → ℕ
number key_one = 1
number key_two = 2

abbrev pub key_of : ℕ → Option Key
key_of n = if n == 1 then some key_one else if leb 2 n then some key_two else none

abbrev parity_of : ℕ → Option Parity
parity_of n = if n == 0 then some even else if n == 1 then some odd else none

abbrev pub first_key : Bytes → Option Key
first_key [] = none
first_key (x ∷ xs) = key_of x

-- the first byte of a signature is the key that signed
instance abbrev pub crypto : Crypto
crypto = record {
  Signature = Key;
  RecoveryId = Parity;
  VerifyingKey = Key;
  keccak = checksum;
  from_slice = first_key;
  try_from = parity_of;
  recover_from_prehash = λ hash sig rec. some sig;
  to_encoded_point = λ vk. 4 ∷ number vk ∷ [];
}

checksum_bytes : (b : Bytes) → All (λ x. x < 256) (checksum b)
checksum_bytes b = omega arith

pub crypto-IsLawful : IsLawful crypto
crypto-IsLawful = record { keccak_length = λ b. refl; keccak_bytes = checksum_bytes }

abbrev digit : ℕ → ℕ
digit d = if ltb d 10 then d + 48 else d + 87

abbrev value : ℕ → Option ℕ
value x =
    if leb 48 x && leb x 57
    then some (x - 48)
    else if leb 97 x && leb x 102
    then some (x - 87)
    else none

abbrev encode : Bytes → Text
encode [] = []
encode (b ∷ bs) = digit (b / 16 % 16) ∷ digit (b % 16) ∷ encode bs

pub data HexError : Type 0 where
  odd_length invalid_character invalid_length : HexError

abbrev join : Option ℕ → Option ℕ → Result Bytes HexError → Result Bytes HexError
join (some hi) (some lo) (ok bs) = ok ((hi * 16 + lo) % 256 ∷ bs)
join (some hi) (some lo) (err e) = err e
join (some hi) none r = err invalid_character
join none lo r = err invalid_character

abbrev decode : Text → Result Bytes HexError
decode [] = ok []
decode (x ∷ []) = err odd_length
decode (x ∷ y ∷ t) = join (value x) (value y) (decode t)

instance abbrev pub hex : Hex
hex = record {
  FromHexError = HexError;
  invalid_string_length = invalid_length;
  encode = encode;
  decode = decode;
}

value-digit : (d : ℕ) → d < 16 → value (digit d) ≡ some d
value-digit d h = ground arith

encode_length : (b : Bytes) → length (encode b) ≡ 2 * length b
encode_length [] = omega arith
encode_length (x ∷ b) = omega (arith, encode_length b)

digit-IsHexDigit : (d : ℕ) → d < 16 → IsHexDigit (digit d)
digit-IsHexDigit d h = ground arith

encode_digits : (b : Bytes) → All IsHexDigit (encode b)
encode_digits [] = tt
encode_digits (x ∷ b) = (
  digit-IsHexDigit (x / 16 % 16) (omega arith),
  (digit-IsHexDigit (x % 16) (omega arith), encode_digits b),
)

decode_encode : (b : Bytes) → All (λ x. x < 256) b → decode (encode b) ≡ ok b
decode_encode [] h = refl
decode_encode (x ∷ b) h =
    let join_digits : (x / 16 % 16 * 16 + x % 16) % 256 ≡ x = omega arith in
    rw (value-digit (x / 16 % 16) (omega arith)) (
      rw (value-digit (x % 16) (omega arith))
        (rw (decode_encode b h.1) (ap (λ (y : ℕ). ok (y ∷ b)) join_digits)))

join_bytes :
    (o p : Option ℕ) (r : Result Bytes HexError) (b : Bytes)
    → join o p r ≡ ok b
    → ((c : Bytes) → r ≡ ok c → All (λ x. x < 256) c)
    → All (λ x. x < 256) b
join_bytes (some hi) (some lo) (ok c) b e rest =
    let p : (hi * 16 + lo) % 256 ∷ c ≡ b = cc in rw (← p) (omega arith, rest c refl)
join_bytes (some hi) (some lo) (err x) b e rest = cc
join_bytes (some hi) none r b e rest = cc
join_bytes none p r b e rest = cc

decode_bytes : (t : Text) (b : Bytes) → decode t ≡ ok b → All (λ x. x < 256) b
decode_bytes [] b e = let p : [] ≡ b = cc in rw (← p) tt
decode_bytes (x ∷ []) b e = cc
decode_bytes (x ∷ y ∷ t) b e =
    join_bytes (value x) (value y) (decode t) b e (λ c h. decode_bytes t c h)

pub hex-IsLawfulHex : IsLawfulHex hex
hex-IsLawfulHex = record {
  encode_length = encode_length;
  encode_digits = encode_digits;
  decode_encode = decode_encode;
  decode_bytes = decode_bytes;
}

abbrev words : PublicValues → Bytes
words pv = pv.prev_root ++ (pv.new_root ++ pv.batch_hash)

abbrev from_words : Bytes → PublicValues
from_words b = record {
  prev_root = take 32 b;
  new_root = take 32 (drop 32 b);
  batch_hash = drop 32 (drop 32 b);
}

instance abbrev pub abi : Abi
abi = record {
  abi_encode = words;
  abi_decode = λ b. if length b == 96 then some (from_words b) else none;
}

from_words-words : (pv : PublicValues) → HasHashes pv → from_words (words pv) ≡ pv
from_words-words pv h =
    let second = pv.new_root ++ pv.batch_hash in
    let p : take 32 (words pv) ≡ pv.prev_root = take-length pv.prev_root second 32 h.0 in
    let q : drop 32 (words pv) ≡ second = drop-length pv.prev_root second 32 h.0 in
    let r = take-length pv.new_root pv.batch_hash 32 h.1 in
    let t = drop-length pv.new_root pv.batch_hash 32 h.1 in
    λ i. record {
      prev_root = p i;
      new_root = (ap (take 32) q ∙ r) i;
      batch_hash = (ap (drop 32) q ∙ t) i;
    }

abi_decode_words : (pv : PublicValues) → HasHashes pv → abi.abi_decode (words pv) ≡ some pv
abi_decode_words pv h =
    let sized : (length (words pv) == 96) ≡ true = ground (
      arith,
      length-append pv.prev_root (pv.new_root ++ pv.batch_hash),
      length-append pv.new_root pv.batch_hash,
    ) in
    rw sized (ap some (from_words-words pv h))

pub abi-IsLawfulAbi : IsLawfulAbi abi
abi-IsLawfulAbi = record {
  abi_encode_words = λ pv h. refl;
  abi_decode-abi_encode = abi_decode_words;
}

-- executing and proving run the program; a proof is the bytes that it committed
instance abbrev pub sdk : Sdk
sdk = record {
  SdkError = Panic;
  Proof = Bytes;
  execute = λ stdin. program stdin >>= λ bytes. ok (bytes, 1000);
  setup = ok (b'v' ∷ b'k' ∷ []);
  prove = program;
  prove_groth16 = program;
  public_values = λ p. p;
  bytes = λ p. 1 ∷ 2 ∷ 3 ∷ [];
}

execute_runs :
    (stdin : Stdin) (bytes : Bytes) (cycles : ℕ)
    → sdk.execute stdin ≡ ok (bytes, cycles)
    → program stdin ≡ ok bytes
execute_runs stdin bytes cycles e = elim (Result-cases (program stdin)) [
  | inl (b, p) ↦ ground arith
  | inr (x, p) ↦ ground arith
]

pub sdk-RunsProgram : RunsProgram sdk
sdk-RunsProgram = record {
  execute_runs = execute_runs;
  prove_runs = λ stdin p e. e;
  prove_groth16_runs = λ stdin p e. e;
}
