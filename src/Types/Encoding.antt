-- ===== src/Types/Encoding.antt =====
-- Fixed-width encodings: `u64::to_be_bytes` can be read back, and a concatenation of parts of known
-- lengths determines its parts.
use zk_rollup.Base.{
  ℕ, zero, suc, ◌+◌, ◌*◌, ◌/◌, ◌%◌, ◌^◌, ◌<◌, ◌≡◌, refl, ap, sym, ◌∙◌, List, [], ◌∷◌, ◌++◌, length,
  length-append, arith, ap₂,
}
use zk_rollup.Types.Bytes.{Bytes, be_bytes, to_be_bytes, from_be_bytes, u64_mod}
use native.Mathlib.Nat.{pow-suc}

length-be_bytes : (n x : ℕ) → length (be_bytes n x) ≡ n
length-be_bytes zero x = refl
length-be_bytes (suc n) x =
    length-append (be_bytes n (x / 256)) _ ∙ omega (arith, length-be_bytes n (x / 256))

pub length-to_be_bytes : (x : ℕ) → length (to_be_bytes x) ≡ 8
unfolding to_be_bytes
length-to_be_bytes x = length-be_bytes 8 x

from_be_bytes-append :
    (acc : ℕ) (l : Bytes) (b : ℕ) → from_be_bytes acc (l ++ b ∷ []) ≡ from_be_bytes acc l * 256 + b
unfolding from_be_bytes
from_be_bytes-append acc [] b = refl
from_be_bytes-append acc (x ∷ l) b = from_be_bytes-append (acc * 256 + x) l b

from_be_bytes-be_bytes : (n x : ℕ) → x < 256 ^ n → from_be_bytes 0 (be_bytes n x) ≡ x
unfolding from_be_bytes
from_be_bytes-be_bytes zero x h = omega arith
from_be_bytes-be_bytes (suc n) x h =
    let k : x < 256 ^ n * 256 = omega (arith, pow-suc 256 n) in
    from_be_bytes-append 0 (be_bytes n (x / 256)) (x % 256)
    ∙ omega (arith, from_be_bytes-be_bytes n (x / 256) (omega arith))

-- Reading back the eight bytes of a 64-bit number gives the number.
pub from_be_bytes-to_be_bytes : (x : ℕ) → x < u64_mod → from_be_bytes 0 (to_be_bytes x) ≡ x
unfolding to_be_bytes
from_be_bytes-to_be_bytes x h = from_be_bytes-be_bytes 8 x h

pub to_be_bytes_injective :
    (x y : ℕ) → x < u64_mod → y < u64_mod → to_be_bytes x ≡ to_be_bytes y → x ≡ y
to_be_bytes_injective x y hx hy e =
    sym (from_be_bytes-to_be_bytes x hx) ∙ (ap (from_be_bytes 0) e ∙ from_be_bytes-to_be_bytes y hy)

-- Equal concatenations whose first parts have one length have equal parts.
pub append_injective {ℓ} :
    {A : Type ℓ} (a b : List A) {c d : List A}
    → length a ≡ length b
    → a ++ c ≡ b ++ d
    → (a ≡ b) × (c ≡ d)
append_injective [] [] h e = (refl, e)
append_injective [] (y ∷ b) h e = absurd (omega arith)
append_injective (x ∷ a) [] h e = absurd (omega arith)
append_injective {A} (x ∷ a) (y ∷ b) {c} {d} h e =
    let head : x ≡ y = cc in
    let tail : a ++ c ≡ b ++ d = cc in
    let (p, q) = append_injective a b (omega arith) tail in (ap₂ ◌∷◌ head p, q)
