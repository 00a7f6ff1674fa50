-- ===== src/Types/Bytes.antt =====
-- Byte strings: `Hash`, the byte arrays, `u64::to_be_bytes`, and the lexicographic order that
-- `#[derive(Ord)]` gives `Address([u8; 20])` in crates/shared-types/src/lib.rs.
use zk_rollup.Base.{
  ℕ, zero, suc, ◌+◌, ◌*◌, ◌/◌, ◌%◌, ◌^◌, compare, Ordering, lt, eq, gt, Bool, true, false, ◌&&◌,
  List, [], ◌∷◌, ◌++◌, ◌==◌,
}

abbrev pub Bytes : Type 0
Bytes = List ℕ

-- `type Hash = [u8; 32]`
abbrev pub Hash : Type 0
Hash = Bytes

abbrev pub u64_mod : ℕ
u64_mod = 2 ^ 64

-- the `n` low bytes of a number, the most significant byte first
abbrev pub be_bytes : ℕ → ℕ → Bytes
be_bytes zero x = []
be_bytes (suc n) x = be_bytes n (x / 256) ++ (x % 256) ∷ []

-- `u64::to_be_bytes`
unfoldable pub to_be_bytes : ℕ → Bytes
to_be_bytes x = be_bytes 8 x

-- the number that a big-endian byte string stands for
unfoldable pub from_be_bytes : ℕ → Bytes → ℕ
from_be_bytes acc [] = acc
from_be_bytes acc (b ∷ bs) = from_be_bytes (acc * 256 + b) bs

-- `[u8; N] == [u8; N]`
unfoldable pub bytes_eq : Bytes → Bytes → Bool
bytes_eq [] [] = true
bytes_eq [] (y ∷ ys) = false
bytes_eq (x ∷ xs) [] = false
bytes_eq (x ∷ xs) (y ∷ ys) = x == y && bytes_eq xs ys

abbrev pub then : Ordering → Ordering → Ordering
then eq second = second
then first _ = first

-- `[u8; N]::cmp`
unfoldable pub cmp_bytes : Bytes → Bytes → Ordering
cmp_bytes [] [] = eq
cmp_bytes [] (y ∷ ys) = lt
cmp_bytes (x ∷ xs) [] = gt
cmp_bytes (x ∷ xs) (y ∷ ys) = then (compare x y) (cmp_bytes xs ys)
