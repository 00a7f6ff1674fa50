-- ===== src/Types/Address.antt =====
-- `struct Address([u8; 20])`: its derived equality and order, with their laws.
use zk_rollup.Base.{
  inl, inr, Bool-cases, ◌≢◌, ap, sym, false, ◌<◌, ◌≡◌, true, Bool, All, length, Ordering, eq,
  replicate,
}
use zk_rollup.Types.Bytes.{Bytes, bytes_eq, cmp_bytes}
use zk_rollup.Types.Order.{bytes_eq_refl, eq_of_bytes_eq, eq_of_cmp}

pub record Address : Type 0 where
  pub bytes : Bytes

abbrev pub zero_address : Address
zero_address = record { bytes = replicate 20 0 }

-- `#[derive(PartialEq)]`
abbrev pub addr_eq : Address → Address → Bool
addr_eq a b = bytes_eq a.bytes b.bytes

-- `#[derive(Ord)]`
abbrev pub addr_cmp : Address → Address → Ordering
addr_cmp a b = cmp_bytes a.bytes b.bytes

-- What the type `[u8; 20]` says of the bytes.
abbrev pub IsAddress : Address → Type 0
IsAddress a = (length a.bytes ≡ 20) × All (λ x. x < 256) a.bytes

pub addr_eq_refl : (a : Address) → addr_eq a a ≡ true
addr_eq_refl a = bytes_eq_refl a.bytes

pub eq_of_addr_eq : (a b : Address) → addr_eq a b ≡ true → a ≡ b
eq_of_addr_eq a b h = λ i. record { bytes = eq_of_bytes_eq a.bytes b.bytes h i }

pub eq_of_addr_cmp : (a b : Address) → addr_cmp a b ≡ eq → a ≡ b
eq_of_addr_cmp a b h = λ i. record { bytes = eq_of_cmp a.bytes b.bytes h i }

pub address_path : (a b : Address) → a.bytes ≡ b.bytes → a ≡ b
address_path a b p = λ i. record { bytes = p i }

pub addr_eq_of_ne : (a b : Address) → a ≢ b → addr_eq a b ≡ false
addr_eq_of_ne a b differ = elim (Bool-cases (addr_eq a b)) [
  | inl same ↦ absurd (differ (eq_of_addr_eq a b same))
  | inr other ↦ other
]

pub ne_of_addr_eq : (a b : Address) → addr_eq a b ≡ false → a ≢ b
ne_of_addr_eq a b other p = cc (other, ap (addr_eq a) (sym p), addr_eq_refl a)
