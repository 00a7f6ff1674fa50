-- ===== src/Types/Search.antt =====
-- `slice::binary_search_by_key` on the accounts of a state, as the standard library runs it.
pub mod Locate
use zk_rollup.Base.{
  ℕ, zero, suc, ◌+◌, ◌-◌, ◌/◌, Ordering, lt, eq, gt, List, ◌==◌, if◌then◌else◌, ltb, length,
  get_elem?, none, some, Result, ok, err,
}
use zk_rollup.Types.Address.{Address, addr_cmp}

pub record Account : Type 0 where
  pub balance : ℕ
  pub nonce : ℕ

abbrev pub Entry : Type 0
Entry = Address × Account

-- The key at an index against the key sought. The search reads no index past the end; there the
-- answer is the one of a greater key.
abbrev pub cmp_at : List Entry → Address → ℕ → Ordering
cmp_at l k i = elim (get_elem? l i) [ none ↦ gt | some e ↦ addr_cmp e.0 k ]

-- `base = if cmp == Greater { base } else { mid }`
abbrev pub narrow : Ordering → ℕ → ℕ → ℕ
narrow gt base mid = base
narrow _ base mid = mid

-- `while size > 1 { .. }`, on fuel
unfoldable pub search_loop : ℕ → List Entry → Address → ℕ → ℕ → ℕ
search_loop zero l k base size = base
search_loop (suc fuel) l k base size =
    let half = size / 2 in
    let mid = base + half in
    let rest = search_loop fuel l k (narrow (cmp_at l k mid) base mid) (size - half) in
    if ltb 1 size then rest else base

-- `Ok` with the index of the key, or `Err` with the index where it is to be inserted
unfoldable pub finish : Ordering → ℕ → Result ℕ ℕ
finish eq base = ok base
finish lt base = err (suc base)
finish gt base = err base

unfoldable pub binary_search : List Entry → Address → Result ℕ ℕ
unfolding finish search_loop
binary_search l k =
    let base = search_loop (length l) l k 0 (length l) in
    let result = finish (cmp_at l k base) base in if length l == 0 then err 0 else result
