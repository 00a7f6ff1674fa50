-- ===== src/Types/State/Laws.antt =====
-- The laws of `State::get` and `State::set` as a map from addresses to accounts.
use zk_rollup.Base.{
  ℕ, ◌+◌, ◌<◌, ◌≤◌, false, ◌≡◌, refl, lt, eq, gt, Ordering, ◌∷◌, [], List, All, All-imp, false,
  arith, if◌then◌else◌, some,
}
use zk_rollup.Types.Address.{Address, IsAddress, addr_cmp, addr_eq, eq_of_addr_cmp}
use zk_rollup.Types.Bytes.{u64_mod}
use zk_rollup.Types.Order.{lt_trans, lt_of_gt, eq_of_cmp, cmp_refl, bytes_eq_refl, eq_of_bytes_eq}
use zk_rollup.Types.Search.{Account, Entry}
use zk_rollup.Types.Search.Locate.{Above, IsOrdered}
use zk_rollup.Types.State.{State, get, set, default_account}
use zk_rollup.Types.State.Lookup.{
  find, or_default, put, bytes_eq-cmp, find-Above, get-eq-find, set-eq-put,
}

-- What the types `[u8; 20]` and `u64` say of an entry.
abbrev pub IsEntry : Entry → Type 0
IsEntry (a, x) = IsAddress a × (x.balance < u64_mod) × (x.nonce < u64_mod)

-- The accounts in strictly rising order of address, each of them well formed.
pub record IsValid (s : State) : Type 0 where
  pub ordered : IsOrdered s.accounts
  pub entries : All IsEntry s.accounts

Above-put :
    (l : List Entry) (a k : Address) (x : Account)
    → Above a l
    → addr_cmp a k ≡ lt
    → Above a (put l k x)
unfolding put
Above-put [] a k x h g = (g, tt)
Above-put (e ∷ l) a k x h g = ground (arith, Above-put l a k x h.1 g)

pub Above-trans : (k a : Address) (l : List Entry) → addr_cmp k a ≡ lt → Above a l → Above k l
Above-trans k a l h s = All-imp (λ e p. lt_trans k.bytes a.bytes e.0.bytes h p) l s

pub put-IsOrdered :
    (l : List Entry) (k : Address) (x : Account) → IsOrdered l → IsOrdered (put l k x)
unfolding put
put-IsOrdered [] k x s = (tt, tt)
put-IsOrdered (e ∷ l) k x s = ground (
  arith,
  put-IsOrdered l k x s.1,
  Above-put l e.0 k x s.0,
  lt_of_gt e.0.bytes k.bytes,
  Above-trans k e.0 l,
)

pub find-put :
    (l : List Entry) (k j : Address) (x : Account)
    → IsOrdered l
    → find (put l k x) j ≡ (if addr_eq j k then some x else find l j)
unfolding put
find-put [] k j x s = refl
find-put (e ∷ l) k j x s = ground (
  arith,
  find-put l k j x s.1,
  eq_of_bytes_eq j.bytes k.bytes,
  eq_of_bytes_eq j.bytes e.0.bytes,
  cmp_refl j.bytes,
  eq_of_cmp e.0.bytes k.bytes,
)

-- the sum of the balances, as the accounts list them
unfoldable pub sum_balances : List Entry → ℕ
sum_balances [] = 0
sum_balances (e ∷ l) = e.1.balance + sum_balances l

sum_balances-put :
    (l : List Entry) (k : Address) (x : Account)
    → IsOrdered l
    → sum_balances (put l k x) + (or_default (find l k)).balance ≡ sum_balances l + x.balance
unfolding put sum_balances
sum_balances-put [] k x s = omega arith
sum_balances-put (e ∷ l) k x s =
    ground
      (arith, sum_balances-put l k x s.1, bytes_eq-cmp k.bytes e.0.bytes, find-Above l e.0 k s.0)

pub All-put {ℓ} :
    (P : Entry → Type ℓ) (l : List Entry) (k : Address) (x : Account)
    → P (k, x)
    → All P l
    → All P (put l k x)
unfolding put
All-put P [] k x p h = (p, tt)
All-put P (e ∷ l) k x p h = by_order (All-put P l k x p h.1) (addr_cmp e.0 k) refl
  where
    by_order :
        All P (put l k x)
        → (o : Ordering) → addr_cmp e.0 k ≡ o
        → All P (elim o [ lt ↦ e ∷ put l k x | eq ↦ (e.0, x) ∷ l | gt ↦ (k, x) ∷ e ∷ l ])
    by_order rest lt q = (h.0, rest)
    by_order rest eq q = (rw (eq_of_addr_cmp e.0 k q) p, h.1)
    by_order rest gt q = (p, h)

-- What `set` keeps: the addresses in strictly rising order.
pub set-IsOrdered :
    (s : State) (a : Address) (x : Account) → IsOrdered s.accounts → IsOrdered (set s a x).accounts
set-IsOrdered s a x h = rw (set-eq-put s a x h) (put-IsOrdered s.accounts a x h)

-- On ordered accounts, reading after a write gives the new account at the written address and the
-- old one everywhere else.
pub get-set :
    (s : State) (a b : Address) (x : Account)
    → IsOrdered s.accounts
    → get (set s a x) b ≡ (if addr_eq b a then x else get s b)
get-set s a b x h = ground (
  arith,
  set-IsOrdered s a x h,
  get-eq-find (set s a x) b,
  set-eq-put s a x h,
  find-put s.accounts a b x h,
  get-eq-find s b h,
)

-- the sum of all balances
unfoldable pub total : State → ℕ
unfolding sum_balances
total s = sum_balances s.accounts

-- Writing an account changes the sum of the balances by the difference of its balances.
pub total-set :
    (s : State) (a : Address) (x : Account)
    → IsOrdered s.accounts
    → total (set s a x) + (get s a).balance ≡ total s + x.balance
unfolding total
total-set s a x h = rw (set-eq-put s a x h, get-eq-find s a h) (sum_balances-put s.accounts a x h)

pub All-set {ℓ} :
    (P : Entry → Type ℓ) (s : State) (a : Address) (x : Account)
    → IsOrdered s.accounts
    → P (a, x)
    → All P s.accounts
    → All P (set s a x).accounts
All-set P s a x h p q = rw (set-eq-put s a x h) (All-put P s.accounts a x p q)

-- `set` keeps a valid state valid, if the entry written is well formed.
pub set-IsValid :
    (s : State) (a : Address) (x : Account) → IsValid s → IsEntry (a, x) → IsValid (set s a x)
set-IsValid s a x v e = record {
  ordered = set-IsOrdered s a x v.ordered;
  entries = All-set IsEntry s a x v.ordered e v.entries;
}

find_bounds :
    (l : List Entry) (k : Address)
    → All IsEntry l
    → ((or_default (find l k)).balance < u64_mod) × ((or_default (find l k)).nonce < u64_mod)
find_bounds [] k h = (omega arith, omega arith)
find_bounds (e ∷ l) k h = ground (arith, find_bounds l k h.1)

-- What `get` reads are 64-bit words.
pub get_bounds :
    (s : State) (k : Address)
    → IsValid s
    → ((get s k).balance < u64_mod) × ((get s k).nonce < u64_mod)
get_bounds s k v = rw (get-eq-find s k v.ordered) (find_bounds s.accounts k v.entries)

-- Two different accounts hold at most the sum of all balances.
pub two_balances :
    (s : State) (a b : Address)
    → IsOrdered s.accounts
    → addr_eq a b ≡ false
    → (get s a).balance + (get s b).balance ≤ total s
two_balances s a b h ne =
    let none_left : Account = default_account in
    ground (
      arith,
      total-set s a none_left h,
      total-set (set s a none_left) b none_left (set-IsOrdered s a none_left h),
      get-set s a b none_left h,
      eq_of_bytes_eq b.bytes a.bytes,
      bytes_eq_refl a.bytes,
    )
