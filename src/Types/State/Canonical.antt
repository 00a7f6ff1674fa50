-- ===== src/Types/State/Canonical.antt =====
-- The accounts in rising order are a canonical form: a state is determined by what its accounts
-- hold, so its root does not depend on the order in which they were written.
use zk_rollup.Base.{◌≡◌, refl, lt, eq, ◌∷◌, [], List, false, arith, none, some, ap₂}
use zk_rollup.Types.Address.{Address, addr_cmp, addr_eq, eq_of_addr_cmp}
use zk_rollup.Types.Order.{lt_of_gt, eq_of_bytes_eq, bytes_eq_refl}
use zk_rollup.Types.Search.{Account, Entry}
use zk_rollup.Types.Search.Locate.{IsOrdered}
use zk_rollup.Types.State.{State, set}
use zk_rollup.Types.State.Lookup.{find, put, find-Above_self, set-eq-put}
use zk_rollup.Types.State.Laws.{find-put, put-IsOrdered, set-IsOrdered, Above-trans}

find_head : (e : Entry) (l : List Entry) → find (e ∷ l) e.0 ≡ some e.1
find_head e l = ground (arith, bytes_eq_refl e.0.bytes)

-- an account whose key lies below the head is not in the list
find_below :
    (e d : Entry) (m : List Entry)
    → IsOrdered (d ∷ m)
    → addr_cmp e.0 d.0 ≡ lt
    → find (d ∷ m) e.0 ≡ none
find_below e d m s h = find-Above_self (d ∷ m) e.0 (h, Above-trans e.0 d.0 m h s.0)

same_head :
    (e d : Entry) (l m : List Entry)
    → IsOrdered (e ∷ l)
    → IsOrdered (d ∷ m)
    → ((k : Address) → find (e ∷ l) k ≡ find (d ∷ m) k)
    → addr_cmp e.0 d.0 ≡ eq
same_head e d l m s t h = ground (
  arith,
  find_head e l,
  find_head d m,
  h e.0,
  h d.0,
  find_below e d m t,
  find_below d e l s,
  lt_of_gt e.0.bytes d.0.bytes,
)

same_tail :
    (e d : Entry) (l m : List Entry)
    → IsOrdered (e ∷ l)
    → IsOrdered (d ∷ m)
    → e.0 ≡ d.0
    → ((k : Address) → find (e ∷ l) k ≡ find (d ∷ m) k)
    → (k : Address) → find l k ≡ find m k
same_tail e d l m s t p h k = ground (
  arith,
  h k,
  eq_of_bytes_eq k.bytes e.0.bytes,
  eq_of_bytes_eq k.bytes d.0.bytes,
  find-Above_self l e.0 s.0,
  find-Above_self m d.0 t.0,
)

-- Two ordered lists that hold the same accounts are equal.
pub ordered_unique :
    (l m : List Entry) → IsOrdered l → IsOrdered m → ((k : Address) → find l k ≡ find m k) → l ≡ m
ordered_unique [] [] s t h = refl
ordered_unique [] (d ∷ m) s t h = cc (h d.0, find_head d m)
ordered_unique (e ∷ l) [] s t h = cc (h e.0, find_head e l)
ordered_unique (e ∷ l) (d ∷ m) s t h =
    let p : e.0 ≡ d.0 = eq_of_addr_cmp e.0 d.0 (same_head e d l m s t h) in
    let q : e.1 ≡ d.1 = ground (arith, h e.0, find_head e l, find_head d m, p) in
    ap₂ ◌∷◌ (λ i. (p i, q i)) (ordered_unique l m s.1 t.1 (same_tail e d l m s t p h))

put_comm :
    (l : List Entry) (a b : Address) (x y : Account)
    → IsOrdered l
    → addr_eq a b ≡ false
    → put (put l a x) b y ≡ put (put l b y) a x
put_comm l a b x y s ne =
    ordered_unique (put (put l a x) b y) (put (put l b y) a x)
      (put-IsOrdered (put l a x) b y (put-IsOrdered l a x s))
      (put-IsOrdered (put l b y) a x (put-IsOrdered l b y s))
      λ k. ground (
        arith,
        find-put (put l a x) b k y (put-IsOrdered l a x s),
        find-put (put l b y) a k x (put-IsOrdered l b y s),
        find-put l a k x s,
        find-put l b k y s,
        eq_of_bytes_eq k.bytes a.bytes,
        eq_of_bytes_eq k.bytes b.bytes,
        bytes_eq_refl a.bytes,
      )

-- On ordered accounts, writes to two different addresses may be swapped.
pub set_comm :
    (s : State) (a b : Address) (x y : Account)
    → IsOrdered s.accounts
    → addr_eq a b ≡ false
    → set (set s a x) b y ≡ set (set s b y) a x
set_comm s a b x y h ne =
    let p : (set (set s a x) b y).accounts ≡ (set (set s b y) a x).accounts = ground (
      arith,
      set-eq-put (set s a x) b y (set-IsOrdered s a x h),
      set-eq-put (set s b y) a x (set-IsOrdered s b y h),
      set-eq-put s a x h,
      set-eq-put s b y h,
      put_comm s.accounts a b x y h ne,
    ) in
    λ i. record { accounts = p i }
