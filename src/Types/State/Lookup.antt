-- ===== src/Types/State/Lookup.antt =====
-- `State::get` and `State::set` against a linear lookup and an ordered insertion: on ordered
-- accounts they are the same functions.
use zk_rollup.Base.{
  ℕ, ◌≡◌, refl, lt, eq, gt, Ordering, Bool, true, false, List, [], ◌∷◌, Option, none, some, Result,
  ok, err, arith, if◌then◌else◌,
}
use zk_rollup.Types.Address.{Address, addr_cmp, addr_eq}
use zk_rollup.Types.Bytes.{bytes_eq, cmp_bytes, Bytes}
use zk_rollup.Types.Order.{lt_trans, gt_of_lt, lt_of_gt}
use zk_rollup.Types.Search.{Account, Entry}
use zk_rollup.Types.Search.Locate.{Above, IsOrdered, locate, shift, binary_search-eq-locate}
use zk_rollup.Types.State.{State, get, set, account_at, set_account_at, insert_at, default_account}

abbrev pub find : List Entry → Address → Option Account
find [] k = none
find (e ∷ l) k = if addr_eq k e.0 then some e.1 else find l k

abbrev pub or_default : Option Account → Account
or_default none = default_account
or_default (some x) = x

unfoldable pub put : List Entry → Address → Account → List Entry
put [] k x = (k, x) ∷ []
put (e ∷ l) k x = elim (addr_cmp e.0 k) [
  | lt ↦ e ∷ put l k x
  | eq ↦ (e.0, x) ∷ l
  | gt ↦ (k, x) ∷ e ∷ l
]

abbrev pub is_eq : Ordering → Bool
is_eq eq = true
is_eq _ = false

pub bytes_eq-cmp : (a b : Bytes) → bytes_eq a b ≡ is_eq (cmp_bytes b a)
unfolding bytes_eq cmp_bytes
bytes_eq-cmp [] [] = refl
bytes_eq-cmp [] (y ∷ ys) = refl
bytes_eq-cmp (x ∷ xs) [] = refl
bytes_eq-cmp (x ∷ xs) (y ∷ ys) = ground (arith, bytes_eq-cmp xs ys)

-- a key below all others is not among them
pub find-Above : (l : List Entry) (a k : Address) → Above a l → addr_cmp a k ≡ gt → find l k ≡ none
find-Above [] a k h g = refl
find-Above (d ∷ l) a k h g = ground (
  arith,
  bytes_eq-cmp k.bytes d.0.bytes,
  gt_of_lt k.bytes d.0.bytes,
  lt_trans k.bytes a.bytes d.0.bytes,
  lt_of_gt a.bytes k.bytes,
  find-Above l a k h.1,
)

pub find-Above_self : (l : List Entry) (k : Address) → Above k l → find l k ≡ none
find-Above_self [] k h = refl
find-Above_self (d ∷ l) k h =
    ground
      (arith, bytes_eq-cmp k.bytes d.0.bytes, gt_of_lt k.bytes d.0.bytes, find-Above_self l k h.1)

-- what `get` reads and what `set` writes, for an answer of the search
abbrev read_at : List Entry → Result ℕ ℕ → Account
read_at l (ok i) = account_at l i
read_at l (err i) = default_account

abbrev write_at : List Entry → Address → Account → Result ℕ ℕ → List Entry
write_at l k x (ok i) = set_account_at l i x
write_at l k x (err i) = insert_at l i (k, x)

read_at-shift :
    (e : Entry) (l : List Entry) (r : Result ℕ ℕ) → read_at (e ∷ l) (shift r) ≡ read_at l r
read_at-shift e l (ok i) = refl
read_at-shift e l (err i) = refl

write_at-shift :
    (e : Entry) (l : List Entry) (k : Address) (x : Account) (r : Result ℕ ℕ)
    → write_at (e ∷ l) k x (shift r) ≡ e ∷ write_at l k x r
write_at-shift e l k x (ok i) = refl
write_at-shift e l k x (err i) = refl

read_at-locate :
    (l : List Entry) (k : Address) → IsOrdered l → read_at l (locate l k) ≡ or_default (find l k)
unfolding locate
read_at-locate [] k s = refl
read_at-locate (e ∷ l) k s = ground (
  arith,
  bytes_eq-cmp k.bytes e.0.bytes,
  find-Above l e.0 k s.0,
  read_at-shift e l (locate l k),
  read_at-locate l k s.1,
)

write_at-locate :
    (l : List Entry) (k : Address) (x : Account) → write_at l k x (locate l k) ≡ put l k x
unfolding locate put
write_at-locate [] k x = refl
write_at-locate (e ∷ l) k x =
    ground (arith, write_at-shift e l k x (locate l k), write_at-locate l k x)

-- On ordered accounts `get` is the linear lookup, with the default account for a missing key.
pub get-eq-find :
    (s : State) (k : Address) → IsOrdered s.accounts → get s k ≡ or_default (find s.accounts k)
unfolding get
get-eq-find s k h =
    ground (arith, binary_search-eq-locate s.accounts k h, read_at-locate s.accounts k h)

-- On ordered accounts `set` is the ordered insertion.
pub set-eq-put :
    (s : State) (k : Address) (x : Account)
    → IsOrdered s.accounts
    → (set s k x).accounts ≡ put s.accounts k x
unfolding set
set-eq-put s k x h =
    ground (arith, binary_search-eq-locate s.accounts k h, write_at-locate s.accounts k x)
