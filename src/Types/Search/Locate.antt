-- ===== src/Types/Search/Locate.antt =====
-- The binary search of the accounts against a linear scan: on accounts in strictly rising order
-- both give the same answer.
use zk_rollup.Base.{
  ℕ, zero, suc, ◌+◌, ◌-◌, ◌/◌, ◌≤◌, ◌<◌, ◌≡◌, refl, ◌≢◌, ◌⊎◌, inl, inr, lt, eq, gt, Ordering, List,
  [], ◌∷◌, length, All, Result, ok, err, arith, ltb, ◌==◌, false, Bool-cases,
}
use zk_rollup.Types.Address.{Address, addr_cmp}
use zk_rollup.Types.Order.{lt_trans, gt_of_lt, lt_of_gt, eq_of_cmp}
use zk_rollup.Types.Search.{Entry, cmp_at, narrow, search_loop, finish, binary_search}

-- every key lies above `k`
abbrev pub Above : Address → List Entry → Type 0
Above k l = All (λ e. addr_cmp k e.0 ≡ lt) l

-- strictly rising keys
abbrev pub IsOrdered : List Entry → Type 0
IsOrdered [] = Unit
IsOrdered (e ∷ l) = Above e.0 l × IsOrdered l

abbrev pub shift : Result ℕ ℕ → Result ℕ ℕ
shift (ok i) = ok (suc i)
shift (err i) = err (suc i)

-- The reference: scan from the left, and stop at the first key that is not below the one sought.
unfoldable pub locate : List Entry → Address → Result ℕ ℕ
locate [] k = err 0
locate (e ∷ l) k = elim (addr_cmp e.0 k) [ lt ↦ shift (locate l k) | eq ↦ ok 0 | gt ↦ err 0 ]

-- a key at or below the one sought, past the head, leaves the head below it
head_below :
    (e : Entry) (l : List Entry) (k : Address) (i : ℕ)
    → Above e.0 l
    → cmp_at l k i ≢ gt
    → addr_cmp e.0 k ≡ lt
head_below e [] k i a h = absurd (h refl)
head_below e (d ∷ l) k zero a h =
    ground (arith, lt_trans e.0.bytes d.0.bytes k.bytes, eq_of_cmp d.0.bytes k.bytes, a.0)
head_below e (d ∷ l) k (suc i) a h = head_below e l k i a.1 h

locate-found :
    (l : List Entry) (k : Address) (i : ℕ) → IsOrdered l → cmp_at l k i ≡ eq → locate l k ≡ ok i
unfolding locate
locate-found [] k i s h = cc
locate-found (e ∷ l) k zero s h = ground arith
locate-found (e ∷ l) k (suc i) s h =
    ground (arith, head_below e l k i s.0, locate-found l k i s.1 h)

locate_first : (l : List Entry) (k : Address) → cmp_at l k 0 ≡ gt → locate l k ≡ err 0
unfolding locate
locate_first [] k h = refl
locate_first (e ∷ l) k h = ground arith

-- the place between a lower key and a greater one, or the end
locate_between :
    (l : List Entry) (k : Address) (i : ℕ)
    → IsOrdered l
    → cmp_at l k i ≡ lt
    → cmp_at l k (suc i) ≡ gt
    → locate l k ≡ err (suc i)
unfolding locate
locate_between [] k i s low high = cc
locate_between (e ∷ l) k zero s low high = ground (arith, locate_first l k high)
locate_between (e ∷ l) k (suc i) s low high =
    ground (arith, head_below e l k i s.0, locate_between l k i s.1 low high)

Above-gt :
    (l : List Entry) (a k : Address) (j : ℕ) → Above a l → addr_cmp a k ≡ gt → cmp_at l k j ≡ gt
Above-gt [] a k j h g = refl
Above-gt (d ∷ l) a k zero h g =
    gt_of_lt k.bytes d.0.bytes (lt_trans k.bytes a.bytes d.0.bytes (lt_of_gt a.bytes k.bytes g) h.0)
Above-gt (d ∷ l) a k (suc j) h g = Above-gt l a k j h.1 g

-- past a greater key all keys are greater
cmp_at_mono :
    (l : List Entry) (k : Address) (i j : ℕ)
    → IsOrdered l
    → i ≤ j
    → cmp_at l k i ≡ gt
    → cmp_at l k j ≡ gt
cmp_at_mono [] k i j s h g = refl
cmp_at_mono (e ∷ l) k zero zero s h g = g
cmp_at_mono (e ∷ l) k zero (suc j) s h g = Above-gt l e.0 k j s.0 g
cmp_at_mono (e ∷ l) k (suc i) zero s h g = absurd (omega arith)
cmp_at_mono (e ∷ l) k (suc i) (suc j) s h g = cmp_at_mono l k i j s.1 (omega arith) g

Ordering-cases : (o : Ordering) → (o ≡ gt) ⊎ ((o ≢ gt) × ((base mid : ℕ) → narrow o base mid ≡ mid))
Ordering-cases lt = inr (λ h. cc, λ base mid. refl)
Ordering-cases eq = inr (λ h. cc, λ base mid. refl)
Ordering-cases gt = inl refl

-- What the loop ends on: the key after it is greater, and it is itself not, unless it is the first.
abbrev IsPlace : List Entry → Address → ℕ → Type 0
IsPlace l k b = (cmp_at l k (suc b) ≡ gt) × ((b ≡ 0) ⊎ (cmp_at l k b ≢ gt))

-- `size` rounds at most are needed, and the loop has them
search_loop-IsPlace :
    (fuel : ℕ) (l : List Entry) (k : Address) (base size : ℕ)
    → IsOrdered l
    → 0 < size
    → size ≤ fuel
    → cmp_at l k (base + size) ≡ gt
    → (base ≡ 0) ⊎ (cmp_at l k base ≢ gt)
    → IsPlace l k (search_loop fuel l k base size)
unfolding search_loop
search_loop-IsPlace zero l k base size s pos f high low = absurd (omega arith)
search_loop-IsPlace (suc fuel) l k base size s pos f high low = elim (Bool-cases (ltb 1 size)) [
  | inr small ↦ rw small (rw (let e : suc base ≡ base + size = ground arith in e) high, low)
  | inl more ↦ rw more (elim (Ordering-cases (cmp_at l k (base + size / 2))) [
    | inl greater ↦ rw greater (
        search_loop-IsPlace fuel l k base (size - size / 2) s (ground arith) (ground arith)
          (cmp_at_mono l k (base + size / 2) (base + (size - size / 2)) s (ground arith) greater)
          low)
    | inr (not_greater, e) ↦ rw e (
        search_loop-IsPlace fuel l k (base + size / 2) (size - size / 2) s (ground arith)
          (ground arith)
          (rw (let q : base + size / 2 + (size - size / 2) ≡ base + size = omega arith in q) high)
          (inr not_greater))
  ])
]

finish-eq-locate :
    (l : List Entry) (k : Address) (b : ℕ)
    → IsOrdered l
    → IsPlace l k b
    → finish (cmp_at l k b) b ≡ locate l k
unfolding finish
finish-eq-locate l k b s h =
    ground (arith, locate-found l k b s, locate_between l k b s, locate_first l k)

past_end : (l : List Entry) (k : Address) → cmp_at l k (length l) ≡ gt
past_end [] k = refl
past_end (e ∷ l) k = past_end l k

not_zero : (n : ℕ) → (suc n == 0) ≡ false
not_zero n = ground arith

-- On accounts in strictly rising order the binary search gives the answer of the scan from the left:
-- the index of the key, or the index at which it is to be inserted.
pub binary_search-eq-locate :
    (l : List Entry) (k : Address) → IsOrdered l → binary_search l k ≡ locate l k
unfolding binary_search locate
binary_search-eq-locate [] k s = refl
binary_search-eq-locate (e ∷ l) k s =
    let n = length (e ∷ l) in
    rw (not_zero (length l)) (
      finish-eq-locate (e ∷ l) k (search_loop n (e ∷ l) k 0 n) s (
        search_loop-IsPlace n (e ∷ l) k 0 n s (omega arith) (omega arith)
          (rw (let q : 0 + n ≡ n = omega arith in q) (past_end (e ∷ l) k)) (inl refl)))
