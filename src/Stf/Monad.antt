-- ===== src/Stf/Monad.antt =====
-- Code that changes a `State` in place and may return early with an error. What was written before
-- an early return stays written.
use zk_rollup.Base.{ℕ, Result, ok, err}
use zk_rollup.Types.State.{State}

pub data StfError : Type 0 where
  bad_signature : StfError
  -- expected, got
  nonce_mismatch : ℕ → ℕ → StfError
  -- have, need
  insufficient_balance : ℕ → ℕ → StfError
  overflow : StfError
  self_transfer : StfError

abbrev pub Action : Type 0 → Type 0
Action A = State → Result A StfError × State

-- A step sees what the steps before it wrote; `?` leaves the state as it is at that point.
infixl 5 ◌>>=◌ ◌>>◌
abbrev pub ◌>>=◌ : {A B : Type 0} → Action A → (A → Action B) → Action B
◌>>=◌ first next before =
    let (r, after) = first before in elim r [ err e ↦ (err e, after) | ok a ↦ next a after ]

abbrev pub lift : {A : Type 0} → Result A StfError → Action A
lift r s = (r, s)

abbrev pub ◌>>◌ : {A B : Type 0} → Action A → Action B → Action B
first >> next = first >>= λ _. next

abbrev pub gets : {A : Type 0} → (State → A) → Action A
gets read s = (ok (read s), s)

abbrev pub modify : (State → State) → Action (Unit {0})
modify write s = (ok tt, write s)
