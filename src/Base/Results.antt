-- ===== src/Base/Results.antt =====
-- Rust's `Result<T, E>`: its constructors, `?` as the bind of a do block, and `map_err`.
use mathlib.Core.Path.{◌≡◌, refl}
use mathlib.Core.Logic.{◌⊎◌, inl, inr}
use mathlib.Core.Bool.{Bool, true, false}

pub data Result {ℓ κ} (A : Type ℓ) (E : Type κ) : Type (ℓ ⊔ κ) where
  ok : A → Result A E
  err : E → Result A E

infixl 5 ◌>>=◌ ◌>>◌
abbrev pub ◌>>=◌ : {A B E : Type 0} → Result A E → (A → Result B E) → Result B E
ok a >>= f = f a
err e >>= f = err e

abbrev pub ◌>>◌ : {A B E : Type 0} → Result A E → Result B E → Result B E
m >> k = m >>= λ _. k

abbrev pub map_err : {A E F : Type 0} → (E → F) → Result A E → Result A F
map_err f (ok a) = ok a
map_err f (err e) = err (f e)

-- `if c { return Err(e); }`
abbrev pub fail_if : {E : Type 0} → Bool → E → Result (Unit {0}) E
fail_if true e = err e
fail_if false e = ok tt

abbrev pub is_ok : {A E : Type 0} → Result A E → Bool
is_ok (ok _) = true
is_ok (err _) = false

pub Result-cases :
    {A E : Type 0} (r : Result A E) → ((a : A) × (r ≡ ok a)) ⊎ ((e : E) × (r ≡ err e))
Result-cases (ok a) = inl (a, refl)
Result-cases (err e) = inr (e, refl)

-- What a bind that succeeded went through: both steps succeeded.
pub >>=-eq-ok :
    {A B E : Type 0} (first : Result A E) (next : A → Result B E) {y : B}
    → first >>= next ≡ ok y
    → (x : A) × (first ≡ ok x) × (next x ≡ ok y)
>>=-eq-ok (err e) next is_ok = cc
>>=-eq-ok (ok x) next is_ok = (x, refl, is_ok)

pub map_err-eq-ok :
    {A E F : Type 0} (f : E → F) (m : Result A E) {a : A} → map_err f m ≡ ok a → m ≡ ok a
map_err-eq-ok f (ok b) h = cc
map_err-eq-ok f (err e) h = cc
