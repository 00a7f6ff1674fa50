-- ===== src/Sequencer/Genesis/Bag.antt =====
-- A genesis of crates/sequencer/src/genesis.rs whose entries name different addresses is a set of
-- accounts: its file lists them in some order, which is forgotten.
use mathlib.Core.Quot
use mathlib.Core.Quot.{Quot, Quot-set}
use mathlib.Core.List.{Permᴰ}
use mathlib.Core.List.Permᴰ
use zk_rollup.Base.{
  ◌≡◌, ◌↔◌, ◌∙◌, ap, refl, Result, ok, err, Option, none, some, Result-cases, inl, inr,
}
use zk_rollup.Types.State.{State}
use zk_rollup.Types.Text.{Hex}
use zk_rollup.Sequencer.Genesis.{Genesis, into_state}
use zk_rollup.Sequencer.Genesis.Order.{AllApart, into_state-Perm}

-- a result without its error
abbrev pub to_option {ℓ κ} : {A : Type ℓ} {E : Type κ} → Result A E → Option A
to_option (ok a) = some a
to_option (err e) = none

module _ ⦃h : Hex⦄ where
  -- a file whose entries name different addresses
  pub record Listing : Type 0 where
    pub genesis : Genesis
    pub apart : AllApart genesis.accounts

  abbrev pub SameEntries : Listing → Listing → Type 0
  SameEntries l m = Permᴰ l.genesis.accounts m.genesis.accounts

  -- the accounts, whatever the order in which a file lists them
  abbrev pub Allocation : Type 0
  Allocation = Quot SameEntries

  -- the state that a listing gives
  abbrev pub listed : Listing → Option State
  listed l = to_option (into_state l.genesis)

  pub listed-Perm : (l m : Listing) → SameEntries l m → listed l ≡ listed m
  listed-Perm l m perm = elim (Result-cases (into_state l.genesis)) [
    | inl (t, p) ↦ rw (p, into_state-Perm l.genesis m.genesis t perm l.apart p) refl
    | inr (e, p) ↦ elim (Result-cases (into_state m.genesis)) [
      | inr (d, q) ↦ rw (p, q) refl
      | inl (t, q) ↦ cc (into_state-Perm m.genesis l.genesis t (Permᴰ.symm perm) m.apart q)
    ]
  ]

  -- the state that an allocation gives
  unfoldable pub state_of : Allocation → Option State
  state_of = Quot.lift (hlevel) listed listed-Perm

  abbrev pub of_listing : Listing → Allocation
  of_listing = Quot.mk

  to_option-ok : {E : Type 0} (r : Result State E) (t : State) → (to_option r ≡ some t) ↔ (r ≡ ok t)
  to_option-ok (ok s) t = (λ e. cc, λ e. cc)
  to_option-ok (err e) t = (λ e. cc, λ e. cc)

  every_listing :
      (t : State) (x : Allocation)
      → ((l : Listing) → of_listing l ≡ x → into_state l.genesis ≡ ok t)
      → state_of x ≡ some t
  unfolding state_of
  every_listing t =
      Quot.ind (λ _. hlevel) λ l every. (to_option-ok (into_state l.genesis) t).1 (every l refl)

  -- The state of a genesis, and with it the root that the contract is deployed with, does not depend
  -- on the order in which a file lists the accounts: an allocation of accounts to different addresses
  -- gives a state exactly if every file that lists it, in whatever order, loads and gives that state.
  pub state_of-into_state :
      (x : Allocation) (t : State)
      → (state_of x ≡ some t) ↔ ((l : Listing) → of_listing l ≡ x → into_state l.genesis ≡ ok t)
  unfolding state_of
  state_of-into_state x t = (
    λ e l same. (to_option-ok (into_state l.genesis) t).0 (ap state_of same ∙ e),
    every_listing t x,
  )
