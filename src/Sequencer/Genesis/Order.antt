-- ===== src/Sequencer/Genesis/Order.antt =====
-- The order of the entries in a genesis file of crates/sequencer/src/genesis.rs.
use mathlib.Core.List.{Permᴰ}
use mathlib.Core.List.Permᴰ.{nil, cons, swap, trans}
use mathlib.Core.Path.{subst}
use zk_rollup.Base.{◌≡◌, ◌∙◌, refl, sym, ap, [], ◌∷◌, List, All, ok}
use zk_rollup.Types.Address.{Address, addr_eq_of_ne}
use zk_rollup.Types.Search.Locate.{IsOrdered}
use zk_rollup.Types.State.{State, set, new_state}
use zk_rollup.Types.State.Laws.{set-IsOrdered}
use zk_rollup.Types.State.Canonical.{set_comm}
use zk_rollup.Types.Text.{Hex, from_hex}
use zk_rollup.Sequencer.Genesis.{GenesisAccount, Genesis, load_accounts, into_state}
use zk_rollup.Sequencer.Genesis.Startup.{account_of, load_accounts_inv, new_state-IsValid}

All-Perm {ℓ κ} : {A : Type ℓ} (P : A → Type κ) {xs ys : List A} → Permᴰ xs ys → All P xs → All P ys
All-Perm P nil h = tt
All-Perm P (cons e perm) h = (rw (sym e) h.0, All-Perm P perm h.1)
All-Perm P (swap d e) h = (rw (sym e) h.1.0, (rw (sym d) h.0, h.1.1))
All-Perm P (trans before next) h = All-Perm P next (All-Perm P before h)

module _ ⦃h : Hex⦄ where
  -- the texts of two entries name different addresses, where both name one
  abbrev pub Apart : GenesisAccount → GenesisAccount → Type 0
  Apart x y = (a b : Address) → from_hex x.address ≡ ok a → from_hex y.address ≡ ok b → ¬ (a ≡ b)

  -- no two entries name one address
  abbrev pub AllApart : List GenesisAccount → Type 0
  AllApart [] = Unit
  AllApart (x ∷ xs) = All (Apart x) xs × AllApart xs

  Apart-sym : (x y : GenesisAccount) → Apart x y → Apart y x
  Apart-sym x y apart a b p q same = apart b a q p (sym same)

  AllApart-Perm : {xs ys : List GenesisAccount} → Permᴰ xs ys → AllApart xs → AllApart ys
  AllApart-Perm nil d = tt
  AllApart-Perm (cons e perm) d = (rw (sym e) (All-Perm _ perm d.0), AllApart-Perm perm d.1)
  AllApart-Perm (swap {a = a} {b = b} {l = l} p q) d =
      subst AllApart (λ i. q i ∷ p i ∷ l) ((Apart-sym a b d.0.0, d.1.0), (d.0.1, d.1.1))
  AllApart-Perm (trans before next) d = AllApart-Perm next (AllApart-Perm before d)

  load_accounts_step :
      (x : GenesisAccount) (es : List GenesisAccount) (s : State) (a : Address)
      → from_hex x.address ≡ ok a
      → load_accounts (x ∷ es) s ≡ load_accounts es (set s a (account_of x))
  unfolding load_accounts
  load_accounts_step x es s a p = rw p refl

  load_accounts-swap :
      (x y : GenesisAccount) (es : List GenesisAccount) (s t : State)
      → IsOrdered s.accounts
      → Apart x y
      → load_accounts (x ∷ y ∷ es) s ≡ ok t
      → load_accounts (y ∷ x ∷ es) s ≡ ok t
  load_accounts-swap x y es s t o apart e =
      let (a, p, e1) = load_accounts_inv x (y ∷ es) s t e in
      let (b, q, e2) = load_accounts_inv y es (set s a (account_of x)) t e1 in
      let moved =
        set_comm s a b (account_of x) (account_of y) o (addr_eq_of_ne a b (apart a b p q)) in
      load_accounts_step y (x ∷ es) s b q
      ∙ (load_accounts_step x es (set s b (account_of y)) a p
          ∙ (ap (load_accounts es) (sym moved) ∙ e2))

  load_accounts-Perm :
      {xs ys : List GenesisAccount} (s t : State)
      → IsOrdered s.accounts
      → Permᴰ xs ys
      → AllApart xs
      → load_accounts xs s ≡ ok t
      → load_accounts ys s ≡ ok t
  load_accounts-Perm s t o nil d e = e
  load_accounts-Perm s t o (cons {a = x} {l₁ = xs} same perm) d e =
      let (a, p, rest) = load_accounts_inv x xs s t e in
      rw (sym same) (
        load_accounts_step x _ s a p
        ∙ load_accounts-Perm (set s a (account_of x)) t (set-IsOrdered s a (account_of x) o) perm
            d.1 rest)
  load_accounts-Perm s t o (swap {a = x} {b = y} {l = es} p q) d e =
      rw (sym p, sym q) (load_accounts-swap x y es s t o d.0.0 e)
  load_accounts-Perm s t o (trans before next) d e =
      load_accounts-Perm s t o next (AllApart-Perm before d) (load_accounts-Perm s t o before d e)

  -- The state of a genesis, and with it the root that the contract is deployed with, does not
  -- depend on the order of the entries, if no two of them name one address: a permuted file loads
  -- as well, and gives the same state.
  pub into_state-Perm :
      (g d : Genesis) (t : State)
      → Permᴰ g.accounts d.accounts
      → AllApart g.accounts
      → into_state g ≡ ok t
      → into_state d ≡ ok t
  unfolding into_state
  into_state-Perm g d t perm apart e =
      load_accounts-Perm new_state t new_state-IsValid.ordered perm apart e
