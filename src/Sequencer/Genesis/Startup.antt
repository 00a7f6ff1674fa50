-- ===== src/Sequencer/Genesis/Startup.antt =====
-- The state that `Genesis::into_state` of crates/sequencer/src/genesis.rs gives.
use zk_rollup.Base.{
  ◌<◌, ◌≡◌, refl, List, [], ◌∷◌, All, ok, err, arith, if◌then◌else◌, Result-cases, inl, inr,
}
use zk_rollup.Types.Address.{Address, addr_eq}
use zk_rollup.Types.Bytes.{u64_mod}
use zk_rollup.Types.Search.{Account}
use zk_rollup.Types.State.{State, get, set, new_state, default_account}
use zk_rollup.Types.State.Laws.{IsValid, set-IsValid, get-set}
use zk_rollup.Types.Text.{Hex, IsLawfulHex, from_hex}
use zk_rollup.Types.Text.RoundTrip.{from_hex-IsAddress}
use zk_rollup.Sequencer.Genesis.{GenesisAccount, Genesis, load_accounts, into_state}

-- What the type `u64` says of the numbers of an entry.
abbrev pub HasWords : GenesisAccount → Type 0
HasWords e = (e.balance < u64_mod) × (e.nonce < u64_mod)

abbrev pub account_of : GenesisAccount → Account
account_of e = record { balance = e.balance; nonce = e.nonce }

module _ ⦃h : Hex⦄ where
  -- the entry of a list that speaks of an address: the last one
  pub last_entry : List GenesisAccount → Address → Account → Account
  last_entry [] k x = x
  last_entry (e ∷ es) k x = elim (from_hex e.address) [
    | ok a ↦ last_entry es k (if addr_eq k a then account_of e else x)
    | err _ ↦ last_entry es k x
  ]

  last_entry_read :
      (x : GenesisAccount) (es : List GenesisAccount) (k a : Address) (y : Account)
      → from_hex x.address ≡ ok a
      → last_entry (x ∷ es) k y ≡ last_entry es k (if addr_eq k a then account_of x else y)
  unfolding last_entry
  last_entry_read x es k a y p = ground arith

  pub load_accounts_inv :
      (x : GenesisAccount) (es : List GenesisAccount) (s t : State)
      → load_accounts (x ∷ es) s ≡ ok t
      → (a : Address) × (from_hex x.address ≡ ok a)
        × (load_accounts es (set s a (account_of x)) ≡ ok t)
  unfolding load_accounts
  load_accounts_inv x es s t e = elim (Result-cases (from_hex x.address)) [
    | inl (a, p) ↦ (a, p, ground arith)
    | inr (d, p) ↦ absurd (ground arith)
  ]

  pub load_accounts-nil : (s t : State) → load_accounts [] s ≡ ok t → s ≡ t
  unfolding load_accounts
  load_accounts-nil s t e = cc

  load_accounts-IsValid :
      (es : List GenesisAccount) (s t : State)
      → IsLawfulHex h
      → All HasWords es
      → IsValid s
      → load_accounts es s ≡ ok t
      → IsValid t
  load_accounts-IsValid [] s t law w v e = rw (← load_accounts-nil s t e) v
  load_accounts-IsValid (x ∷ es) s t law w v e =
      let (a, p, rest) = load_accounts_inv x es s t e in
      load_accounts-IsValid es (set s a (account_of x)) t law w.1
        (set-IsValid s a (account_of x) v (from_hex-IsAddress x.address a law p, w.0.0, w.0.1)) rest

  get-load_accounts :
      (es : List GenesisAccount) (s t : State) (k : Address)
      → IsLawfulHex h
      → All HasWords es
      → IsValid s
      → load_accounts es s ≡ ok t
      → get t k ≡ last_entry es k (get s k)
  unfolding last_entry
  get-load_accounts [] s t k law w v e = rw (load_accounts-nil s t e)
  get-load_accounts (x ∷ es) s t k law w v e =
      let (a, p, rest) = load_accounts_inv x es s t e in
      let v' =
        set-IsValid s a (account_of x) v (from_hex-IsAddress x.address a law p, w.0.0, w.0.1) in
      rw (last_entry_read x es k a (get s k) p) (
        rw (← get-set s a k (account_of x) v.ordered)
          (get-load_accounts es (set s a (account_of x)) t k law w.1 v' rest))

  pub new_state-IsValid : IsValid new_state
  new_state-IsValid = record { ordered = tt; entries = tt }

  get-new_state : (k : Address) → get new_state k ≡ default_account
  unfolding get
  get-new_state k = refl

  -- A genesis of 64-bit balances and nonces that loads gives a valid state, in which every address
  -- has the account of the last entry that names it, and the default account if none does.
  pub into_state-IsValid :
      (g : Genesis) (t : State)
      → IsLawfulHex h
      → All HasWords g.accounts
      → into_state g ≡ ok t
      → IsValid t × ((k : Address) → get t k ≡ last_entry g.accounts k default_account)
  unfolding into_state
  into_state-IsValid g t law w e = (
    load_accounts-IsValid g.accounts new_state t law w new_state-IsValid e,
    λ k.
        rw (← get-new_state k)
          (get-load_accounts g.accounts new_state t k law w new_state-IsValid e),
  )
