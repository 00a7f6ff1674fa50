-- ===== src/Types/State.antt =====
-- `struct State` and its methods.
pub mod Lookup
pub mod Laws
pub mod Canonical
pub mod Binding
use zk_rollup.Base.{ℕ, zero, suc, List, [], ◌∷◌, ◌++◌, get_elem?, none, some, Result, ok, err}
use zk_rollup.Types.Address.{Address}
use zk_rollup.Types.Bytes.{Bytes, Hash, to_be_bytes}
use zk_rollup.Types.Crypto.{Crypto}
use zk_rollup.Types.Search.{Account, Entry, binary_search}

pub record State : Type 0 where
  pub accounts : List Entry

-- `Account::default()`
abbrev pub default_account : Account
default_account = record { balance = 0; nonce = 0 }

-- `State::new()`
abbrev pub new_state : State
new_state = record { accounts = [] }

-- `accounts[idx].1`; the index comes from the search, so the read is in bounds
abbrev pub account_at : List Entry → ℕ → Account
account_at l i = elim (get_elem? l i) [ none ↦ default_account | some e ↦ e.1 ]

-- `accounts[idx].1 = account`
abbrev pub set_account_at : List Entry → ℕ → Account → List Entry
set_account_at [] i x = []
set_account_at (e ∷ l) zero x = (e.0, x) ∷ l
set_account_at (e ∷ l) (suc i) x = e ∷ set_account_at l i x

-- `Vec::insert`; an index past the end would panic, and appends here
abbrev pub insert_at {ℓ} : {A : Type ℓ} → List A → ℕ → A → List A
insert_at l zero x = x ∷ l
insert_at [] (suc i) x = x ∷ []
insert_at (e ∷ l) (suc i) x = e ∷ insert_at l i x

unfoldable pub get : State → Address → Account
unfolding binary_search
get s addr = elim (binary_search s.accounts addr) [
  | ok idx ↦ account_at s.accounts idx
  | err _ ↦ default_account
]

unfoldable pub set : State → Address → Account → State
unfolding binary_search
set s addr account = record {
  accounts = elim (binary_search s.accounts addr) [
    | ok idx ↦ set_account_at s.accounts idx account
    | err idx ↦ insert_at s.accounts idx (addr, account)
  ];
}

-- addr || balance_be || nonce_be
abbrev pub encode_entry : Entry → Bytes
encode_entry (addr, acc) = addr.bytes ++ (to_be_bytes acc.balance ++ to_be_bytes acc.nonce)

-- what the loop of `merkle_root` feeds to the hasher
unfoldable pub encode_accounts : List Entry → Bytes
encode_accounts [] = []
encode_accounts (e ∷ l) = encode_entry e ++ encode_accounts l

module _ ⦃c : Crypto⦄ where
  unfoldable pub merkle_root : State → Hash
  merkle_root s = c.keccak (encode_accounts s.accounts)
