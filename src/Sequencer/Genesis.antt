-- ===== src/Sequencer/Genesis.antt =====
-- crates/sequencer/src/genesis.rs. Reading a file and serde_json are an interface.
pub mod Startup
pub mod ComputeRoot
pub mod Order
pub mod Bag
use zk_rollup.Base.{ℕ, List, [], ◌∷◌, Result, ok, ◌>>=◌, map_err}
use zk_rollup.Types.Bytes.{Bytes}
use zk_rollup.Types.State.{State, set, new_state}
use zk_rollup.Types.Text.{Text, Hex, from_hex}

pub record GenesisAccount : Type 0 where
  pub address : Text
  pub balance : ℕ
  pub nonce : ℕ

pub record Genesis : Type 0 where
  pub accounts : List GenesisAccount

-- `std::fs::read` and `serde_json::from_slice` of a `Genesis`
pub record Files : Type 1 where
  pub IoError : Type 0
  pub JsonError : Type 0
  pub read : Text → Result Bytes IoError
  pub from_slice : Bytes → Result Genesis JsonError

module _ ⦃f : Files⦄ where
  pub data LoadError : Type 0 where
    -- "read genesis file", "parse genesis JSON"
    not_read : Text → f.IoError → LoadError
    not_parsed : f.JsonError → LoadError

  -- `Genesis::load`
  unfoldable pub load : Text → Result Genesis LoadError
  load path = do
    bytes ← map_err (not_read path) (f.read path)
    map_err not_parsed (f.from_slice bytes)

module _ ⦃h : Hex⦄ where
  -- "bad genesis address"
  pub data BadAddress : Type 0 where
    bad_address : Text → h.FromHexError → BadAddress

  -- the loop of `Genesis::into_state`
  unfoldable pub load_accounts : List GenesisAccount → State → Result State BadAddress
  load_accounts [] state = ok state
  load_accounts (entry ∷ entries) state = do
    addr ← map_err (bad_address entry.address) (from_hex entry.address)
    load_accounts entries (set state addr (record { balance = entry.balance; nonce = entry.nonce }))

  unfoldable pub into_state : Genesis → Result State BadAddress
  unfolding load_accounts
  into_state g = load_accounts g.accounts new_state
