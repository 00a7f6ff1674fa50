-- ===== src/Sequencer/Genesis/ComputeRoot.antt =====
-- crates/sequencer/src/bin/compute_root.rs: its `main`, and the file that it has read.
use zk_rollup.Base.{◌≡◌, refl, Option, some, Result, ok, ◌>>=◌, map_err, map_err-eq-ok, >>=-eq-ok}
use zk_rollup.Types.Bytes.{Bytes}
use zk_rollup.Types.Crypto.{Crypto}
use zk_rollup.Types.State.{State, new_state, merkle_root}
use zk_rollup.Types.Text.{Text, Hex, hex0x}
use zk_rollup.Types.Tx.{ok_or}
use zk_rollup.Sequencer.Genesis.{Files, Genesis, BadAddress, load, load_accounts, into_state}

module _ ⦃f : Files⦄ ⦃h : Hex⦄ where
  pub data RootError : Type 0 where
    -- "usage: compute_root <genesis.json>"
    usage : RootError
    unreadable : Text → f.IoError → RootError
    no_genesis : f.JsonError → RootError
    bad_entry : BadAddress → RootError

module _ ⦃c : Crypto⦄ ⦃f : Files⦄ ⦃h : Hex⦄ where
  -- `main`, with the first argument: what it prints
  unfoldable pub compute_root : Option Text → Result Text RootError
  unfolding load_accounts
  compute_root argument = do
    path ← ok_or argument usage
    bytes ← map_err (unreadable path) (f.read path)
    genesis ← map_err no_genesis (f.from_slice bytes)
    state ← map_err bad_entry (load_accounts genesis.accounts new_state)
    ok (hex0x (merkle_root state))

  load_ok :
      (path : Text) (genesis : Genesis)
      → (bytes : Bytes) × (f.read path ≡ ok bytes) × (f.from_slice bytes ≡ ok genesis)
      → load path ≡ ok genesis
  unfolding load
  load_ok path genesis (bytes, p, q) = rw (p, q) refl

  -- What it has read if it prints something: a file that the sequencer loads as well.
  pub compute_root_inv :
      (path text : Text)
      → compute_root (some path) ≡ ok text
      → (genesis : Genesis) × (t : State) × (load path ≡ ok genesis)
        × (into_state genesis ≡ ok t)
        × (text ≡ hex0x (merkle_root t))
  unfolding compute_root into_state
  compute_root_inv path text e =
      let (bytes, p1, e1) = >>=-eq-ok (map_err (unreadable path) (f.read path)) _ e in
      let (genesis, p2, e2) = >>=-eq-ok (map_err no_genesis (f.from_slice bytes)) _ e1 in
      let (t, p3, e3) =
        >>=-eq-ok (map_err bad_entry (load_accounts genesis.accounts new_state)) _ e2 in
      (
        genesis,
        t,
        load_ok path genesis
            (bytes, map_err-eq-ok _ (f.read path) p1, map_err-eq-ok _ (f.from_slice bytes) p2),
        map_err-eq-ok _ (load_accounts genesis.accounts new_state) p3,
        cc (e3),
      )
