-- ===== src/Stf.antt =====
-- The state transition function: crates/stf/src/lib.rs.
pub mod Monad
pub mod Transfer
pub mod Effect
pub mod Run
pub mod Ledger
pub mod Replay
pub mod Batches
pub mod Abstract
pub mod Wrapped
use zk_rollup.Base.{
  ℕ, ◌+◌, ◌-◌, ◌%◌, List, [], ◌∷◌, Option, none, some, Result, ok, err, not, ltb, ◌==◌,
  if◌then◌else◌, fail_if, map_err,
}
use zk_rollup.Types.Address.{Address, addr_eq}
use zk_rollup.Types.Bytes.{Bytes, Hash, u64_mod}
use zk_rollup.Types.Crypto.{Crypto}
use zk_rollup.Types.Search.{Account}
use zk_rollup.Types.State.{State, get, set, merkle_root}
use zk_rollup.Types.Tx.{Tx, Batch, RecoverError, signing_hash, batch_hash, recover_address, ok_or}
use Monad.{
  StfError, bad_signature, nonce_mismatch, insufficient_balance, overflow, self_transfer, Action,
  ◌>>=◌, ◌>>◌, lift, gets, modify,
}

-- `impl From<RecoverError> for StfError`
abbrev pub from_recover_error : RecoverError → StfError
from_recover_error _ = bad_signature

-- `u64::checked_add`
abbrev pub checked_add : ℕ → ℕ → Option ℕ
checked_add a b = if ltb (a + b) u64_mod then some (a + b) else none

-- `+=` on a `u64` in the release profile, which has no overflow checks
abbrev pub wrapping_add : ℕ → ℕ → ℕ
wrapping_add a b = (a + b) % u64_mod

-- `struct PublicValuesStruct` of crates/shared-types/src/lib.rs
pub record PublicValues : Type 0 where
  pub prev_root : Hash
  pub new_root : Hash
  pub batch_hash : Hash

pub record ApplyOutput : Type 0 where
  pub new_state : State
  pub public_values : PublicValues

module _ ⦃c : Crypto⦄ where
  unfoldable pub apply_tx : Tx → Action (Unit {0})
  apply_tx tx = do
    lift (fail_if (addr_eq tx.from tx.to) self_transfer)
    recovered ← lift (map_err from_recover_error (recover_address (signing_hash tx) tx.signature))
    lift (fail_if (not (addr_eq recovered tx.from)) bad_signature)
    from_acc ← gets (λ s. get s tx.from)
    lift (fail_if (not (from_acc.nonce == tx.nonce)) (nonce_mismatch from_acc.nonce tx.nonce))
    lift
        (fail_if (ltb from_acc.balance tx.amount) (insufficient_balance from_acc.balance tx.amount))
    to_acc ← gets (λ s. get s tx.to)
    new_to_balance ← lift (ok_or (checked_add to_acc.balance tx.amount) overflow)
    modify (λ s.
        set s tx.from (record {
          balance = from_acc.balance - tx.amount;
          nonce = wrapping_add from_acc.nonce 1;
        }))
    modify (λ s. set s tx.to (record to_acc { balance = new_to_balance }))

  -- `for tx in &batch.txs { apply_tx(&mut state, tx)?; }`
  unfoldable pub apply_all : List Tx → Action (Unit {0})
  apply_all [] = lift (ok tt)
  apply_all (tx ∷ txs) = apply_tx tx >> apply_all txs

  unfoldable pub apply_batch : State → Batch → Result ApplyOutput StfError
  apply_batch prev_state batch =
      let (r, state) = apply_all batch.txs prev_state in
      elim r [
        | err e ↦ err e
        | ok _ ↦ ok (record {
          new_state = state;
          public_values = record {
            prev_root = merkle_root prev_state;
            new_root = merkle_root state;
            batch_hash = batch_hash batch;
          };
        })
      ]
