-- ===== src/Rollup.antt =====
-- The settlement contract: contracts/src/Rollup.sol. A call that reverts leaves the state as it was.
pub mod Calls
pub mod Chain
pub mod History
pub mod Lockstep
pub mod Ownership
use zk_rollup.Base.{
  ℕ, List, [], ◌∷◌, Result, ok, err, ◌>>=◌, ◌>>◌, map_err, fail_if, not, ltb, Option, none, some,
  if◌then◌else◌, length, take, drop, replicate,
}
use zk_rollup.Types.Address.{Address, addr_eq, zero_address}
use zk_rollup.Types.Bytes.{Bytes, Hash, bytes_eq}
use zk_rollup.Types.Tx.{ok_or}
use zk_rollup.Stf.{PublicValues, wrapping_add}

-- `ISP1Verifier.verifyProof` at an address: it returns, or reverts for a reason of its own
pub record Verifier : Type 1 where
  pub Fault : Type 0
  pub verify_proof : Address → Hash → Bytes → Bytes → Result (Unit {0}) Fault

-- the contract's storage and its two immutables
pub record Rollup : Type 0 where
  pub program_vkey : Hash
  pub verifier : Address
  pub state_root : Hash
  pub batch_count : ℕ

pub record BatchSettled : Type 0 where
  pub batch_number : ℕ
  pub prev_root : Hash
  pub new_root : Hash
  pub batch_hash : Hash

-- the arguments of a call of `submitBatch`
pub record Submission : Type 0 where
  pub public_values : Bytes
  pub proof_bytes : Bytes

-- `bytes32(0)`
abbrev pub zero_word : Hash
zero_word = replicate 32 0

-- `abi.decode(publicValues, (bytes32, bytes32, bytes32))`, which ignores what follows the words
unfoldable pub decode_words : Bytes → Option PublicValues
decode_words b =
    if ltb (length b) 96
    then none
    else some (record {
      prev_root = take 32 b;
      new_root = take 32 (drop 32 b);
      batch_hash = take 32 (drop 64 b);
    })

module _ ⦃v : Verifier⦄ where
  pub data Revert : Type 0 where
    zero_verifier : Revert
    zero_program_vkey : Revert
    proof_refused : v.Fault → Revert
    not_decodable : Revert
    -- expected, actual
    stale_state_root : Hash → Hash → Revert
    empty_new_root : Revert

  -- the constructor
  unfoldable pub deploy : Address → Hash → Hash → Result Rollup Revert
  deploy verifier program_vkey genesis_root = do
    fail_if (addr_eq verifier zero_address) zero_verifier
    fail_if (bytes_eq program_vkey zero_word) zero_program_vkey
    ok (record {
      program_vkey = program_vkey;
      verifier = verifier;
      state_root = genesis_root;
      batch_count = 0;
    })

  -- what the body of `submitBatch` emits, and the state that it leaves
  unfoldable pub submit_batch : Submission → Rollup → Result (BatchSettled × Rollup) Revert
  submit_batch call s = do
    map_err proof_refused
        (v.verify_proof s.verifier s.program_vkey call.public_values call.proof_bytes)
    values ← ok_or (decode_words call.public_values) not_decodable
    fail_if (not (bytes_eq values.prev_root s.state_root))
        (stale_state_root s.state_root values.prev_root)
    fail_if (bytes_eq values.new_root zero_word) empty_new_root
    let settled = record s {
      state_root = values.new_root;
      batch_count = wrapping_add s.batch_count 1;
    }
    ok (
      record {
        batch_number = settled.batch_count;
        prev_root = values.prev_root;
        new_root = values.new_root;
        batch_hash = values.batch_hash;
      },
      settled,
    )

  -- the state after a transaction that calls `submitBatch`
  unfoldable pub after_call : Submission → Rollup → Rollup
  after_call call s = elim (submit_batch call s) [ ok (event, next) ↦ next | err e ↦ s ]

  -- the state after transactions in the order of their blocks, whoever sends them
  unfoldable pub after_calls : List Submission → Rollup → Rollup
  after_calls [] s = s
  after_calls (call ∷ calls) s = after_calls calls (after_call call s)
