-- ===== src/Routes.antt =====
-- The handlers of crates/sequencer/src/routes.rs. What the prover service and the contract answer,
-- and what other requests do while the lock is released, come from outside.
pub mod Requests
pub mod Batches
pub mod Decode
pub mod Commit
pub mod Settled
pub mod Effects
use zk_rollup.Base.{
  ℕ, Bool, true, false, List, [], ◌∷◌, map, Result, ok, err, ◌>>=◌, ◌>>◌, map_err, fail_if, not,
  ◌==◌, length, take, drop,
}
use zk_rollup.Types.Address.{Address}
use zk_rollup.Types.Bytes.{Bytes, Hash}
use zk_rollup.Types.Crypto.{Crypto}
use zk_rollup.Types.State.{State, get, merkle_root}
use zk_rollup.Types.Text.{Text, Hex, from_hex, to_hex, hex0x, hex_to_bytes, strip_0x}
use zk_rollup.Types.Tx.{Tx, Batch}
use zk_rollup.Stf.Monad.{StfError}
use zk_rollup.Prover.Service.{ProveResponse}
use zk_rollup.Sequencer.{
  SequencerState, CommitError, admit_tx, drain_for_batch, restore_mempool, commit_batch,
}

pub record TxRequest : Type 0 where
  pub from : Text
  pub to : Text
  pub amount : ℕ
  pub nonce : ℕ
  pub signature : Text

pub record TxResponse : Type 0 where
  pub accepted : Bool
  pub mempool_size : ℕ
  pub speculative_root : Text

pub record RootResponse : Type 0 where
  pub root : Text

pub record AccountResponse : Type 0 where
  pub address : Text
  pub balance : ℕ
  pub nonce : ℕ

pub record MempoolEntry : Type 0 where
  pub from : Text
  pub to : Text
  pub amount : ℕ
  pub nonce : ℕ

-- `struct SettleOutcome` of crates/sequencer/src/l1.rs
pub record SettleOutcome : Type 0 where
  pub tx_hash : Hash
  pub gas_used : ℕ
  pub block_number : ℕ

pub record BatchResponse : Type 0 where
  pub batch_number : ℕ
  pub txs : ℕ
  pub prev_root : Text
  pub new_root : Text
  pub batch_hash : Text
  pub l1_tx_hash : Hash
  pub l1_block : ℕ
  pub gas_used : ℕ

-- The answers to the two calls, and what other requests make of the state during the first call,
-- during the second, and between the commit and the response.
pub record Outside : Type 0 where
  pub prove : State → Batch → Result ProveResponse Text
  pub submit_batch : Bytes → Bytes → Result SettleOutcome Text
  pub proving : SequencerState → SequencerState
  pub settling : SequencerState → SequencerState
  pub responding : SequencerState → SequencerState

-- `s.mempool.is_empty()`
abbrev pub is_empty {ℓ} : {A : Type ℓ} → List A → Bool
is_empty [] = true
is_empty (x ∷ xs) = false

module _ ⦃h : Hex⦄ where
  -- the texts of the errors, by what they show
  pub data Message : Type 0 where
    bad_address : h.FromHexError → Message
    bad_from : h.FromHexError → Message
    bad_to : h.FromHexError → Message
    bad_signature_hex : h.FromHexError → Message
    signature_length : ℕ → Message
    rejected : StfError → Message
    mempool_is_empty : Message
    prove_failed : Text → Message
    decode_hex : h.FromHexError → Message
    public_values_length : ℕ → Message
    submit_failed : Text → Message
    commit_failed : Hash → CommitError → Message

  pub data ApiError : Type 0 where
    bad_request : Message → ApiError
    internal : Message → ApiError

  -- the status code of `into_response`
  abbrev pub status : ApiError → ℕ
  status (bad_request _) = 400
  status (internal _) = 500

  unfoldable pub into_tx : TxRequest → Result Tx ApiError
  into_tx req = do
    from ← map_err (λ e. bad_request (bad_from e)) (from_hex req.from)
    to ← map_err (λ e. bad_request (bad_to e)) (from_hex req.to)
    signature ← map_err (λ e. bad_request (bad_signature_hex e)) (h.decode (strip_0x req.signature))
    fail_if (not (length signature == 65)) (bad_request (signature_length (length signature)))
    ok (record {
      from = from;
      to = to;
      amount = req.amount;
      nonce = req.nonce;
      signature = signature;
    })

  unfoldable pub root : SequencerState → RootResponse
  unfolding hex0x
  root s = record { root = hex0x s.canonical_root }

  unfoldable pub account : Text → SequencerState → Result AccountResponse ApiError
  account addr_hex s = do
    addr ← map_err (λ e. bad_request (bad_address e)) (from_hex addr_hex)
    let acc = get s.canonical_state addr
    ok (record { address = to_hex addr; balance = acc.balance; nonce = acc.nonce })

  abbrev pub mempool_entry : Tx → MempoolEntry
  mempool_entry t = record {
    from = to_hex t.from;
    to = to_hex t.to;
    amount = t.amount;
    nonce = t.nonce;
  }

  unfoldable pub mempool : SequencerState → List MempoolEntry
  mempool s = map mempool_entry s.mempool

  -- What the sequencer takes from a prover's answer: the public values, the proof, and the new root
  -- that stands in the public values.
  unfoldable pub decode_response : ProveResponse → Result (Bytes × Bytes × Hash) ApiError
  decode_response prove = do
    pv_bytes ← map_err (λ e. internal (decode_hex e)) (hex_to_bytes prove.public_values)
    proof_bytes ← map_err (λ e. internal (decode_hex e)) (hex_to_bytes prove.proof)
    fail_if (not (length pv_bytes == 96)) (internal (public_values_length (length pv_bytes)))
    ok (pv_bytes, proof_bytes, take 32 (drop 32 pv_bytes))

module _ ⦃c : Crypto⦄ ⦃h : Hex⦄ where
  unfoldable pub submit_tx :
      TxRequest → SequencerState → Result TxResponse ApiError × SequencerState
  submit_tx req s = elim (into_tx req) [
    | err e ↦ (err e, s)
    | ok tx ↦
        let (r, s') = admit_tx tx s in
        elim r [
          | err e ↦ (err (bad_request (rejected e)), s')
          | ok _ ↦ (
            ok (record {
              accepted = true;
              mempool_size = length s'.mempool;
              speculative_root = hex0x (merkle_root s'.speculative_state);
            }),
            s',
          )
        ]
  ]

  -- step 1: the snapshot, under the lock
  unfoldable pub begin_batch : SequencerState → Result (State × Batch) ApiError × SequencerState
  begin_batch s = elim (is_empty s.mempool) [
    | true ↦ (err (bad_request mempool_is_empty), s)
    | false ↦ let (snapshot, s') = drain_for_batch s in (ok snapshot, s')
  ]

  -- steps 4 and 5: the contract has answered
  unfoldable pub finish_batch :
      Outside
      → Batch
      → ProveResponse
      → Hash
      → Result SettleOutcome Text
      → SequencerState
      → Result BatchResponse ApiError × SequencerState
  finish_batch o batch prove new_root (err e) s =
      (err (internal (submit_failed e)), restore_mempool batch s)
  finish_batch o batch prove new_root (ok outcome) s =
      let (r, s') = commit_batch batch new_root s in
      let s'' = o.responding s' in
      elim r [
        | err e ↦ (err (internal (commit_failed outcome.tx_hash e)), s')
        | ok _ ↦ (
          ok (record {
            batch_number = s''.batch_count;
            txs = length batch.txs;
            prev_root = prove.prev_root;
            new_root = prove.new_root;
            batch_hash = prove.batch_hash;
            l1_tx_hash = outcome.tx_hash;
            l1_block = outcome.block_number;
            gas_used = outcome.gas_used;
          }),
          s'',
        )
      ]

  -- steps 2 and 3: the prover has answered
  unfoldable pub settle_batch :
      Outside
      → Batch
      → Result ProveResponse Text
      → SequencerState
      → Result BatchResponse ApiError × SequencerState
  unfolding finish_batch
  settle_batch o batch (err e) s = (err (internal (prove_failed e)), restore_mempool batch s)
  settle_batch o batch (ok prove) s = elim (decode_response prove) [
    | err e ↦ (err e, s)
    | ok (pv_bytes, proof_bytes, new_root) ↦
        finish_batch o batch prove new_root (o.submit_batch pv_bytes proof_bytes) (o.settling s)
  ]

  unfoldable pub trigger_batch :
      Outside → SequencerState → Result BatchResponse ApiError × SequencerState
  unfolding settle_batch begin_batch
  trigger_batch o s =
      let (r, s') = begin_batch s in
      elim r [
        | err e ↦ (err e, s')
        | ok (prev_state, batch) ↦ settle_batch o batch (o.prove prev_state batch) (o.proving s')
      ]
