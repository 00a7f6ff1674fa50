-- ===== src/Tests/Routes.antt =====
-- The handlers at concrete inputs.
use zk_rollup.Routes.Effects.{Outcome, trigger_batch-Outcome}
use zk_rollup.Base.{◌≡◌, ◌≢◌, refl, [], ◌∷◌, ok, err, arith}
use zk_rollup.Types.Bytes.{bytes_eq, cmp_bytes, to_be_bytes}
use zk_rollup.Types.State.{get, set, merkle_root, encode_accounts}
use zk_rollup.Types.Text.{hex0x, hex_to_bytes, from_hex, to_hex}
use zk_rollup.Types.Tx.{
  batch_hash, encode_txs, full_hash, recover_address, signing_hash, key_address, normalize_v,
}
use zk_rollup.Stf.{wrapping_add, apply_tx}
use zk_rollup.Stf.Transfer.{Accepts, Accepts-apply_tx}
use zk_rollup.Prover.Service.{ProveResponse}
use zk_rollup.Sequencer.{readmit}
use zk_rollup.Routes.{
  bad_request, signature_length, Outside, SettleOutcome, BatchResponse, TxRequest, internal,
  public_values_length, into_tx, submit_tx, decode_response, trigger_batch,
}
use zk_rollup.Routes.Requests.{request_of, IsSendable, into_tx-request_of}
use zk_rollup.Routes.Batches.{drained, trigger_batch_loses}
use zk_rollup.Routes.Settled.{trigger_batch-Settled}
use zk_rollup.Routes.Commit.{Settled}
use zk_rollup.Tests.Crates.{crypto, crypto-IsLawful, hex, hex-IsLawfulHex, abi, abi-IsLawfulAbi}
use zk_rollup.Tests.Data.{pay_100, pay_carol}
use zk_rollup.Tests.Sequencer.{waiting, waiting-IsConsistent}
use zk_rollup.Tests.Stf.{paid, paid_run}

pay_100-IsSendable : IsSendable pay_100
pay_100-IsSendable = omega arith

into_tx-request_of_example : into_tx (request_of pay_100) ≡ ok pay_100
into_tx-request_of_example = into_tx-request_of pay_100 hex-IsLawfulHex pay_100-IsSendable

request_read : into_tx (request_of pay_100) ≡ ok pay_100
request_read = into_tx-request_of pay_100 hex-IsLawfulHex pay_100-IsSendable

abbrev pub answered : ProveResponse
answered = record {
  proof = hex0x [];
  public_values = hex0x (abi.abi_encode paid.public_values);
  vkey = [];
  prev_root = [];
  new_root = [];
  batch_hash = [];
}

abbrev short_answer : ProveResponse
short_answer = record answered { public_values = hex0x (1 ∷ 2 ∷ 3 ∷ []) }

abbrev pub outcome : SettleOutcome
outcome = record { tx_hash = 7 ∷ []; gas_used = 280000; block_number = 12 }

abbrev pub all_well : Outside
all_well = record {
  prove = λ prev b. ok answered;
  submit_batch = λ pv proof. ok outcome;
  proving = readmit (pay_carol ∷ []);
  settling = readmit (pay_100 ∷ []);
  responding = readmit [];
}

pub waits : waiting.mempool ≢ []
waits e = cc

trigger_batch-Settled_example :
    let (r, next) = trigger_batch all_well waiting in
    (resp : BatchResponse) × (r ≡ ok resp)
    × (resp.batch_number ≡ wrapping_add 4 1)
    × (resp.txs ≡ 2)
    × Settled waiting (merkle_root waiting.speculative_state) next
trigger_batch-Settled_example =
    trigger_batch-Settled all_well waiting answered paid [] outcome (pay_carol ∷ []) (pay_100 ∷ [])
      [] crypto-IsLawful hex-IsLawfulHex abi-IsLawfulAbi waiting-IsConsistent waits paid_run refl
      refl refl tt refl (λ t. refl) (λ t. refl) (λ t. refl)

abbrev prover_down : Outside
prover_down = record all_well { prove = λ prev b. err (b'x' ∷ []); proving = λ t. t }

abbrev refused : Outside
refused = record all_well {
  submit_batch = λ pv proof. err (b'y' ∷ []);
  proving = λ t. t;
  settling = λ t. t;
}

carol_read : into_tx (request_of pay_carol) ≡ ok pay_carol
carol_read = into_tx-request_of pay_carol hex-IsLawfulHex (omega arith)

carol_runs : (apply_tx pay_carol waiting.speculative_state).0 ≡ ok tt
unfolding apply_tx get set bytes_eq cmp_bytes recover_address signing_hash key_address normalize_v
carol_runs = refl

carol_accepted : Accepts waiting.speculative_state pay_carol
carol_accepted = Accepts-apply_tx waiting.speculative_state pay_carol carol_runs

pub answer_read :
    decode_response answered
    ≡ ok (abi.abi_encode paid.public_values, [], paid.public_values.new_root)
unfolding decode_response hex_to_bytes hex0x merkle_root encode_accounts to_be_bytes batch_hash
    encode_txs full_hash get set cmp_bytes
answer_read = refl

abbrev garbled : Outside
garbled = record all_well { prove = λ prev b. ok short_answer; proving = λ t. t }

short_answer_refused : decode_response short_answer ≡ err (internal (public_values_length 3))
unfolding decode_response hex_to_bytes hex0x
short_answer_refused = refl

-- the batch is lost
garbled_run :
    trigger_batch garbled waiting ≡ (err (internal (public_values_length 3)), drained waiting)
garbled_run =
    trigger_batch_loses garbled waiting short_answer (internal (public_values_length 3)) waits refl
      short_answer_refused refl

abbrev short_request : TxRequest
short_request = record (request_of pay_carol) { signature = [] }

short_refused : (submit_tx short_request waiting).0 ≡ err (bad_request (signature_length 0))
unfolding submit_tx into_tx from_hex request_of to_hex
short_refused = refl

trigger_batch-Outcome_example : Outcome waiting (trigger_batch all_well waiting)
trigger_batch-Outcome_example =
    trigger_batch-Outcome all_well waiting (pay_carol ∷ []) (pay_100 ∷ []) [] waiting-IsConsistent
      (λ t. refl) (λ t. refl) (λ t. refl)
