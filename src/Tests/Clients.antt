-- ===== src/Tests/Clients.antt =====
-- The clients at concrete inputs, over services that answer every request.
use zk_rollup.Base.{◌≡◌, refl, [], ◌∷◌, true, some, ok, err}
use zk_rollup.Types.Bytes.{bytes_eq, cmp_bytes, to_be_bytes}
use zk_rollup.Types.State.{get, set, merkle_root, encode_accounts}
use zk_rollup.Types.Text.{Text}
use zk_rollup.Types.Tx.{batch_hash, encode_txs, full_hash}
use zk_rollup.Prover.{ScriptError, mock}
use zk_rollup.Prover.Service.{AppState, ApiError}
use zk_rollup.Sequencer.{readmit}
use zk_rollup.Sequencer.Consistency.{IsConsistent}
use zk_rollup.Routes
use zk_rollup.Routes.{Outside, SettleOutcome, BatchResponse, trigger_batch, submit_failed}
use zk_rollup.Rollup
use zk_rollup.Rollup.{BatchSettled, stale_state_root, decode_words, after_call, zero_word}
use zk_rollup.Rollup.Lockstep.{InStep, call_of}
use zk_rollup.Rollup.Calls.{announced, advanced}
use zk_rollup.Clients.Http.{Http}
use zk_rollup.Clients.Prover
use zk_rollup.Clients.Prover.{ProverClient, prove_path}
use zk_rollup.Clients.Server.{post_prove, get_info}
use zk_rollup.Clients.L1
use zk_rollup.Clients.L1.{Alloy, L1Client, Receipt}
use zk_rollup.Clients.Receipts.{Mined, receipt, trigger_batch_receipt_lost}
use zk_rollup.Clients.EndToEnd.{Endpoints, outside, trigger_batch-outside}
use zk_rollup.Tests.Crates.{
  crypto, crypto-IsLawful, hex, hex-IsLawfulHex, abi, abi-IsLawfulAbi, sdk, sdk-RunsProgram,
}
use zk_rollup.Tests.Json.{json, json-IsLawfulJson}
use zk_rollup.Tests.Data.{address, two_accounts, payments, pay_100, pay_carol}
use zk_rollup.Tests.Prover.{served, serve_run}
use zk_rollup.Tests.Sequencer.{waiting, waiting-IsConsistent}
use zk_rollup.Tests.Stf.{paid, paid_run}
use zk_rollup.Tests.Rollup.{verifier, beside, first_call, verified, roots_differ, ne_of_bytes_eq}
use zk_rollup.Tests.Routes.{answered, answer_read, outcome, waits}

abbrev show : ApiError (ScriptError sdk.SdkError) → Text
show e = b'e' ∷ []

abbrev service : AppState
service = record { mode = mock; vkey = b'v' ∷ b'k' ∷ [] }

instance abbrev pub http : Http
http = record {
  Error = Unit {0};
  get = λ url. ok (get_info show service);
  post = λ url body. ok (post_prove show true service body);
}

abbrev client : ProverClient
client = Prover.new (b'h' ∷ b'/' ∷ [])

-- every call is mined, with a receipt of success
instance abbrev pub alloy : Alloy
alloy = record {
  Error = Unit {0};
  Wallet = Text;
  Url = Text;
  parse_signer = λ t. ok t;
  parse_address = λ t. ok (address 8);
  parse_url = λ t. ok t;
  state_root = λ w u at. ok (merkle_root two_accounts);
  send = λ w u at call gas. ok (7 ∷ []);
  get_receipt = λ u h. ok (record { status = true; gas_used = 280000; block_number = some 12 });
}

abbrev l1_client : L1Client
l1_client = record { rollup_address = address 8; rpc_url = []; wallet = b'k' ∷ [] }

abbrev settled : Rollup.Rollup
settled = after_call first_call beside

contract_accepts :
    Rollup.submit_batch first_call beside
    ≡ ok (announced paid.public_values beside, advanced paid.public_values beside)
unfolding Rollup.submit_batch decode_words merkle_root encode_accounts to_be_bytes bytes_eq
    batch_hash encode_txs full_hash get set cmp_bytes
contract_accepts = refl

first-Mined : Mined l1_client first_call beside settled
unfolding L1.provider
first-Mined =
    receipt [] (7 ∷ []) (record { status = true; gas_used = 280000; block_number = some 12 }) refl
      refl refl (rw contract_accepts refl)

l1_answers : L1.submit_batch l1_client first_call.public_values first_call.proof_bytes ≡ ok outcome
unfolding L1.submit_batch
l1_answers = refl

abbrev clients : Endpoints
clients = record {
  prover = client;
  l1 = l1_client;
  show_prover = λ e. b'p' ∷ [];
  show_l1 = λ e. b'l' ∷ [];
}

beside-InStep : InStep beside waiting
beside-InStep = record { same_root = refl; same_count = refl }

trigger_batch-outside_example :
    let (result, after) =
      trigger_batch (outside clients (pay_carol ∷ []) (pay_100 ∷ []) []) waiting in
    (resp : BatchResponse) × (result ≡ ok resp)
    × IsConsistent after
    × InStep settled after
    × (resp.batch_number ≡ settled.batch_count)
    × (resp.txs ≡ 2)
trigger_batch-outside_example =
    trigger_batch-outside show clients true service waiting served [] outcome beside settled
      (pay_carol ∷ []) (pay_100 ∷ []) [] crypto-IsLawful hex-IsLawfulHex abi-IsLawfulAbi
      json-IsLawfulJson sdk-RunsProgram waiting-IsConsistent beside-InStep waits refl serve_run refl
      tt l1_answers first-Mined

abbrev receipt_lost : Outside
receipt_lost = record {
  prove = λ prev b. ok answered;
  submit_batch = λ pv proof. err (b'z' ∷ []);
  proving = λ t. t;
  settling = λ t. t;
  responding = λ t. t;
}

trigger_batch_receipt_lost_example :
    (trigger_batch receipt_lost waiting
      ≡ (err (Routes.internal (submit_failed (b'z' ∷ []))), waiting))
    × (Rollup.submit_batch (call_of paid.public_values []) (advanced paid.public_values beside)
        ≡ err (stale_state_root (merkle_root paid.new_state) waiting.canonical_root))
unfolding readmit
trigger_batch_receipt_lost_example =
    trigger_batch_receipt_lost receipt_lost waiting answered paid paid [] []
      paid.public_values.new_root (b'z' ∷ []) beside (advanced paid.public_values beside)
      (announced paid.public_values beside) [] payments crypto-IsLawful abi-IsLawfulAbi
      waiting-IsConsistent waits refl paid_run answer_read contract_accepts refl refl refl
      (ne_of_bytes_eq paid.public_values.prev_root paid.public_values.new_root roots_differ)
      paid_run verified
