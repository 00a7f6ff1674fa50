-- ===== src/Tests/Smoke.antt =====
-- The smoke test against the service, with one-byte keys.
use zk_rollup.Tests.Web.{axum, axum-IsLawfulAxum}
use zk_rollup.Tests.Json.{json, json-IsLawfulJson}
use zk_rollup.Drivers.Smoke.Wire.{smoke_over, smoke_over_passes}
use zk_rollup.Web.ProverService.{serve}
use zk_rollup.Web.Axum.{post}
use zk_rollup.Clients.Http.{Http}
use zk_rollup.Base.{◌≡◌, refl, [], ◌∷◌, true, some, ok, drop, err}
use zk_rollup.Types.Bytes.{bytes_eq, cmp_bytes, to_be_bytes}
use zk_rollup.Types.State.{get, set, merkle_root, encode_accounts}
use zk_rollup.Types.Text.{hex0x, Text}
use zk_rollup.Types.Tx.{
  batch_hash, encode_txs, full_hash, recover_address, signing_hash, key_address, normalize_v,
}
use zk_rollup.Stf.{PublicValues, apply_batch, apply_all, apply_tx}
use zk_rollup.Prover
use zk_rollup.Prover.{mock, program, build_stdin, ScriptError}
use zk_rollup.Prover.Service
use zk_rollup.Prover.Service.{ProveResponse, ExecuteResponse, WorkRequest, ApiError, AppState}
use zk_rollup.Drivers.Wallet.{make_wallet, signed_tx}
use zk_rollup.Drivers.Requests.{genesis_with, smoke_request}
use zk_rollup.Tests.Crates.{
  crypto, crypto-IsLawful, hex, hex-IsLawfulHex, abi, abi-IsLawfulAbi, sdk, sdk-RunsProgram,
}
use zk_rollup.Tests.Wallets.{signer}
use zk_rollup.Tests.Data.{alice, bob, funds}
use zk_rollup.Tests.Drivers.{transfer}

abbrev smoke_work : WorkRequest
smoke_work = record {
  prev_state = record { accounts = (alice, funds 1000000 0) ∷ (bob, funds 0 0) ∷ [] };
  batch = record { txs = transfer 100 0 ∷ transfer 200 1 ∷ [] };
}

abbrev smoke_values : PublicValues
smoke_values = record {
  prev_root = merkle_root smoke_work.prev_state;
  new_root = merkle_root (record { accounts = (alice, funds 999700 2) ∷ (bob, funds 300 0) ∷ [] });
  batch_hash = batch_hash smoke_work.batch;
}

smoke_signed : smoke_request ≡ some smoke_work
unfolding smoke_request make_wallet signed_tx genesis_with set cmp_bytes
smoke_signed = refl

abbrev smoke_executed : ExecuteResponse
smoke_executed = record {
  public_values = hex0x (abi.abi_encode smoke_values);
  prev_root = hex0x smoke_values.prev_root;
  new_root = hex0x smoke_values.new_root;
  batch_hash = hex0x smoke_values.batch_hash;
  cycles = 1000;
}

abbrev smoke_proved : ProveResponse
smoke_proved = record {
  proof = hex0x [];
  public_values = smoke_executed.public_values;
  vkey = b'v' ∷ b'k' ∷ [];
  prev_root = smoke_executed.prev_root;
  new_root = smoke_executed.new_root;
  batch_hash = smoke_executed.batch_hash;
}

smoke_execute_run :
    Prover.execute_only smoke_work.prev_state smoke_work.batch
    ≡ ok (record {
      public_values = smoke_values;
      public_values_bytes = abi.abi_encode smoke_values;
      cycles = 1000;
    })
unfolding Prover.execute_only program build_stdin merkle_root encode_accounts to_be_bytes batch_hash
    encode_txs full_hash get set cmp_bytes bytes_eq apply_batch apply_all apply_tx recover_address
    signing_hash key_address normalize_v
smoke_execute_run = refl

smoke_prove_run :
    Prover.prove smoke_work.prev_state smoke_work.batch mock
    ≡ ok (record {
      proof_bytes = [];
      public_values = smoke_values;
      public_values_bytes = abi.abi_encode smoke_values;
      vkey_bytes32 = b'v' ∷ b'k' ∷ [];
    })
unfolding Prover.prove program build_stdin merkle_root encode_accounts to_be_bytes batch_hash
    encode_txs full_hash get set cmp_bytes bytes_eq apply_batch apply_all apply_tx recover_address
    signing_hash key_address normalize_v
smoke_prove_run = refl

smoke_executes : Service.execute true smoke_work ≡ ok smoke_executed
unfolding Service.execute
smoke_executes = rw smoke_execute_run

smoke_proves : Service.prove true mock smoke_work ≡ ok smoke_proved
unfolding Service.prove
smoke_proves = rw smoke_prove_run

abbrev show : ApiError (ScriptError sdk.SdkError) → Text
show e = b'e' ∷ []

abbrev service : AppState
service = record { mode = mock; vkey = b'v' ∷ b'k' ∷ [] }

-- a network that brings every request to the endpoint that its URL ends with, on any host of one letter
instance abbrev http : Http
http = record {
  Error = Unit {0};
  get = λ url. err tt;
  post = λ url body. ok (serve show true service post (drop 1 url) body);
}

smoke_over_passes_example : smoke_over (b'h' ∷ []) ≡ ok tt
smoke_over_passes_example =
    smoke_over_passes show (b'h' ∷ []) true true service smoke_work smoke_executed smoke_proved
      crypto-IsLawful hex-IsLawfulHex abi-IsLawfulAbi sdk-RunsProgram json-IsLawfulJson
      axum-IsLawfulAxum smoke_signed smoke_executes smoke_proves refl refl
