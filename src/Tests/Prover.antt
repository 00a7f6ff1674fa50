-- ===== src/Tests/Prover.antt =====
-- The program, the host code and the service at concrete inputs.
use zk_rollup.Base.{◌≡◌, refl, [], ◌∷◌, true, some, ok, err}
use zk_rollup.Types.State.{get, set, merkle_root, encode_accounts}
use zk_rollup.Types.Bytes.{bytes_eq, cmp_bytes, to_be_bytes}
use zk_rollup.Types.Text.{hex0x}
use zk_rollup.Types.Tx.{
  batch_hash, encode_txs, full_hash, recover_address, signing_hash, key_address, normalize_v,
}
use zk_rollup.Stf.{ApplyOutput, apply_batch, apply_all, apply_tx}
use zk_rollup.Prover
use zk_rollup.Prover.{
  Abi, Sdk, ProveOutput, ProofMode, mock, groth16, from_env, build_stdin, program, bad_input, batch,
  state,
}
use zk_rollup.Prover.Honest.{serve-apply_batch}
use zk_rollup.Prover.Service
use zk_rollup.Prover.Service.{WorkRequest, ProveResponse}
use zk_rollup.Tests.Crates.{
  crypto, crypto-IsLawful, hex, abi, abi-IsLawfulAbi, sdk, sdk-RunsProgram,
}
use zk_rollup.Tests.Data.{two_accounts, payments}
use zk_rollup.Tests.Stf.{paid}

real_mode : from_env (some (b'R' ∷ b'e' ∷ b'A' ∷ b'l' ∷ [])) ≡ groth16
unfolding from_env bytes_eq
real_mode = refl

swapped_input : program (batch payments ∷ state two_accounts ∷ []) ≡ err bad_input
unfolding program
swapped_input = refl

abbrev proved : ProveOutput
proved = record {
  proof_bytes = [];
  public_values = paid.public_values;
  public_values_bytes = abi.abi_encode paid.public_values;
  vkey_bytes32 = b'v' ∷ b'k' ∷ [];
}

prove_run : Prover.prove two_accounts payments mock ≡ ok proved
unfolding Prover.prove program merkle_root encode_accounts to_be_bytes batch_hash encode_txs
    full_hash get set cmp_bytes bytes_eq apply_batch apply_all apply_tx recover_address signing_hash
    key_address normalize_v
prove_run = refl

abbrev pub request : WorkRequest
request = record { prev_state = two_accounts; batch = payments }

abbrev pub served : ProveResponse
served = record {
  proof = hex0x [];
  public_values = hex0x proved.public_values_bytes;
  vkey = proved.vkey_bytes32;
  prev_root = hex0x proved.public_values.prev_root;
  new_root = hex0x proved.public_values.new_root;
  batch_hash = hex0x proved.public_values.batch_hash;
}

pub serve_run : Service.prove true mock request ≡ ok served
unfolding Service.prove
serve_run = rw prove_run

serve-apply_batch_example :
    (out : ApplyOutput) × (apply_batch two_accounts payments ≡ ok out)
    × (served.public_values ≡ hex0x (abi.abi_encode out.public_values))
    × (served.prev_root ≡ hex0x (merkle_root two_accounts))
    × (served.new_root ≡ hex0x (merkle_root out.new_state))
    × (served.batch_hash ≡ hex0x (batch_hash payments))
serve-apply_batch_example =
    serve-apply_batch true mock request served crypto-IsLawful abi-IsLawfulAbi sdk-RunsProgram
      serve_run
