-- ===== src/Tests/Rollup.antt =====
-- The contract at concrete inputs.
use zk_rollup.Base.{
  ◌≡◌, ◌≢◌, All, ap, sym, ◌∙◌, refl, [], ◌∷◌, ok, err, Bool-cases, inl, inr, false, arith,
  if◌then◌else◌, replicate,
}
use zk_rollup.Types.Bytes.{Bytes, Hash, bytes_eq, cmp_bytes, to_be_bytes}
use zk_rollup.Types.Order.{eq_of_bytes_eq, bytes_eq_refl}
use zk_rollup.Types.State.{get, set, merkle_root, encode_accounts}
use zk_rollup.Types.Tx.{
  batch_hash, encode_txs, full_hash, recover_address, signing_hash, key_address, normalize_v,
}
use zk_rollup.Stf.{apply_batch, apply_all, apply_tx}
use zk_rollup.Prover.{build_stdin, program}
use zk_rollup.Rollup
use zk_rollup.Rollup.{
  Verifier, Submission, decode_words, deploy, BatchSettled, stale_state_root, submit_batch,
  zero_word,
}
use zk_rollup.Rollup.Calls.{announced, advanced}
use zk_rollup.Rollup.Chain.{IsItem}
use zk_rollup.Rollup.History.{IsSound}
use zk_rollup.Rollup.Lockstep.{InStep, call_of, submit_batch-commit_batch}
use zk_rollup.Tests.Crates.{crypto, crypto-IsLawful, abi, abi-IsLawfulAbi}
use zk_rollup.Tests.Data.{
  address, pay_100, pay_carol, two_accounts, two_accounts-IsValid, payments, payments-IsTx,
}
use zk_rollup.Sequencer.{readmit, commit_batch}
use zk_rollup.Routes.Batches.{drained}
use zk_rollup.Tests.Sequencer.{waiting, waiting-IsConsistent}
use zk_rollup.Tests.Stf.{paid, paid_run}

-- accepts the public values of one run, with any proof
instance abbrev pub verifier : Verifier
verifier = record {
  Fault = Unit {0};
  verify_proof = λ at key values proof.
      if bytes_eq values (abi.abi_encode paid.public_values) then ok tt else err tt;
}

abbrev pub key : Hash
key = 202 ∷ replicate 31 0

abbrev pub deployed : Rollup.Rollup
deployed = record {
  program_vkey = key;
  verifier = address 9;
  state_root = merkle_root two_accounts;
  batch_count = 0;
}

pub deploy_run : deploy (address 9) key (merkle_root two_accounts) ≡ ok deployed
unfolding deploy bytes_eq merkle_root encode_accounts to_be_bytes
deploy_run = refl

program_run : program (build_stdin two_accounts payments) ≡ ok (abi.abi_encode paid.public_values)
unfolding program build_stdin merkle_root encode_accounts to_be_bytes batch_hash encode_txs
    full_hash get set cmp_bytes bytes_eq apply_batch apply_all apply_tx recover_address signing_hash
    key_address normalize_v
program_run = refl

stdin_items : All IsItem (build_stdin two_accounts payments)
unfolding build_stdin
stdin_items = (two_accounts-IsValid.entries, (payments-IsTx, tt))

pub deployed-IsSound : IsSound deployed
deployed-IsSound call accepted =
    elim (Bool-cases (bytes_eq call.public_values (abi.abi_encode paid.public_values))) [
      | inr other ↦ absurd (ground arith)
      | inl same ↦ (
        build_stdin two_accounts payments,
        stdin_items,
        program_run ∙ ap ok (sym (eq_of_bytes_eq call.public_values _ same)),
      )
    ]

abbrev pub first_call : Submission
first_call = call_of paid.public_values []

abbrev junk_call : Submission
junk_call = record { public_values = 1 ∷ 2 ∷ []; proof_bytes = [] }

pub first_run :
    submit_batch first_call deployed
    ≡ ok (announced paid.public_values deployed, advanced paid.public_values deployed)
unfolding submit_batch decode_words merkle_root encode_accounts to_be_bytes bytes_eq batch_hash
    encode_txs full_hash get set cmp_bytes
first_run = refl

pub ne_of_bytes_eq : (x y : Bytes) → bytes_eq x y ≡ false → x ≢ y
ne_of_bytes_eq x y other p = cc (sym other, ap (bytes_eq x) (sym p), bytes_eq_refl x)

pub roots_differ : bytes_eq paid.public_values.prev_root paid.public_values.new_root ≡ false
unfolding merkle_root encode_accounts to_be_bytes bytes_eq get set cmp_bytes
roots_differ = refl

-- the contract beside the sequencer whose transactions wait
abbrev pub beside : Rollup.Rollup
beside = record deployed { batch_count = 4 }

pub beside_run :
    submit_batch first_call beside
    ≡ ok (announced paid.public_values beside, advanced paid.public_values beside)
unfolding submit_batch decode_words merkle_root encode_accounts to_be_bytes bytes_eq batch_hash
    encode_txs full_hash get set cmp_bytes
beside_run = refl

pub verified :
    verifier.verify_proof beside.verifier beside.program_vkey (abi.abi_encode paid.public_values) []
    ≡ ok tt
verified = rw (bytes_eq_refl (abi.abi_encode paid.public_values)) refl

pub root_not_zero : bytes_eq (merkle_root waiting.speculative_state) zero_word ≡ false
unfolding merkle_root encode_accounts to_be_bytes bytes_eq get set cmp_bytes
root_not_zero = refl

submit_batch-commit_batch_example :
    let (done, left) =
      commit_batch payments paid.public_values.new_root
        (readmit (pay_carol ∷ []) (drained waiting)) in
    let next = readmit (pay_100 ∷ []) left in
    (event : BatchSettled) × (t : Rollup.Rollup) × (submit_batch first_call beside ≡ ok (event, t))
    × (done ≡ ok tt)
    × InStep t next
    × (event.batch_number ≡ next.batch_count)
submit_batch-commit_batch_example =
    submit_batch-commit_batch beside waiting paid [] (pay_carol ∷ []) (pay_100 ∷ []) crypto-IsLawful
      abi-IsLawfulAbi waiting-IsConsistent (record { same_root = refl; same_count = refl }) paid_run
      verified (ne_of_bytes_eq (merkle_root waiting.speculative_state) zero_word root_not_zero)
