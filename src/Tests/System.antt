-- ===== src/Tests/System.antt =====
-- One execution of the whole system: two requests, a batch, its proof and its acceptance.
use zk_rollup.Rollup
use zk_rollup.Base.{◌+◌, ◌<◌, ◌≡◌, refl, [], ◌∷◌, true, ok, arith}
use zk_rollup.Types.Bytes.{u64_mod, bytes_eq, cmp_bytes, to_be_bytes}
use zk_rollup.Types.State.{get, set, merkle_root, encode_accounts}
use zk_rollup.Types.Text.{hex0x, hex_to_bytes, from_hex, to_hex}
use zk_rollup.Types.Tx.{
  batch_hash, encode_txs, full_hash, recover_address, signing_hash, key_address, normalize_v,
}
use zk_rollup.Stf.{apply_tx}
use zk_rollup.Prover.{mock}
use zk_rollup.Sequencer.{SequencerState, from_genesis, admit_tx, commit_batch, drain_for_batch}
use zk_rollup.Routes.{submit_tx, into_tx, begin_batch, decode_response}
use zk_rollup.Routes.Requests.{request_of}
use zk_rollup.Rollup.Calls.{announced, advanced}
use zk_rollup.System.{System, Step, booted, submitting}
use zk_rollup.Types.Address.{Address}
use zk_rollup.Stf.Ledger.{sent, sent_le_length}
use zk_rollup.System.Reach.{Reach, start, later}
use zk_rollup.Tests.Crates.{crypto, hex, abi, sdk}
use zk_rollup.Tests.Data.{two_accounts, payments, pay_100, pay_200}
use zk_rollup.Tests.Prover.{served, serve_run}
use zk_rollup.Tests.Rollup.{verifier, deployed, first_run}
use zk_rollup.Tests.Sequencer.{waiting}
use zk_rollup.Tests.Stf.{paid, small_nonces}

abbrev booted_system : System
booted_system = booted two_accounts deployed

abbrev filled : SequencerState
filled = record waiting { batch_count = 0 }

abbrev emptied : SequencerState
emptied = record filled { mempool = []; speculative_state = two_accounts }

posted :
    (submit_tx (request_of pay_200) (submit_tx (request_of pay_100) booted_system.sequencer).1).1
    ≡ filled
unfolding submit_tx into_tx request_of from_hex to_hex hex0x from_genesis admit_tx apply_tx get set
    bytes_eq cmp_bytes recover_address signing_hash key_address normalize_v
posted = refl

batch_begins : begin_batch filled ≡ (ok (two_accounts, payments), emptied)
unfolding begin_batch drain_for_batch
batch_begins = refl

served_read :
    decode_response served ≡ ok (abi.abi_encode paid.public_values, [], paid.public_values.new_root)
unfolding decode_response hex_to_bytes hex0x merkle_root encode_accounts to_be_bytes batch_hash
    encode_txs full_hash get set cmp_bytes
served_read = refl

reach_filled : Reach booted_system (record booted_system { sequencer = filled })
unfolding request_of
reach_filled = rw (← posted) (
    later (later start tt (Step.post (request_of pay_100) (omega arith) (omega arith))) tt
      (Step.post (request_of pay_200) (omega arith) (omega arith)))

abbrev accepted_system : System
accepted_system = record {
  sequencer = emptied;
  contract = advanced paid.public_values deployed;
  calls = [];
  settled = (payments, paid.public_values.new_root) ∷ [];
}

abbrev attested_system : System
attested_system = record {
  sequencer = emptied;
  contract = deployed;
  calls =
      submitting two_accounts payments (abi.abi_encode paid.public_values) []
        paid.public_values.new_root
      ∷ [];
  settled = [];
}

reach_attested : Reach booted_system attested_system
reach_attested =
    later (later reach_filled tt (Step.begin two_accounts payments emptied batch_begins)) tt (
      Step.proved [] [] two_accounts payments true mock served (abi.abi_encode paid.public_values)
        [] paid.public_values.new_root refl serve_run served_read)

reach_accepted : Reach booted_system accepted_system
reach_accepted = later reach_attested tt (
    Step.accepted [] [] two_accounts payments (abi.abi_encode paid.public_values) []
      paid.public_values.new_root (announced paid.public_values deployed)
      (advanced paid.public_values deployed) refl first_run)

sent_small : (k : Address) → (get two_accounts k).nonce + sent k payments.txs < u64_mod
sent_small k = omega (arith, sent_le_length k payments.txs, small_nonces k)

abbrev committed_system : System
committed_system = record {
  sequencer = (commit_batch payments paid.public_values.new_root emptied).1;
  contract = advanced paid.public_values deployed;
  calls = [];
  settled = [];
}

reach_committed : Reach booted_system committed_system
reach_committed =
    later reach_accepted (sent_small, tt)
      (Step.commit [] [] payments paid.public_values.new_root refl)
