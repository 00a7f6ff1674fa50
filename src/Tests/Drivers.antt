-- ===== src/Tests/Drivers.antt =====
-- The drivers at concrete inputs.
use zk_rollup.Types.State.Binding.{RootCollision}
use zk_rollup.Drivers.UnitTests.Crates.{
  flip_byte, rejects_invalid_signature, empty_batch_hash_is_empty_keccak, empty_keccak,
  unit_tests_of_crates,
}
use zk_rollup.Base.{
  ℕ, ◌≡◌, ◌≢◌, ◌⊎◌, refl, [], ◌∷◌, replicate, true, some, ok, err, arith, take, drop, ◌++◌, ◌↔◌,
}
use zk_rollup.Types.Address.{Address}
use zk_rollup.Types.Bytes.{Hash, Bytes, bytes_eq, cmp_bytes, to_be_bytes}
use zk_rollup.Types.State.{get, set, merkle_root, encode_accounts}
use zk_rollup.Types.Text.{hex0x}
use zk_rollup.Types.Tx.{
  Tx, batch_hash, encode_txs, full_hash, recover_address, signing_hash, key_address, normalize_v,
}
use zk_rollup.Stf.{apply_batch, apply_all, apply_tx}
use zk_rollup.Stf.Run.{after}
use zk_rollup.Stf.Transfer.{Accepts}
use zk_rollup.Prover
use zk_rollup.Prover.{mock, program, build_stdin}
use zk_rollup.Prover.Service
use zk_rollup.Prover.Service.{ProveResponse, ExecuteResponse, WorkRequest, pv_hex, run_off_runtime}
use zk_rollup.Sequencer.{SequencerState, readmit}
use zk_rollup.Routes.{Outside, trigger_batch}
use zk_rollup.Drivers.Wallet.{make_wallet, sign_bytes, signed_tx, sign}
use zk_rollup.Drivers.Signing.{signed_tx-Accepts, NotReduced}
use zk_rollup.Drivers.Demo.{demo, demo_tx, demo_txs, strip_prefix_0x}
use zk_rollup.Drivers.Posted.{Stocked, ended, demo-post_all}
use zk_rollup.Drivers.UnitTests.{
  happy_path_transfer, rejects_bad_nonce, rejects_insufficient_balance,
  sequential_batch_advances_root_deterministically, round_trip_recover, state_root_is_deterministic,
}
use zk_rollup.Drivers.UnitTests.Transfers.{HasWallets, SmallIds}
use zk_rollup.Drivers.UnitTests.Passing.{unit_tests_pass, Compared}
use zk_rollup.Tests.Crates.{
  Key, key_one, key_two, crypto, crypto-IsLawful, hex, hex-IsLawfulHex, abi, sdk,
}
use zk_rollup.Tests.Wallets.{signer, signer-IsLawfulSigner}
use zk_rollup.Tests.Data.{alice, bob, two_accounts, two_accounts-IsValid}
use zk_rollup.Tests.Data
use zk_rollup.Tests.Prover.{request, served}
use zk_rollup.Tests.Stf.{paid}

-- what alice's key signs
abbrev pub transfer : ℕ → ℕ → Tx
transfer amount nonce = record {
  from = alice;
  to = bob;
  amount = amount;
  nonce = nonce;
  signature = 1 ∷ replicate 64 0;
}

alice_wallet : make_wallet 1 ≡ some (key_one, alice)
unfolding make_wallet
alice_wallet = refl

bob_wallet : make_wallet 2 ≡ some (key_two, bob)
unfolding make_wallet
bob_wallet = refl

transfer_signed : signed_tx key_one alice bob 100 0 ≡ some (transfer 100 0)
unfolding signed_tx
transfer_signed = refl

alice_is_not_bob : alice ≢ bob
alice_is_not_bob e = cc

alice_account : get two_accounts alice ≡ Data.funds 1000 0
unfolding get cmp_bytes
alice_account = refl

bob_account : get two_accounts bob ≡ Data.funds 50 3
unfolding get cmp_bytes
bob_account = refl

signed_tx-Accepts_example :
    Accepts two_accounts (transfer 100 0) ↔ NotReduced (transfer 100 0).signature
signed_tx-Accepts_example =
    signed_tx-Accepts 1 key_one alice bob 100 0 (transfer 100 0) two_accounts signer-IsLawfulSigner
      alice_wallet transfer_signed alice_is_not_bob (ground (arith, alice_account))
      (ground (arith, alice_account)) (ground (arith, bob_account))

-- both endpoints on one request
abbrev executed : ExecuteResponse
executed = record {
  public_values = served.public_values;
  prev_root = served.prev_root;
  new_root = served.new_root;
  batch_hash = served.batch_hash;
  cycles = 1000;
}

execute_only_run :
    Prover.execute_only two_accounts Data.payments
    ≡ ok (record {
      public_values = paid.public_values;
      public_values_bytes = abi.abi_encode paid.public_values;
      cycles = 1000;
    })
unfolding Prover.execute_only program build_stdin merkle_root encode_accounts to_be_bytes batch_hash
    encode_txs full_hash get set cmp_bytes bytes_eq apply_batch apply_all apply_tx recover_address
    signing_hash key_address normalize_v
execute_only_run = refl

execute_run : Service.execute true request ≡ ok executed
unfolding Service.execute
execute_run = rw execute_only_run

-- the demo client at a sequencer whose prover is down
abbrev no_prover : Outside
no_prover = record {
  prove = λ prev b. err (b'x' ∷ []);
  submit_batch = λ pv proof. err [];
  proving = λ t. t;
  settling = λ t. t;
  responding = λ t. t;
}

abbrev started : SequencerState
started = record {
  canonical_state = two_accounts;
  canonical_root = merkle_root two_accounts;
  speculative_state = two_accounts;
  mempool = [];
  batch_count = 0;
}

alice_only : (sk : Key) (k : Address) → make_wallet 1 ≡ some (sk, k) → alice ≡ k
alice_only sk k e = cc (alice_wallet, e)

bob_only : (sk : Key) (k : Address) → make_wallet 2 ≡ some (sk, k) → bob ≡ k
bob_only sk k e = cc (bob_wallet, e)

two_accounts-Stocked : Stocked two_accounts
two_accounts-Stocked = record {
  ordered = two_accounts-IsValid.ordered;
  turn = λ sk k e. rw (← alice_only sk k e) (ground (arith, alice_account));
  room = λ sk other k l e f.
      rw (← alice_only sk k e)
        (rw (← bob_only other l f) (alice_is_not_bob, ground (arith, bob_account)));
}

demo_signed : demo_txs ≡ some (transfer 100 0 ∷ transfer 200 1 ∷ [])
unfolding demo_txs make_wallet demo_tx sign sign_bytes strip_prefix_0x hex0x
demo_signed = refl

ids : (amount nonce : ℕ) → NotReduced (transfer amount nonce).signature
ids amount nonce = omega arith

demo-post_all_example :
    let txs = transfer 100 0 ∷ transfer 200 1 ∷ [] in
    let posted = readmit txs started in
    let (r, next) = trigger_batch no_prover posted in
    (posted.mempool ≡ txs)
    × (posted.speculative_state ≡ after txs two_accounts)
    × (demo no_prover started ≡ (ended r next, next))
demo-post_all_example =
    demo-post_all no_prover started (transfer 100 0 ∷ transfer 200 1 ∷ []) crypto-IsLawful
      signer-IsLawfulSigner hex-IsLawfulHex two_accounts-Stocked demo_signed
      (ids 100 0, (ids 200 1, tt))

alice_signs : (amount nonce : ℕ) → (tx : Tx) × (signed_tx key_one alice bob amount nonce ≡ some tx)
unfolding signed_tx
alice_signs amount nonce = (transfer amount nonce, refl)

other_signs : (hash : Hash) → (out : Bytes) × (sign_bytes key_two hash ≡ some out)
unfolding sign_bytes
other_signs hash = (2 ∷ replicate 64 0, refl)

abbrev wallets : HasWallets
wallets = record {
  alice_sk = key_one;
  bob_sk = key_two;
  alice = alice;
  bob = bob;
  alice_made = alice_wallet;
  bob_made = bob_wallet;
  different = alice_is_not_bob;
  signs = alice_signs;
  other_sk = key_two;
  other_made = refl;
  other_signs = other_signs;
}

small_ids : SmallIds wallets
unfolding alice_signs other_signs
small_ids = record {
  happy = ids 250 0;
  bad_nonce = ids 100 5;
  first = ids 100 0;
  second = ids 200 1;
  round_trip = omega arith;
}

unit_tests_pass_example :
    (happy_path_transfer ≡ some true)
    × (rejects_bad_nonce ≡ some true)
    × (rejects_insufficient_balance ≡ some true)
    × (round_trip_recover ≡ some true)
    × (state_root_is_deterministic ≡ true)
    × ((sequential_batch_advances_root_deterministically ≡ some true)
        ⊎ RootCollision (Compared wallets))
unit_tests_pass_example = unit_tests_pass wallets crypto-IsLawful signer-IsLawfulSigner small_ids

-- the transfer of the test, with the sixth byte of its signature flipped
abbrev flipped : Bytes
flipped = take 5 (transfer 100 0).signature ++ 255 ∷ drop 6 (transfer 100 0).signature

flips : flip_byte 5 (transfer 100 0).signature ≡ some flipped
unfolding flip_byte
flips = refl

tampered_test :
    ((rejects_invalid_signature ≡ some true)
      ↔ (recover_address (signing_hash (transfer 100 0)) flipped ≢ ok alice))
    × ((empty_batch_hash_is_empty_keccak ≡ true) ↔ (hex.encode (crypto.keccak []) ≡ empty_keccak))
tampered_test = unit_tests_of_crates wallets (transfer 100 0) flipped transfer_signed flips
