-- ===== src/Drivers/Requests.antt =====
-- The states and batches that crates/prover-svc/src/bin/smoke.rs and the binaries execute.rs and
-- prove.rs of crates/sp1-script/src/bin build.
use zk_rollup.Base.{ℕ, [], ◌∷◌, Option, some}
use zk_rollup.Types.Address.{Address}
use zk_rollup.Types.Crypto.{Crypto}
use zk_rollup.Types.State.{State, new_state, set}
use zk_rollup.Prover.Service.{WorkRequest}
use zk_rollup.Drivers.Wallet.{Signer, ◌>>=◌, make_wallet, signed_tx}

-- alice with a balance and bob with nothing
unfoldable pub genesis_with : ℕ → ℕ → Address → Address → State
genesis_with alice_balance bob_balance alice bob =
    set (set new_state alice (record { balance = alice_balance; nonce = 0 })) bob
      (record { balance = bob_balance; nonce = 0 })

module _ ⦃c : Crypto⦄ ⦃k : Signer c⦄ where
  unfoldable pub smoke_request : Option WorkRequest
  unfolding genesis_with
  smoke_request = do
    (alice_sk, alice) ← make_wallet 1
    (bob_sk, bob) ← make_wallet 2
    first ← signed_tx alice_sk alice bob 100 0
    second ← signed_tx alice_sk alice bob 200 1
    some (record {
      prev_state = genesis_with 1000000 0 alice bob;
      batch = record { txs = first ∷ second ∷ [] };
    })

  unfoldable pub execute_request : Option WorkRequest
  unfolding genesis_with
  execute_request = do
    (alice_sk, alice) ← make_wallet 1
    (bob_sk, bob) ← make_wallet 2
    first ← signed_tx alice_sk alice bob 100 0
    second ← signed_tx alice_sk alice bob 200 1
    some (record {
      prev_state = genesis_with 1000 0 alice bob;
      batch = record { txs = first ∷ second ∷ [] };
    })

  unfoldable pub prove_request : Option WorkRequest
  unfolding genesis_with
  prove_request = do
    (alice_sk, alice) ← make_wallet 1
    (bob_sk, bob) ← make_wallet 2
    only ← signed_tx alice_sk alice bob 100 0
    some (record { prev_state = genesis_with 1000 0 alice bob; batch = record { txs = only ∷ [] } })
