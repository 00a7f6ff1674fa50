-- ===== src/Drivers/Demo.antt =====
-- crates/sequencer/src/bin/demo.rs: two transfers are signed and posted, and a batch is triggered.
use zk_rollup.Base.{
  ℕ, List, [], ◌∷◌, true, false, Option, none, some, Result, ok, err, ◌==◌, ◌&&◌, if◌then◌else◌,
}
use zk_rollup.Types.Address.{Address}
use zk_rollup.Types.Crypto.{Crypto}
use zk_rollup.Types.Text.{Text, Hex}
use zk_rollup.Types.Tx.{Tx, signing_hash}
use zk_rollup.Sequencer.{SequencerState}
use zk_rollup.Routes.{ApiError, TxResponse, BatchResponse, Outside, submit_tx, trigger_batch, root}
use zk_rollup.Routes.Requests.{request_of}
use zk_rollup.Drivers.Wallet.{Signer, ◌>>=◌, make_wallet, sign, unsigned_tx}

-- `strip_prefix("0x")`
unfoldable pub strip_prefix_0x : Text → Option Text
strip_prefix_0x [] = none
strip_prefix_0x (x ∷ []) = none
strip_prefix_0x (x ∷ y ∷ rest) = if x == b'0' && y == b'x' then some rest else none

-- `Result::ok`
abbrev pub to_option : {A E : Type 0} → Result A E → Option A
to_option (ok a) = some a
to_option (err e) = none

module _ ⦃c : Crypto⦄ ⦃k : Signer c⦄ ⦃h : Hex⦄ where
  -- the body of the loop that signs
  unfoldable pub demo_tx : k.SigningKey → Address → Address → ℕ → ℕ → Option Tx
  unfolding strip_prefix_0x sign
  demo_tx sk from to amount nonce = do
    let tx = unsigned_tx from to amount nonce
    text ← sign sk (signing_hash tx)
    digits ← strip_prefix_0x text
    signature ← to_option (h.decode digits)
    some (record tx { signature = signature })

  -- the two transfers from alice to bob
  unfoldable pub demo_txs : Option (List Tx)
  unfolding demo_tx
  demo_txs = do
    (alice_sk, alice) ← make_wallet 1
    (bob_sk, bob) ← make_wallet 2
    first ← demo_tx alice_sk alice bob 100 0
    second ← demo_tx alice_sk alice bob 200 1
    some (first ∷ second ∷ [])

  pub data DemoError : Type 0 where
    panicked : DemoError
    -- `error_for_status` on /tx, and the body of a failed /batch
    refused : ApiError → DemoError
    batch_failed : ApiError → DemoError

  -- the loop that posts
  unfoldable pub post_all :
      List Tx → SequencerState → Result (List TxResponse) DemoError × SequencerState
  post_all [] s = (ok [], s)
  post_all (tx ∷ txs) s =
      let (r, s') = submit_tx (request_of tx) s in
      let (rest, last) = post_all txs s' in
      elim r [
        | err e ↦ (err (refused e), s')
        | ok resp ↦ elim resp.accepted [
          | false ↦ (err panicked, s')
          | true ↦ elim rest [ ok resps ↦ (ok (resp ∷ resps), last) | err e ↦ (err e, last) ]
        ]
      ]

  -- `main` against a sequencer: the response of /batch and the root that it shows afterwards
  unfoldable pub demo :
      Outside → SequencerState → Result (BatchResponse × Text) DemoError × SequencerState
  unfolding post_all
  demo o s = elim demo_txs [
    | none ↦ (err panicked, s)
    | some txs ↦
        let (posted, s') = post_all txs s in
        elim posted [
          | err e ↦ (err e, s')
          | ok resps ↦
              let (r, s'') = trigger_batch o s' in
              elim r [
                | err e ↦ (err (batch_failed e), s'')
                | ok batch ↦ (ok (batch, (root s'').root), s'')
              ]
        ]
  ]
