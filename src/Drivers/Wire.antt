-- ===== src/Drivers/Wire.antt =====
-- `main` of crates/sequencer/src/bin/demo.rs as a client: its requests over HTTP, and what it makes of
-- the responses. reqwest is a function that sends a request into a world.
pub mod Reading
pub mod Served
use zk_rollup.Base.{
  ℕ, [], ◌∷◌, List, true, false, not, Option, none, some, Result, ok, err, ◌>>=◌, ◌>>◌, map_err,
  fail_if,
}
use zk_rollup.Types.Crypto.{Crypto}
use zk_rollup.Types.Text.{Text, Hex}
use zk_rollup.Types.Tx.{Tx, ok_or}
use zk_rollup.Routes.{TxRequest, TxResponse, BatchResponse}
use zk_rollup.Routes.Requests.{request_of}
use zk_rollup.Clients.Http.{Response, is_failure, is_success, text_or_default}
use zk_rollup.Web.Axum.{Method, get, post}
use zk_rollup.Web.Sequencer.{tx_path, batch_path, root_path}
use zk_rollup.Drivers.Wallet.{Signer}
use zk_rollup.Drivers.Demo.{demo_txs}

-- serde_json on the client's side; the root is read as a `serde_json::Value`
pub record ClientSerde : Type 1 where
  pub Error : Type 0
  pub Value : Type 0
  pub write_tx : TxRequest → Text
  pub read_tx : Text → Result TxResponse Error
  pub read_batch : Text → Result BatchResponse Error
  pub read_value : Text → Result Value Error

module _ ⦃w : ClientSerde⦄ (Transport : Type 0) where
  pub data WireError : Type 0 where
    panicked : WireError
    transport : Transport → WireError
    -- of `error_for_status`
    failed : ℕ → WireError
    unreadable : WireError
    not_decoded : w.Error → WireError
    -- "/batch failed ({status}): {body}"
    batch_failed : ℕ → Text → WireError

module _ ⦃w : ClientSerde⦄ {Transport World : Type 0}
    (send : Method → Text → Text → World → Result Response Transport × World) where
  -- `.error_for_status()?.json()?` of a request that has been sent
  unfoldable pub read_response :
      {A : Type 0}
      → (Text → Result A w.Error)
      → Result Response Transport
      → Result A (WireError Transport)
  read_response read sent = do
    resp ← map_err transport sent
    fail_if (is_failure resp.status) (failed resp.status)
    body ← ok_or resp.body unreadable
    map_err not_decoded (read body)

  -- POST /batch, which reads the text of a failure
  unfoldable pub read_batch : Result Response Transport → Result BatchResponse (WireError Transport)
  read_batch sent = do
    resp ← map_err transport sent
    fail_if (not (is_success resp.status)) (batch_failed resp.status (text_or_default resp.body))
    body ← ok_or resp.body unreadable
    map_err not_decoded (w.read_batch body)

  module _ ⦃c : Crypto⦄ ⦃k : Signer c⦄ ⦃h : Hex⦄ where
    -- the loop that posts
    unfoldable pub post_over :
        List Tx → World → Result (List TxResponse) (WireError Transport) × World
    unfolding read_response
    post_over [] world = (ok [], world)
    post_over (tx ∷ txs) world =
        let (sent, world') = send post tx_path (w.write_tx (request_of tx)) world in
        let (rest, last) = post_over txs world' in
        elim (read_response w.read_tx sent) [
          | err e ↦ (err e, world')
          | ok resp ↦ elim resp.accepted [
            | false ↦ (err panicked, world')
            | true ↦ elim rest [ ok resps ↦ (ok (resp ∷ resps), last) | err e ↦ (err e, last) ]
          ]
        ]

    -- POST /batch and GET /root
    unfoldable pub settle_over :
        World → Result (BatchResponse × w.Value) (WireError Transport) × World
    unfolding read_response read_batch
    settle_over world =
        let (sent, world') = send post batch_path [] world in
        elim (read_batch sent) [
          | err e ↦ (err e, world')
          | ok batch ↦
              let (shown, world'') = send get root_path [] world' in
              elim (read_response w.read_value shown) [
                | err e ↦ (err e, world'')
                | ok value ↦ (ok (batch, value), world'')
              ]
        ]

    unfoldable pub demo_over :
        World → Result (BatchResponse × w.Value) (WireError Transport) × World
    unfolding post_over settle_over
    demo_over world = elim demo_txs [
      | none ↦ (err panicked, world)
      | some txs ↦
          let (posted, world') = post_over txs world in
          elim posted [ err e ↦ (err e, world') | ok resps ↦ settle_over world' ]
    ]
