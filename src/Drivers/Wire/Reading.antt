-- ===== src/Drivers/Wire/Reading.antt =====
-- One request of crates/sequencer/src/bin/demo.rs, answered by the router of
-- crates/sequencer/src/routes.rs, and what the client reads in the response.
use zk_rollup.Base.{◌≡◌, ◌∙◌, refl, [], Result, ok, err}
use zk_rollup.Types.Address.{Address}
use zk_rollup.Types.Crypto.{Crypto}
use zk_rollup.Types.Text.{Text, Hex}
use zk_rollup.Routes.{
  Outside, TxRequest, TxResponse, RootResponse, BatchResponse, ApiError, internal, bad_request,
  status, submit_tx, root,
}
use zk_rollup.Clients.Http.{Response}
use zk_rollup.Clients.L1.{Alloy}
use zk_rollup.Clients.Startup.{AppCtx}
use zk_rollup.Web.Axum.{Axum, IsLawfulAxum, Method, get, post}
use zk_rollup.Web.Sequencer.{
  Serde, into_response, message, answer, serve, post_tx, post_batch, get_root, tx_path, batch_path,
  root_path,
}
use zk_rollup.Web.Requests.{serve_found, batched}
use zk_rollup.Web.Endpoints.{tx_found, batch_found, root_found}
use zk_rollup.Drivers.Wallet.{Signer}
use zk_rollup.Drivers.Wire.{ClientSerde, WireError, failed, batch_failed, read_response, read_batch}

-- What the two sides of serde_json document: what one writes the other reads.
pub record Agrees ⦃h : Hex⦄ (w : ClientSerde) (j : Serde) : Type 0 where
  pub value_of : RootResponse → w.Value
  pub tx_read : (req : TxRequest) → j.read_tx (w.write_tx req) ≡ ok req
  pub tx_answered : (resp : TxResponse) → w.read_tx (j.write_tx resp) ≡ ok resp
  pub batch_answered : (resp : BatchResponse) → w.read_batch (j.write_batch resp) ≡ ok resp
  pub root_answered : (resp : RootResponse) → w.read_value (j.write_root resp) ≡ ok (value_of resp)

module _ ⦃c : Crypto⦄ ⦃h : Hex⦄ ⦃y : Alloy⦄ ⦃x : Axum⦄ ⦃j : Serde⦄ ⦃w : ClientSerde⦄ ⦃k : Signer c⦄
    (Transport : Type 0) (show_address : Address → Text) (o : Outside) where
  -- a network on which every request reaches the sequencer, and its response comes back
  abbrev pub deliver : Method → Text → Text → AppCtx → Result Response Transport × AppCtx
  deliver method path body ctx =
      let (resp, next) = serve show_address o method path body ctx in (ok resp, next)

  -- what the client sees of a handler's result
  abbrev pub seen : {A : Type 0} → Result A ApiError → Result A (WireError Transport)
  seen (ok a) = ok a
  seen (err e) = err (failed (status e))

  pub read_seen :
      {A : Type 0} (read : Text → Result A w.Error) (write : A → Text) (r : Result A ApiError)
      → ((a : A) → read (write a) ≡ ok a)
      → read_response deliver read (ok (into_response write r)) ≡ seen r
  unfolding read_response into_response
  read_seen read write (ok a) back = rw (back a) refl
  read_seen read write (err (bad_request m)) back = refl
  read_seen read write (err (internal m)) back = refl

  pub served_tx :
      (req : TxRequest) (ctx : AppCtx)
      → IsLawfulAxum x
      → Agrees w j
      → let (r, next) = submit_tx req ctx.state in
        serve show_address o post tx_path (w.write_tx req) ctx
        ≡ (into_response j.write_tx r, record ctx { state = next })
  unfolding answer
  served_tx req ctx law agrees =
      serve_found show_address o post tx_path (w.write_tx req) ctx post_tx [] (tx_found law)
      ∙ rw (answer, agrees.tx_read req) refl

  pub served_batch :
      (ctx : AppCtx)
      → IsLawfulAxum x
      → serve show_address o post batch_path [] ctx ≡ batched show_address o ctx
  unfolding answer
  served_batch ctx law =
      serve_found show_address o post batch_path [] ctx post_batch [] (batch_found law)

  pub served_root :
      (ctx : AppCtx)
      → IsLawfulAxum x
      → serve show_address o get root_path [] ctx
        ≡ (into_response j.write_root (ok (root ctx.state)), ctx)
  unfolding answer
  served_root ctx law = serve_found show_address o get root_path [] ctx get_root [] (root_found law)

  -- the failure of /batch, with the text of its body
  pub read_batch_failed :
      (e : ApiError)
      → read_batch deliver (ok (into_response j.write_batch (err e)))
        ≡ err (batch_failed (status e) (j.write_error (message e)))
  unfolding read_batch into_response
  read_batch_failed (bad_request m) = refl
  read_batch_failed (internal m) = refl

  pub read_batch_settled :
      (batch : BatchResponse)
      → Agrees w j
      → read_batch deliver (ok (into_response j.write_batch (ok batch))) ≡ ok batch
  unfolding read_batch into_response
  read_batch_settled batch agrees = rw (agrees.batch_answered batch) refl

  pub read_root :
      (resp : RootResponse) (agrees : Agrees w j)
      → read_response deliver w.read_value (ok (into_response j.write_root (ok resp)))
        ≡ ok (agrees.value_of resp)
  unfolding read_response into_response
  read_root resp agrees = rw (agrees.root_answered resp) refl
