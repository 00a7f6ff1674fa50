-- ===== src/Web/Sequencer.antt =====
-- `router` of crates/sequencer/src/routes.rs, and what a request that reaches it makes of the state.
-- serde_json is an interface.
use zk_rollup.Base.{[], ◌∷◌, List, some, Result, ok, err}
use zk_rollup.Types.Address.{Address}
use zk_rollup.Types.Crypto.{Crypto}
use zk_rollup.Types.Text.{Text, Hex}
use zk_rollup.Routes.{
  Outside, TxRequest, TxResponse, RootResponse, AccountResponse, MempoolEntry, BatchResponse,
  ApiError, Message, internal, bad_request, status, root, account, mempool, submit_tx,
  trigger_batch,
}
use zk_rollup.Clients.Http.{Response}
use zk_rollup.Clients.L1.{Alloy}
use zk_rollup.Clients.Startup.{AppCtx}
use zk_rollup.Clients.Info.{InfoResponse, health, info}
use zk_rollup.Web.Axum.{
  Axum, Route, get, post, Method, found, not_found, method_not_allowed, not_found_response,
  method_not_allowed_response,
}

-- the handlers in the table
pub data Handler : Type 0 where
  get_health : Handler
  get_info : Handler
  get_root : Handler
  get_account : Handler
  get_mempool : Handler
  post_tx : Handler
  post_batch : Handler

abbrev pub health_path : Text
health_path = b'/' ∷ b'h' ∷ b'e' ∷ b'a' ∷ b'l' ∷ b't' ∷ b'h' ∷ []

abbrev pub info_path : Text
info_path = b'/' ∷ b'i' ∷ b'n' ∷ b'f' ∷ b'o' ∷ []

abbrev pub root_path : Text
root_path = b'/' ∷ b'r' ∷ b'o' ∷ b'o' ∷ b't' ∷ []

abbrev pub account_path : Text
account_path =
    b'/' ∷ b's' ∷ b't' ∷ b'a' ∷ b't' ∷ b'e' ∷ b'/' ∷ b':' ∷ b'a' ∷ b'd' ∷ b'd' ∷ b'r' ∷ []

abbrev pub mempool_path : Text
mempool_path = b'/' ∷ b'm' ∷ b'e' ∷ b'm' ∷ b'p' ∷ b'o' ∷ b'o' ∷ b'l' ∷ []

abbrev pub tx_path : Text
tx_path = b'/' ∷ b't' ∷ b'x' ∷ []

abbrev pub batch_path : Text
batch_path = b'/' ∷ b'b' ∷ b'a' ∷ b't' ∷ b'c' ∷ b'h' ∷ []

abbrev pub router : List (Route Handler)
router =
    record { pattern = health_path; method = get; handler = get_health }
    ∷ record { pattern = info_path; method = get; handler = get_info }
    ∷ record { pattern = root_path; method = get; handler = get_root }
    ∷ record { pattern = account_path; method = get; handler = get_account }
    ∷ record { pattern = mempool_path; method = get; handler = get_mempool }
    ∷ record { pattern = tx_path; method = post; handler = post_tx }
    ∷ record { pattern = batch_path; method = post; handler = post_batch }
    ∷ []

-- the texts that serde_json makes of the responses, and its reading of a `TxRequest`
pub record Serde ⦃h : Hex⦄ : Type 1 where
  pub Error : Type 0
  pub write_info : InfoResponse → Text
  pub write_root : RootResponse → Text
  pub write_account : AccountResponse → Text
  pub write_mempool : List MempoolEntry → Text
  pub write_tx : TxResponse → Text
  pub write_batch : BatchResponse → Text
  -- `json!({ "error": msg })`
  pub write_error : Message → Text
  pub read_tx : Text → Result TxRequest Error
  -- axum's answer to a body that is not a request
  pub rejection : Error → Response

module _ ⦃h : Hex⦄ ⦃j : Serde⦄ where
  abbrev pub message : ApiError → Message
  message (bad_request m) = m
  message (internal m) = m

  -- `Json(..)` of a result, or `ApiError::into_response`
  unfoldable pub into_response : {A : Type 0} → (A → Text) → Result A ApiError → Response
  into_response write (ok a) = record { status = 200; body = some (write a) }
  into_response write (err e) = record {
    status = status e;
    body = some (j.write_error (message e));
  }

module _ ⦃c : Crypto⦄ ⦃h : Hex⦄ ⦃y : Alloy⦄ ⦃x : Axum⦄ ⦃j : Serde⦄ (show_address : Address → Text)
    (o : Outside) where
  -- the handlers, with the parameters of the path and the body that their extractors read
  unfoldable pub answer : Handler → List Text → Text → AppCtx → Response × AppCtx
  unfolding into_response
  answer get_health parameters body ctx = (record { status = 200; body = some health }, ctx)
  answer get_info parameters body ctx =
      (into_response j.write_info (ok (info show_address ctx)), ctx)
  answer get_root parameters body ctx = (into_response j.write_root (ok (root ctx.state)), ctx)
  answer get_account [] body ctx = (x.no_parameter, ctx)
  answer get_account (addr ∷ _) body ctx =
      (into_response j.write_account (account addr ctx.state), ctx)
  answer get_mempool parameters body ctx =
      (into_response j.write_mempool (ok (mempool ctx.state)), ctx)
  answer post_tx parameters body ctx = elim (j.read_tx body) [
    | err e ↦ (j.rejection e, ctx)
    | ok req ↦
        let (r, next) = submit_tx req ctx.state in
        (into_response j.write_tx r, record ctx { state = next })
  ]
  answer post_batch parameters body ctx =
      let (r, next) = trigger_batch o ctx.state in
      (into_response j.write_batch r, record ctx { state = next })

  -- a request to the server: its response, and the context that it leaves
  unfoldable pub serve : Method → Text → Text → AppCtx → Response × AppCtx
  unfolding answer
  serve method path body ctx = elim (x.dispatch router method path) [
    | found handler parameters ↦ answer handler parameters body ctx
    | not_found ↦ (not_found_response, ctx)
    | method_not_allowed ↦ (method_not_allowed_response, ctx)
  ]
