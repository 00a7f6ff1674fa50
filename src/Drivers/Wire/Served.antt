-- ===== src/Drivers/Wire/Served.antt =====
-- crates/sequencer/src/bin/demo.rs over HTTP against the router of crates/sequencer/src/routes.rs.
use zk_rollup.Base.{
  ◌≡◌, refl, [], ◌∷◌, List, Result, ok, err, arith, Result-cases, Option-cases, Bool-cases, inl,
  inr,
}
use zk_rollup.Types.Address.{Address}
use zk_rollup.Types.Crypto.{Crypto}
use zk_rollup.Types.Text.{Text, Hex}
use zk_rollup.Types.Tx.{Tx}
use zk_rollup.Routes.{
  Outside, TxResponse, RootResponse, BatchResponse, ApiError, status, submit_tx, trigger_batch,
  root,
}
use zk_rollup.Routes.Requests.{request_of}
use zk_rollup.Clients.Http.{Response}
use zk_rollup.Clients.L1.{Alloy}
use zk_rollup.Clients.Startup.{AppCtx}
use zk_rollup.Web.Axum.{Axum, IsLawfulAxum, Method}
use zk_rollup.Web.Sequencer.{Serde, message}
use zk_rollup.Drivers.Wallet.{Signer}
use zk_rollup.Drivers.Demo
use zk_rollup.Drivers.Demo.{DemoError, demo, demo_txs, post_all}
use zk_rollup.Drivers.Wire.{
  ClientSerde, WireError, panicked, failed, batch_failed, post_over, settle_over, demo_over,
}
use zk_rollup.Drivers.Wire.Reading.{
  Agrees, deliver, read_seen, served_tx, served_batch, served_root, read_batch_failed,
  read_batch_settled, read_root,
}

module _ ⦃c : Crypto⦄ ⦃h : Hex⦄ ⦃y : Alloy⦄ ⦃x : Axum⦄ ⦃j : Serde⦄ ⦃w : ClientSerde⦄ ⦃k : Signer c⦄
    (Transport : Type 0) (show_address : Address → Text) (o : Outside) where
  abbrev network : Method → Text → Text → AppCtx → Result Response Transport × AppCtx
  network = deliver Transport show_address o

  -- the client's error for each error of the run without a network
  abbrev pub told_error : DemoError → WireError Transport
  told_error Demo.panicked = panicked
  told_error (Demo.refused e) = failed (status e)
  told_error (Demo.batch_failed e) = batch_failed (status e) (j.write_error (message e))

  abbrev listed :
      Result (List TxResponse) DemoError → Result (List TxResponse) (WireError Transport)
  listed (ok resps) = ok resps
  listed (err e) = err (told_error e)

  post_over-post_all :
      (txs : List Tx) (ctx : AppCtx)
      → IsLawfulAxum x
      → Agrees w j
      → let (r, next) = post_all txs ctx.state in
        post_over network txs ctx ≡ (listed r, record ctx { state = next })
  unfolding post_over post_all
  post_over-post_all [] ctx law agrees = refl
  post_over-post_all (tx ∷ txs) ctx law agrees =
      let req = request_of tx in
      let r = (submit_tx req ctx.state).0 in
      let ctx' : AppCtx = record ctx { state = (submit_tx req ctx.state).1 } in
      let sent = served_tx Transport show_address o req ctx law agrees in
      let rest = post_over-post_all txs ctx' law agrees in
      let seen_r = read_seen Transport show_address o w.read_tx j.write_tx r agrees.tx_answered in
      elim (Result-cases r) [
        | inr (e, q) ↦ ground (arith, sent, seen_r, q)
        | inl (resp, q) ↦ elim (Bool-cases resp.accepted) [
          | inr refused ↦ ground (arith, sent, seen_r, q, refused)
          | inl taken ↦ elim (Result-cases (post_all txs ctx'.state).0) [
            | inl (resps, p) ↦ ground (arith, sent, seen_r, q, taken, rest, p)
            | inr (e, p) ↦ ground (arith, sent, seen_r, q, taken, rest, p)
          ]
        ]
      ]

  -- what the client ends with, for what the run without a network ends with
  abbrev pub told :
      (RootResponse → w.Value)
      → Result (BatchResponse × Text) DemoError
      → Result (BatchResponse × w.Value) (WireError Transport)
  told value_of (ok (batch, text)) = ok (batch, value_of (record { root = text }))
  told value_of (err e) = err (told_error e)

  settle_over_failed :
      (ctx : AppCtx) (e : ApiError)
      → IsLawfulAxum x
      → (trigger_batch o ctx.state).0 ≡ err e
      → settle_over network ctx ≡ (
        err (batch_failed (status e) (j.write_error (message e))),
        record ctx { state = (trigger_batch o ctx.state).1 },
      )
  unfolding settle_over
  settle_over_failed ctx e law q = ground (
    arith,
    served_batch Transport show_address o ctx law,
    read_batch_failed Transport show_address o e,
  )

  settle_over_settled :
      (ctx : AppCtx) (batch : BatchResponse) (agrees : Agrees w j)
      → IsLawfulAxum x
      → (trigger_batch o ctx.state).0 ≡ ok batch
      → let next = (trigger_batch o ctx.state).1 in
        settle_over network ctx
        ≡ (ok (batch, agrees.value_of (root next)), record ctx { state = next })
  unfolding settle_over
  settle_over_settled ctx batch agrees law q =
      let next : AppCtx = record ctx { state = (trigger_batch o ctx.state).1 } in
      ground (
        arith,
        served_batch Transport show_address o ctx law,
        read_batch_settled Transport show_address o batch agrees,
        served_root Transport show_address o next law,
        read_root Transport show_address o (root next.state) agrees,
      )

  -- The demo client over HTTP, on a network that delivers every request to the sequencer's router and
  -- every response back, with JSON that each side reads as the other wrote it: it ends as the run of
  -- the handlers without a network does, with the same responses, or the status and the body of the
  -- same error, and leaves the same state of the sequencer.
  pub demo_over-demo :
      (ctx : AppCtx) (agrees : Agrees w j)
      → IsLawfulAxum x
      → let (r, next) = demo o ctx.state in
        demo_over network ctx ≡ (told agrees.value_of r, record ctx { state = next })
  unfolding demo_over demo
  demo_over-demo ctx agrees law = elim (Option-cases demo_txs) [
    | inl p ↦ ground (arith, p)
    | inr (txs, p) ↦
        let posted = post_over-post_all txs ctx law agrees in
        let s' = (post_all txs ctx.state).1 in
        let ctx' : AppCtx = record ctx { state = s' } in
        elim (Result-cases (post_all txs ctx.state).0) [
          | inr (e, q) ↦ ground (arith, p, posted, q)
          | inl (resps, q) ↦ elim (Result-cases (trigger_batch o s').0) [
            | inr (e, r) ↦ ground (arith, p, posted, q, r, settle_over_failed ctx' e law r)
            | inl (batch, r) ↦
                ground (arith, p, posted, q, r, settle_over_settled ctx' batch agrees law r)
          ]
        ]
  ]
