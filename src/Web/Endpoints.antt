-- ===== src/Web/Endpoints.antt =====
-- The endpoints of crates/sequencer/src/routes.rs that README.md lists, and who answers at each.
use zk_rollup.Base.{◌≡◌, refl, ◌∙◌, [], some, ok, arith, take}
use zk_rollup.Types.Address.{Address}
use zk_rollup.Types.Bytes.{bytes_eq}
use zk_rollup.Types.Crypto.{Crypto}
use zk_rollup.Types.Text.{Text, Hex}
use zk_rollup.Routes.{Outside, TxRequest, submit_tx, root, mempool}
use zk_rollup.Clients.L1.{Alloy}
use zk_rollup.Clients.Startup.{AppCtx}
use zk_rollup.Clients.Info.{health, info}
use zk_rollup.Web.Axum.{Axum, IsLawfulAxum, get, post, found}
use zk_rollup.Web.Sequencer.{
  get_health, get_info, get_root, get_mempool, post_tx, post_batch, router, Serde, into_response,
  answer, serve, health_path, info_path, root_path, mempool_path, tx_path, batch_path,
}
use zk_rollup.Web.Requests.{serve_found, batched}

module _ ⦃x : Axum⦄ (law : IsLawfulAxum x) where
  health_found : x.dispatch router get health_path ≡ found get_health []
  unfolding bytes_eq
  health_found = law.dispatch_static [] _ _ (ground arith) (ground arith)

  info_found : x.dispatch router get info_path ≡ found get_info []
  unfolding bytes_eq
  info_found = law.dispatch_static (take 1 router) _ _ (ground arith) (ground arith)

  pub root_found : x.dispatch router get root_path ≡ found get_root []
  unfolding bytes_eq
  root_found = law.dispatch_static (take 2 router) _ _ (ground arith) (ground arith)

  mempool_found : x.dispatch router get mempool_path ≡ found get_mempool []
  unfolding bytes_eq
  mempool_found = law.dispatch_static (take 4 router) _ _ (ground arith) (ground arith)

  pub tx_found : x.dispatch router post tx_path ≡ found post_tx []
  unfolding bytes_eq
  tx_found = law.dispatch_static (take 5 router) _ _ (ground arith) (ground arith)

  pub batch_found : x.dispatch router post batch_path ≡ found post_batch []
  unfolding bytes_eq
  batch_found = law.dispatch_static (take 6 router) _ _ (ground arith) (ground arith)

module _ ⦃c : Crypto⦄ ⦃h : Hex⦄ ⦃y : Alloy⦄ ⦃x : Axum⦄ ⦃j : Serde⦄ (show_address : Address → Text)
    (o : Outside) where
  -- At each endpoint without a parameter the handler answers that README.md promises, and the whole
  -- request is that handler's run on the state: /health, /info, /root and /mempool with GET, and with
  -- POST a body that is read as a request to /tx, and any body to /batch.
  pub serve-router :
      (body : Text) (req : TxRequest) (ctx : AppCtx)
      → IsLawfulAxum x
      → j.read_tx body ≡ ok req
      → let run = serve show_address o in
        let (posted, next) = submit_tx req ctx.state in
        (run get health_path body ctx ≡ (record { status = 200; body = some health }, ctx))
        × (run get info_path body ctx
            ≡ (into_response j.write_info (ok (info show_address ctx)), ctx))
        × (run get root_path body ctx ≡ (into_response j.write_root (ok (root ctx.state)), ctx))
        × (run get mempool_path body ctx
            ≡ (into_response j.write_mempool (ok (mempool ctx.state)), ctx))
        × (run post tx_path body ctx
            ≡ (into_response j.write_tx posted, record ctx { state = next }))
        × (run post batch_path body ctx ≡ batched show_address o ctx)
  unfolding answer
  serve-router body req ctx law e =
      let at = serve_found show_address o in
      (
        at get health_path body ctx get_health [] (health_found law),
        at get info_path body ctx get_info [] (info_found law),
        at get root_path body ctx get_root [] (root_found law),
        at get mempool_path body ctx get_mempool [] (mempool_found law),
        at post tx_path body ctx post_tx [] (tx_found law) ∙ rw (answer, e) refl,
        at post batch_path body ctx post_batch [] (batch_found law),
      )
