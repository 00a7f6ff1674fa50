-- ===== src/Web/ProverService.antt =====
-- The server of crates/prover-svc/src/main.rs, its table of routes included, and what `ProverClient` of
-- crates/sequencer/src/prover.rs gets from it.
use zk_rollup.Base.{◌≡◌, refl, ap, ◌∙◌, ◌++◌, [], ◌∷◌, List, Bool, some, ok, err, arith, take}
use zk_rollup.Types.Bytes.{bytes_eq}
use zk_rollup.Types.Text.{Text, Hex}
use zk_rollup.Prover.{Abi, Sdk, ScriptError}
use zk_rollup.Prover.Service
use zk_rollup.Prover.Service.{WorkRequest, ApiError, AppState}
use zk_rollup.Clients.Http.{Http, Json, IsLawfulJson, Response}
use zk_rollup.Clients.Prover
use zk_rollup.Clients.Prover.{ProverClient, info_path, prove_path}
use zk_rollup.Clients.Server.{
  into_response, post_prove, get_info, received, prove-post_prove, info-get_info,
}
use zk_rollup.Web.Axum.{
  Axum, IsLawfulAxum, Route, get, post, Method, found, not_found, method_not_allowed,
  not_found_response, method_not_allowed_response,
}

-- the handlers in the table
pub data Handler : Type 0 where
  to_health : Handler
  to_info : Handler
  to_vkey : Handler
  to_execute : Handler
  to_prove : Handler

abbrev pub health_path : Text
health_path = b'/' ∷ b'h' ∷ b'e' ∷ b'a' ∷ b'l' ∷ b't' ∷ b'h' ∷ []

abbrev pub vkey_path : Text
vkey_path = b'/' ∷ b'v' ∷ b'k' ∷ b'e' ∷ b'y' ∷ []

abbrev pub execute_path : Text
execute_path = b'/' ∷ b'e' ∷ b'x' ∷ b'e' ∷ b'c' ∷ b'u' ∷ b't' ∷ b'e' ∷ []

abbrev pub routes : List (Route Handler)
routes =
    record { pattern = health_path; method = get; handler = to_health }
    ∷ record { pattern = b'/' ∷ b'i' ∷ b'n' ∷ b'f' ∷ b'o' ∷ []; method = get; handler = to_info }
    ∷ record { pattern = vkey_path; method = get; handler = to_vkey }
    ∷ record { pattern = execute_path; method = post; handler = to_execute }
    ∷ record {
      pattern = b'/' ∷ b'p' ∷ b'r' ∷ b'o' ∷ b'v' ∷ b'e' ∷ [];
      method = post;
      handler = to_prove;
    }
    ∷ []

module _ ⦃a : Abi⦄ ⦃d : Sdk⦄ ⦃h : Hex⦄ ⦃j : Json⦄ ⦃x : Axum⦄
    (show : ApiError (ScriptError d.SdkError) → Text) where
  -- POST /execute
  unfoldable pub post_execute : Bool → Text → Response
  unfolding into_response
  post_execute alive body = elim (j.read_work body) [
    | err e ↦ j.rejection e
    | ok req ↦ elim (Service.execute alive req) [
      | ok resp ↦ into_response show (ok (j.write_execute resp))
      | err e ↦ into_response show (err e)
    ]
  ]

  -- a handler's response; `alive` tells whether the thread of its work lives
  unfoldable pub respond : Handler → Bool → AppState → Text → Response
  unfolding into_response post_execute
  respond to_health alive state body = record { status = 200; body = some Service.health }
  respond to_info alive state body = get_info show state
  respond to_vkey alive state body = into_response show (ok (j.write_vkey (Service.vkey state)))
  respond to_execute alive state body = post_execute alive body
  respond to_prove alive state body = post_prove show alive state body

  -- a request to the service
  unfoldable pub serve : Bool → AppState → Method → Text → Text → Response
  unfolding respond
  serve alive state method path body = elim (x.dispatch routes method path) [
    | found handler parameters ↦ respond handler alive state body
    | not_found ↦ not_found_response
    | method_not_allowed ↦ method_not_allowed_response
  ]

  serve_info :
      (alive : Bool) (state : AppState) (body : Text)
      → IsLawfulAxum x
      → serve alive state get info_path body ≡ get_info show state
  unfolding serve bytes_eq
  serve_info alive state body law =
      let at : x.dispatch routes get info_path ≡ found to_info [] =
        law.dispatch_static (take 1 routes) _ _ (ground arith) (ground arith) in
      rw (serve, at) refl

  pub serve_execute :
      (alive : Bool) (state : AppState) (body : Text)
      → IsLawfulAxum x
      → serve alive state post execute_path body ≡ post_execute alive body
  unfolding serve bytes_eq
  serve_execute alive state body law =
      let at : x.dispatch routes post execute_path ≡ found to_execute [] =
        law.dispatch_static (take 3 routes) _ _ (ground arith) (ground arith) in
      rw (serve, at) refl

  pub serve_prove :
      (alive : Bool) (state : AppState) (body : Text)
      → IsLawfulAxum x
      → serve alive state post prove_path body ≡ post_prove show alive state body
  unfolding serve bytes_eq
  serve_prove alive state body law =
      let at : x.dispatch routes post prove_path ≡ found to_prove [] =
        law.dispatch_static (take 4 routes) _ _ (ground arith) (ground arith) in
      rw (serve, at) refl

module _ ⦃a : Abi⦄ ⦃d : Sdk⦄ ⦃h : Hex⦄ ⦃http : Http⦄ ⦃j : Json⦄ ⦃x : Axum⦄
    (show : ApiError (ScriptError d.SdkError) → Text) where
  -- If the client's two requests reach a prover service and its responses come back, then the client
  -- gets the service's mode and key, and what the handler of /prove returns for the same state
  -- and batch, or a failure with the status and the body of that handler's error: the paths, the
  -- methods and the bodies that the client sends are those that the service routes and reads.
  pub client-serve :
      (client : ProverClient) (req : WorkRequest) (alive : Bool) (state : AppState)
      → IsLawfulJson j
      → IsLawfulAxum x
      → http.get (client.base ++ info_path) ≡ ok (serve show alive state get info_path [])
      → http.post (client.base ++ prove_path) (j.write_work req)
        ≡ ok (serve show alive state post prove_path (j.write_work req))
      → (Prover.info client ≡ ok (Service.info state))
        × (Prover.prove client req.prev_state req.batch
            ≡ received show (Service.prove alive state.mode req))
  client-serve client req alive state json axum got posted = (
    info-get_info show client state json (got ∙ ap ok (serve_info show alive state [] axum)),
    prove-post_prove show client req alive state json
        (posted ∙ ap ok (serve_prove show alive state (j.write_work req) axum)),
  )
