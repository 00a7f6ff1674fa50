-- ===== src/Tests/Web.antt =====
-- The two servers at concrete inputs, over a router that finds routes by their own path.
use zk_rollup.Tests.Serde.{serde, client_serde, agrees}
use zk_rollup.Tests.Sequencer.{waiting, waiting-IsConsistent}
use zk_rollup.Routes.Effects.{Outcome}
use zk_rollup.Web.Sequencer
use zk_rollup.Web.ProverService
use zk_rollup.Prover.Service
use zk_rollup.Clients.Prover
use zk_rollup.Tests.Routes.{all_well}
use zk_rollup.Tests.Startup.{ctx}
use zk_rollup.Tests.Clients.{alloy}
use zk_rollup.Tests.Prover.{request}
use zk_rollup.Tests.Data.{two_accounts, payments, pay_100, pay_carol}
use zk_rollup.Tests.Json.{json, json-IsLawfulJson}
use zk_rollup.Tests.Crates.{crypto, hex, abi, sdk}
use zk_rollup.Clients.Server.{received}
use zk_rollup.Clients.Prover.{ProverClient, prove_path}
use zk_rollup.Prover.Service.{ApiError, AppState}
use zk_rollup.Prover.{ScriptError, mock}
use zk_rollup.Web.ProverService.{client-serve}
use zk_rollup.Web.Endpoints.{serve-router}
use zk_rollup.Web.Requests.{serve_effects, Keeps, batched}
use zk_rollup.Web.Sequencer.{
  Serde, into_response, health_path, info_path, root_path, mempool_path, tx_path, batch_path,
}
use zk_rollup.Clients.Http.{Http, Response}
use zk_rollup.Clients.Startup.{AppCtx}
use zk_rollup.Types.Address.{Address}
use zk_rollup.Base.{
  ◌≡◌, ◌⊎◌, inl, inr, refl, ◌&&◌, ◌++◌, [], ◌∷◌, List, All, Bool-cases, true, false, some, none, ok,
  if◌then◌else◌, arith, Any,
}
use zk_rollup.Types.Bytes.{bytes_eq}
use zk_rollup.Types.Order.{bytes_eq_refl}
use zk_rollup.Types.Text.{Text}
use zk_rollup.Routes.{submit_tx, root, mempool, trigger_batch}
use zk_rollup.Routes.Requests.{request_of}
use zk_rollup.Clients.Info.{health, info}
use zk_rollup.Web.Axum.{
  Method, get, post, Route, Found, found, not_found, Axum, IsLawfulAxum, clash, IsStatic,
  same_method,
}

same_method_refl : (m : Method) → same_method m m ≡ true
same_method_refl get = refl
same_method_refl post = refl

eq_of_same_method : (m n : Method) → same_method m n ≡ true → m ≡ n
eq_of_same_method get get e = refl
eq_of_same_method post post e = refl
eq_of_same_method get post e = cc
eq_of_same_method post get e = cc

module _ {H : Type 0} where
  abbrev pub dispatch : List (Route H) → Method → Text → Found H
  dispatch [] method path = not_found
  dispatch (r ∷ rs) method path =
      let rest = dispatch rs method path in
      if bytes_eq r.pattern path && same_method r.method method then found r.handler [] else rest

  dispatch_found :
      (routes : List (Route H)) (method : Method) (path : Text) (handler : H) (ps : List Text)
      → dispatch routes method path ≡ found handler ps
      → Any (λ r. (r.method ≡ method) × (r.handler ≡ handler)) routes
  dispatch_found [] method path handler ps e = absurd (ground arith)
  dispatch_found (r ∷ rs) method path handler ps e =
      elim (Bool-cases (bytes_eq r.pattern path && same_method r.method method)) [
        | inl p ↦ inl (eq_of_same_method r.method method (ground arith), ground arith)
        | inr p ↦ inr (dispatch_found rs method path handler ps (ground arith))
      ]

  dispatch_static :
      (before rest : List (Route H)) (r : Route H)
      → IsStatic r.pattern
      → All (λ s. clash s r ≡ false) (before ++ rest)
      → dispatch (before ++ r ∷ rest) r.method r.pattern ≡ found r.handler []
  dispatch_static [] rest r st h =
      ground (arith, bytes_eq_refl r.pattern, same_method_refl r.method)
  dispatch_static (s ∷ before) rest r st h =
      ground (arith, h.0, dispatch_static before rest r st h.1)

instance abbrev pub axum : Axum
axum = record { dispatch = dispatch; no_parameter = record { status = 500; body = none } }

pub axum-IsLawfulAxum : IsLawfulAxum axum
axum-IsLawfulAxum = record { dispatch_found = dispatch_found; dispatch_static = dispatch_static }

abbrev pub show_address : Address → Text
show_address a = a.bytes

-- with transactions in the mempool
abbrev pub waiting_ctx : AppCtx
waiting_ctx = record ctx { state = waiting }

abbrev run : Method → Text → Text → AppCtx → Response × AppCtx
run = Sequencer.serve show_address all_well

serve_effects_example :
    ((run post batch_path [] waiting_ctx).1 ≡ waiting_ctx)
    ⊎ ((post ≡ post)
        × (Keeps show_address all_well waiting_ctx (run post batch_path [] waiting_ctx).1
            ⊎ ((run post batch_path [] waiting_ctx ≡ batched show_address all_well waiting_ctx)
                × Outcome waiting (trigger_batch all_well waiting))))
serve_effects_example =
    serve_effects show_address all_well post batch_path [] waiting_ctx (pay_carol ∷ [])
      (pay_100 ∷ []) [] axum-IsLawfulAxum waiting-IsConsistent (λ t. refl) (λ t. refl) (λ t. refl)

abbrev posted_body : Text
posted_body = client_serde.write_tx (request_of pay_100)

answered :
    let (posted, next) = submit_tx (request_of pay_100) ctx.state in
    (run get health_path posted_body ctx ≡ (record { status = 200; body = some health }, ctx))
    × (run get info_path posted_body ctx
        ≡ (into_response serde.write_info (ok (info show_address ctx)), ctx))
    × (run get root_path posted_body ctx
        ≡ (into_response serde.write_root (ok (root ctx.state)), ctx))
    × (run get mempool_path posted_body ctx
        ≡ (into_response serde.write_mempool (ok (mempool ctx.state)), ctx))
    × (run post tx_path posted_body ctx
        ≡ (into_response serde.write_tx posted, record ctx { state = next }))
    × (run post batch_path posted_body ctx ≡ batched show_address all_well ctx)
answered =
    serve-router show_address all_well posted_body (request_of pay_100) ctx axum-IsLawfulAxum
      (agrees.tx_read (request_of pay_100))

abbrev show : ApiError (ScriptError sdk.SdkError) → Text
show e = b'e' ∷ []

abbrev service : AppState
service = record { mode = mock; vkey = b'v' ∷ b'k' ∷ [] }

-- a network that brings the requests to the service, whatever host they name
instance abbrev http : Http
http = record {
  Error = Unit {0};
  get = λ url. ok (ProverService.serve show true service get info_path []);
  post = λ url body. ok (ProverService.serve show true service post prove_path body);
}

abbrev client : ProverClient
client = record { base = b'h' ∷ [] }

client-serve_example :
    (Prover.info client ≡ ok (Service.info service))
    × (Prover.prove client two_accounts payments ≡ received show (Service.prove true mock request))
client-serve_example =
    client-serve show client request true service json-IsLawfulJson axum-IsLawfulAxum refl refl
