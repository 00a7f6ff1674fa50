-- ===== src/Clients/Server.antt =====
-- crates/prover-svc/src/main.rs as a server, and what `ProverClient` gets from it.
use zk_rollup.Base.{◌≡◌, ◌++◌, Bool, some, Result, ok, err, arith, Result-cases, inl, inr}
use zk_rollup.Types.Text.{Text, Hex}
use zk_rollup.Prover.{Abi, Sdk, ScriptError}
use zk_rollup.Prover.Service
use zk_rollup.Prover.Service.{
  WorkRequest, ProveResponse, InfoResponse, ApiError, internal, bad_request, status, AppState,
}
use zk_rollup.Clients.Http.{Http, Json, IsLawfulJson, Response}
use zk_rollup.Clients.Prover
use zk_rollup.Clients.Prover.{ProverClient, ClientError, prove_failed, prove_path, info_path}

module _ {E : Type 0} (show : ApiError E → Text) where
  -- `ApiError::into_response`; `show` is the JSON with the error's text
  unfoldable pub into_response : Result Text (ApiError E) → Response
  into_response (ok body) = record { status = 200; body = some body }
  into_response (err e) = record { status = status e; body = some (show e) }

module _ ⦃a : Abi⦄ ⦃d : Sdk⦄ ⦃h : Hex⦄ ⦃j : Json⦄
    (show : ApiError (ScriptError d.SdkError) → Text) where
  -- POST /prove: the body is read as a request, and the handler's result is written
  unfoldable pub post_prove : Bool → AppState → Text → Response
  unfolding into_response
  post_prove alive state body = elim (j.read_work body) [
    | err e ↦ j.rejection e
    | ok req ↦ elim (Service.prove alive state.mode req) [
      | ok resp ↦ into_response show (ok (j.write_prove resp))
      | err e ↦ into_response show (err e)
    ]
  ]

  -- GET /info
  unfoldable pub get_info : AppState → Response
  unfolding into_response
  get_info state = into_response show (ok (j.write_info (Service.info state)))

-- what the client makes of the handler's result
abbrev pub received :
    ⦃http : Http⦄
    → ⦃j : Json⦄ → {E : Type 0} → (ApiError E → Text)
    → Result ProveResponse (ApiError E)
    → Result ProveResponse ClientError
received show (ok resp) = ok resp
received show (err e) = err (prove_failed (status e) (show e))

module _ ⦃a : Abi⦄ ⦃d : Sdk⦄ ⦃h : Hex⦄ ⦃http : Http⦄ ⦃j : Json⦄
    (show : ApiError (ScriptError d.SdkError) → Text) where
  -- If the client's POST reaches the service and its response comes back, then `ProverClient::prove`
  -- returns what the handler of /prove returns for the same state and batch, or fails with the
  -- status and the body of the handler's error.
  pub prove-post_prove :
      (client : ProverClient) (req : WorkRequest) (alive : Bool) (state : AppState)
      → IsLawfulJson j
      → http.post (client.base ++ prove_path) (j.write_work req)
        ≡ ok (post_prove show alive state (j.write_work req))
      → Prover.prove client req.prev_state req.batch
        ≡ received show (Service.prove alive state.mode req)
  unfolding Prover.prove post_prove
  prove-post_prove client req alive state law delivered =
      elim (Result-cases (Service.prove alive state.mode req)) [
        | inl (resp, p) ↦
            ground (arith, delivered, law.read_work-write_work req, law.read_prove-write_prove resp)
        | inr (internal, p) ↦ ground (arith, delivered, law.read_work-write_work req)
        | inr (bad_request e, p) ↦ ground (arith, delivered, law.read_work-write_work req)
      ]

  -- The same for /info.
  pub info-get_info :
      (client : ProverClient) (state : AppState)
      → IsLawfulJson j
      → http.get (client.base ++ info_path) ≡ ok (get_info show state)
      → Prover.info client ≡ ok (Service.info state)
  unfolding Prover.info get_info
  info-get_info client state law delivered =
      ground (arith, delivered, law.read_info-write_info (Service.info state))
