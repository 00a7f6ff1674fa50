-- ===== src/Drivers/Smoke/Wire.antt =====
-- The requests of crates/prover-svc/src/bin/smoke.rs over HTTP, at the router of
-- crates/prover-svc/src/main.rs.
use zk_rollup.Base.{◌≡◌, ◌++◌, Bool, Result, ok, ◌>>=◌, ◌>>◌, map_err, fail_if, arith, some}
use zk_rollup.Types.Crypto.{Crypto, IsLawful}
use zk_rollup.Types.Text.{Text, Hex, IsLawfulHex}
use zk_rollup.Types.Tx.{ok_or}
use zk_rollup.Prover.{Abi, IsLawfulAbi, Sdk, ScriptError}
use zk_rollup.Prover.Service
use zk_rollup.Prover.Service.{WorkRequest, ExecuteResponse, ProveResponse, ApiError, AppState}
use zk_rollup.Prover.Honest.{RunsProgram}
use zk_rollup.Clients.Http.{Http, Json, IsLawfulJson, is_failure}
use zk_rollup.Clients.Prover.{ClientError, transport, failed, unreadable, not_decoded, prove_path}
use zk_rollup.Clients.Server.{into_response, post_prove}
use zk_rollup.Web.Axum.{Axum, IsLawfulAxum, post}
use zk_rollup.Web.ProverService.{post_execute, serve, execute_path, serve_execute, serve_prove}
use zk_rollup.Drivers.Wallet.{Signer}
use zk_rollup.Drivers.Requests.{smoke_request}
use zk_rollup.Drivers.Smoke.{SmokeError, smoke, smoke_passes}

module _ ⦃http : Http⦄ ⦃j : Json⦄ where
  -- `.post(url).json(&payload).send()?.error_for_status()?.json()?`
  unfoldable pub post_json :
      {A : Type 0} → (Text → Result A j.Error) → Text → WorkRequest → Result A ClientError
  post_json read url payload = do
    resp ← map_err transport (http.post url (j.write_work payload))
    fail_if (is_failure resp.status) (failed resp.status)
    body ← ok_or resp.body unreadable
    map_err not_decoded (read body)

  -- `main`, with the URL of the service
  unfoldable pub smoke_over :
      ⦃c : Crypto⦄ → ⦃k : Signer c⦄ → ⦃h : Hex⦄ → Text → Result (Unit {0}) (SmokeError ClientError)
  unfolding post_json smoke
  smoke_over base =
      smoke (post_json j.read_execute (base ++ execute_path))
        (post_json j.read_prove (base ++ prove_path))

module _ ⦃a : Abi⦄ ⦃d : Sdk⦄ ⦃h : Hex⦄ ⦃http : Http⦄ ⦃j : Json⦄ ⦃x : Axum⦄
    (show : ApiError (ScriptError d.SdkError) → Text) where
  executed_over :
      (url : Text) (alive : Bool) (state : AppState) (req : WorkRequest) (ran : ExecuteResponse)
      → IsLawfulJson j
      → IsLawfulAxum x
      → Service.execute alive req ≡ ok ran
      → http.post url (j.write_work req)
        ≡ ok (serve show alive state post execute_path (j.write_work req))
      → post_json j.read_execute url req ≡ ok ran
  unfolding post_json post_execute into_response
  executed_over url alive state req ran json axum e delivered = ground (
    arith,
    delivered,
    e,
    serve_execute show alive state (j.write_work req) axum,
    json.read_work-write_work req,
    json.read_execute-write_execute ran,
  )

  proved_over :
      (url : Text) (alive : Bool) (state : AppState) (req : WorkRequest) (proved : ProveResponse)
      → IsLawfulJson j
      → IsLawfulAxum x
      → Service.prove alive state.mode req ≡ ok proved
      → http.post url (j.write_work req)
        ≡ ok (serve show alive state post prove_path (j.write_work req))
      → post_json j.read_prove url req ≡ ok proved
  unfolding post_json post_prove into_response
  proved_over url alive state req proved json axum e delivered = ground (
    arith,
    delivered,
    e,
    serve_prove show alive state (j.write_work req) axum,
    json.read_work-write_work req,
    json.read_prove-write_prove proved,
  )

  -- Over HTTP the smoke test passes, if its request can be signed, its two requests reach a prover
  -- service of that URL whose responses come back, and the handlers of /execute and of /prove answer
  -- the request: none of the checks fails, with crates that meet their laws and an SDK that runs the
  -- program.
  pub smoke_over_passes :
      ⦃c : Crypto⦄
      → ⦃k : Signer c⦄
      → (base : Text) (alive living : Bool) (state : AppState) (req : WorkRequest)
        (ran : ExecuteResponse) (proved : ProveResponse)
      → IsLawful c
      → IsLawfulHex h
      → IsLawfulAbi a
      → RunsProgram d
      → IsLawfulJson j
      → IsLawfulAxum x
      → smoke_request ≡ some req
      → Service.execute alive req ≡ ok ran
      → Service.prove living state.mode req ≡ ok proved
      → http.post (base ++ execute_path) (j.write_work req)
        ≡ ok (serve show alive state post execute_path (j.write_work req))
      → http.post (base ++ prove_path) (j.write_work req)
        ≡ ok (serve show living state post prove_path (j.write_work req))
      → smoke_over base ≡ ok tt
  unfolding smoke_over
  smoke_over_passes base alive living state req ran proved law hex abi runs json axum p e f sent
        sent' =
      smoke_passes (post_json j.read_execute (base ++ execute_path))
        (post_json j.read_prove (base ++ prove_path)) alive living state.mode req ran proved law hex
        abi runs p e f (executed_over (base ++ execute_path) alive state req ran json axum e sent)
        (proved_over (base ++ prove_path) living state req proved json axum f sent')
