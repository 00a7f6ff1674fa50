-- ===== src/Clients/Prover.antt =====
-- `ProverClient` of crates/sequencer/src/prover.rs.
use zk_rollup.Base.{
  ℕ, ◌++◌, ◌==◌, ◌&&◌, [], ◌∷◌, not, if◌then◌else◌, Result, ◌>>=◌, ◌>>◌, map_err, fail_if,
}
use zk_rollup.Types.State.{State}
use zk_rollup.Types.Text.{Text}
use zk_rollup.Types.Tx.{Batch, ok_or}
use zk_rollup.Prover.Service.{WorkRequest, ProveResponse, InfoResponse}
use zk_rollup.Routes.{is_empty}
use zk_rollup.Clients.Http.{Http, Json, is_success, is_failure, text_or_default}

pub record ProverClient : Type 0 where
  pub base : Text

-- `base.trim_end_matches('/')`
unfoldable pub trim_end_slashes : Text → Text
trim_end_slashes [] = []
trim_end_slashes (x ∷ xs) =
    let rest = trim_end_slashes xs in if x == b'/' && is_empty rest then [] else x ∷ rest

-- `ProverClient::new`
unfoldable pub new : Text → ProverClient
unfolding trim_end_slashes
new base = record { base = trim_end_slashes base }

abbrev pub info_path : Text
info_path = b'/' ∷ b'i' ∷ b'n' ∷ b'f' ∷ b'o' ∷ []

abbrev pub prove_path : Text
prove_path = b'/' ∷ b'p' ∷ b'r' ∷ b'o' ∷ b'v' ∷ b'e' ∷ []

module _ ⦃http : Http⦄ ⦃j : Json⦄ where
  pub data ClientError : Type 0 where
    transport : http.Error → ClientError
    -- of `error_for_status`
    failed : ℕ → ClientError
    unreadable : ClientError
    not_decoded : j.Error → ClientError
    -- "prover-svc /prove failed ({status}): {body}"
    prove_failed : ℕ → Text → ClientError

  -- `ProverClient::info`
  unfoldable pub info : ProverClient → Result InfoResponse ClientError
  info client = do
    resp ← map_err transport (http.get (client.base ++ info_path))
    fail_if (is_failure resp.status) (failed resp.status)
    body ← ok_or resp.body unreadable
    map_err not_decoded (j.read_info body)

  -- `ProverClient::prove`
  unfoldable pub prove : ProverClient → State → Batch → Result ProveResponse ClientError
  prove client prev_state batch = do
    let req : WorkRequest = record { prev_state = prev_state; batch = batch }
    resp ← map_err transport (http.post (client.base ++ prove_path) (j.write_work req))
    fail_if (not (is_success resp.status)) (prove_failed resp.status (text_or_default resp.body))
    body ← ok_or resp.body unreadable
    map_err not_decoded (j.read_prove body)
