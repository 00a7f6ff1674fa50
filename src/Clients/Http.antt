-- ===== src/Clients/Http.antt =====
-- What crates/sequencer/src/prover.rs and crates/prover-svc/src/main.rs use of HTTP and JSON.
use zk_rollup.Base.{[], ℕ, ◌≡◌, Bool, leb, ltb, ◌&&◌, Option, none, some, Result, ok}
use zk_rollup.Types.Text.{Text}
use zk_rollup.Prover.Service.{
  WorkRequest, ProveResponse, ExecuteResponse, InfoResponse, VkeyResponse,
}

-- a response as it arrives; the body may fail to be read
pub record Response : Type 0 where
  pub status : ℕ
  pub body : Option Text

-- `reqwest::Client`: the requests that the clients send, to a URL and with a JSON body
pub record Http : Type 1 where
  pub Error : Type 0
  pub get : Text → Result Response Error
  pub post : Text → Text → Result Response Error

-- serde_json, and axum's rejection of a body that is not a request
pub record Json : Type 1 where
  pub Error : Type 0
  pub write_work : WorkRequest → Text
  pub read_work : Text → Result WorkRequest Error
  pub write_prove : ProveResponse → Text
  pub read_prove : Text → Result ProveResponse Error
  pub write_info : InfoResponse → Text
  pub read_info : Text → Result InfoResponse Error
  pub write_execute : ExecuteResponse → Text
  pub read_execute : Text → Result ExecuteResponse Error
  pub write_vkey : VkeyResponse → Text
  pub rejection : Error → Response

-- What is written is read back, and a rejection is no success.
pub record IsLawfulJson (j : Json) : Type 0 where
  pub read_work-write_work : (x : WorkRequest) → j.read_work (j.write_work x) ≡ ok x
  pub read_prove-write_prove : (x : ProveResponse) → j.read_prove (j.write_prove x) ≡ ok x
  pub read_info-write_info : (x : InfoResponse) → j.read_info (j.write_info x) ≡ ok x
  pub read_execute-write_execute : (x : ExecuteResponse) → j.read_execute (j.write_execute x) ≡ ok x

-- `StatusCode::is_success`
abbrev pub is_success : ℕ → Bool
is_success n = leb 200 n && ltb n 300

-- `Response::error_for_status` fails on these
abbrev pub is_failure : ℕ → Bool
is_failure n = leb 400 n && ltb n 600

-- `resp.text().await.unwrap_or_default()`
abbrev pub text_or_default : Option Text → Text
text_or_default none = []
text_or_default (some t) = t
