-- ===== src/Web/Axum.antt =====
-- What crates/sequencer/src/routes.rs and crates/prover-svc/src/main.rs use of axum's `Router`: a table
-- of routes, and the dispatch of GET and POST requests. The layer for CORS only adds headers.
use zk_rollup.Base.{◌≡◌, ◌≢◌, ◌&&◌, ◌++◌, [], ◌∷◌, List, All, Bool, true, false, none, Any}
use zk_rollup.Types.Bytes.{bytes_eq}
use zk_rollup.Types.Text.{Text}
use zk_rollup.Clients.Http.{Response}

pub data Method : Type 0 where
  get : Method
  post : Method

abbrev pub same_method : Method → Method → Bool
same_method get get = true
same_method get post = false
same_method post get = false
same_method post post = true

-- `.route(pattern, method(handler))`
pub record Route (H : Type 0) : Type 0 where
  pub pattern : Text
  pub method : Method
  pub handler : H

-- a handler with the values of the path's parameters, or none for this path or this method
pub data Found (H : Type 0) : Type 0 where
  found : H → List Text → Found H
  not_found : Found H
  method_not_allowed : Found H

pub record Axum : Type 1 where
  pub dispatch : {H : Type 0} → List (Route H) → Method → Text → Found H
  -- the rejection of the extractor `Path` when there is no parameter
  pub no_parameter : Response

-- neither a parameter nor a wildcard
abbrev pub IsStatic : Text → Type 0
IsStatic pattern = All (λ x. (x ≢ b':') × (x ≢ b'*')) pattern

-- two routes that a router refuses to hold both
abbrev pub clash : {H : Type 0} → Route H → Route H → Bool
clash r s = bytes_eq r.pattern s.pattern && same_method r.method s.method

-- What axum documents: the handler found is one of the table for the method, and a route without
-- parameters is found by its own path.
pub record IsLawfulAxum (x : Axum) : Type 1 where
  pub dispatch_found :
      {H : Type 0} (routes : List (Route H)) (method : Method) (path : Text) (handler : H)
      (parameters : List Text)
      → x.dispatch routes method path ≡ found handler parameters
      → Any (λ r. (r.method ≡ method) × (r.handler ≡ handler)) routes
  pub dispatch_static :
      {H : Type 0} (before rest : List (Route H)) (r : Route H)
      → IsStatic r.pattern
      → All (λ s. clash s r ≡ false) (before ++ rest)
      → x.dispatch (before ++ r ∷ rest) r.method r.pattern ≡ found r.handler []

abbrev pub not_found_response : Response
not_found_response = record { status = 404; body = none }

abbrev pub method_not_allowed_response : Response
method_not_allowed_response = record { status = 405; body = none }
