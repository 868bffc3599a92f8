-- ===== src/App.antt =====
-- The application: src/fleet_management/main.py. What FastAPI and Starlette do with the parts is
-- theirs; here are the parts that the code chooses and the answers of its error handlers.
pub mod Answers
pub mod Exposure
mod Tests
use fleet_management.Prelude.{ℕ, String, Bool, not, Option, none, some, if◌then◌else◌}
use fleet_management.Models.Privacy.{ConsentPurpose}
use fleet_management.Session.{
  Error, not_found, vehicle_not_available, station_full, dependency_unavailable,
  email_already_registered, consent_denied, http_exception, integrity_error, attribute_error,
  Result, ok, err,
}
use fleet_management.Config.{Settings, is_production}

abbrev pub dependency_retry_after_seconds : ℕ
dependency_retry_after_seconds = 5

-- The body of a response: the value, the text of an exception, the gate's refusal, or the generic
-- text with the id of the request.
pub data Content (A : Type 0) : Type 0 where
  value : A → Content A
  detail : Error → Content A
  denial : ConsentPurpose → String → Content A
  internal : (request_id : String) → Content A

pub record Response (A : Type 0) : Type 0 where
  pub status_code : ℕ
  pub content : Content A
  pub retry_after : Option ℕ

module _ {A : Type 0} where
  abbrev pub json_response : ℕ → Content A → Response A
  json_response status_code content = record {
    status_code = status_code;
    content = content;
    retry_after = none;
  }

  -- `_register_error_handlers`: an exception without a handler of its own, the libraries' among
  -- them, gets the generic answer. `HTTPException` has FastAPI's handler.
  abbrev pub handle_error : String → Error → Response A
  handle_error request_id (not_found entity k) = json_response 404 (detail (not_found entity k))
  handle_error request_id (vehicle_not_available entity k) =
      json_response 409 (detail (vehicle_not_available entity k))
  handle_error request_id (station_full k) = json_response 409 (detail (station_full k))
  handle_error request_id (email_already_registered email) =
      json_response 409 (detail (email_already_registered email))
  handle_error request_id (consent_denied purpose reason) =
      json_response 403 (denial purpose reason)
  handle_error request_id (dependency_unavailable k) = record {
    status_code = 503;
    content = detail (dependency_unavailable k);
    retry_after = some dependency_retry_after_seconds;
  }
  handle_error request_id (http_exception status) =
      json_response status (detail (http_exception status))
  handle_error request_id integrity_error = json_response 500 (internal request_id)
  handle_error request_id attribute_error = json_response 500 (internal request_id)

  -- A route's result as the response, with the status code that the route declares.
  abbrev pub respond : ℕ → String → Result A → Response A
  respond success request_id (ok a) = json_response success (value a)
  respond success request_id (err e) = handle_error request_id e

-- What `create_app` gives to `FastAPI`.
pub record App : Type 0 where
  pub debug : Bool
  pub docs_url : Option String
  pub redoc_url : Option String
  pub openapi_url : Option String

unfoldable pub create_app : Settings → App
create_app cfg =
    let docs_enabled = not (is_production cfg.app_env) in
    record {
      debug = cfg.debug;
      docs_url = if docs_enabled then some "/docs" else none;
      redoc_url = if docs_enabled then some "/redoc" else none;
      openapi_url = if docs_enabled then some "/openapi.json" else none;
    }

-- `if not cfg.jwt_secret_key`, for a text
abbrev pub is_set : Option String → Bool
is_set none = Bool.false
is_set (some String.[]) = Bool.false
is_set (some (String.◌∷◌ c s)) = Bool.true

-- Whether `lifespan` lets the application start, and does not raise its `RuntimeError`.
unfoldable pub lifespan : Settings → Bool
lifespan cfg = is_set cfg.jwt_secret_key
