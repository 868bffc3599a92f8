-- ===== src/Privacy/Middleware.antt =====
-- The middleware that binds a correlation id to each request: privacy/middleware.py of
-- src/fleet_management. The wrapped application is given by what it sends when it is called with a
-- context, and whether it raises; the text of a header is its latin-1 decoding.
use text.Mathlib.TextPositions.{eq_refl}
use fleet_management.Prelude.{
  ℕ, String, ◌≡◌, refl, Bool, true, false, Option, none, some, List, [], ◌∷◌, ◌++◌, length, All,
  if◌then◌else◌, str_eq,
}
use fleet_management.Privacy.Correlation.{accept_or_generate}

-- `_HEADER_KEY`
abbrev pub header_key : String
header_key = "x-correlation-id"

abbrev pub Headers : Type 0
Headers = List (String × String)

-- An ASGI message that starts a response, or another one.
pub data Message : Type 0 where
  response_start : (status : ℕ) → Headers → Message
  other_message : String → Message

pub record Scope : Type 0 where
  pub is_http : Bool
  pub method : String
  pub path : String
  pub headers : Headers

-- What a call of an application sends, and whether it raises behind that.
pub record AppRun : Type 0 where
  pub messages : List Message
  pub raised : Bool

-- The line of the access log, without its duration.
pub record LogLine : Type 0 where
  pub method : String
  pub path : String
  pub status : ℕ

-- What a call of the middleware sends and logs, and the context variable behind it.
pub record Called : Type 0 where
  pub messages : List Message
  pub raised : Bool
  pub log : List LogLine
  pub context : Option String

-- `dict(headers).get(key)`: of several pairs with one key the last one counts.
abbrev pub header_from : String → Option String → Headers → Option String
header_from key found [] = found
header_from key found ((k, v) ∷ headers) =
    header_from key (if str_eq k key then some v else found) headers

abbrev pub send_with_header : String → Message → Message
send_with_header id (response_start status headers) =
    response_start status (headers ++ (header_key, id) ∷ [])
send_with_header id (other_message name) = other_message name

abbrev pub status_after : ℕ → Message → ℕ
status_after status (response_start started headers) = started
status_after status (other_message name) = status

-- The messages one after the other, with `status_code`.
abbrev pub send_each : String → ℕ → List Message → List Message × ℕ
send_each id status [] = ([], status)
send_each id status (m ∷ ms) =
    let rest = send_each id (status_after status m) ms in (send_with_header id m ∷ rest.0, rest.1)

abbrev pub log_line : Scope → ℕ → LogLine
log_line scope status = record { method = scope.method; path = scope.path; status = status }

-- `__call__`, given whether the scope is of type "http"
abbrev pub call_for :
    Bool → (Scope → Option String → AppRun) → (fresh : String) → Scope → Option String → Called
call_for true app fresh scope context =
    let id = accept_or_generate fresh (header_from header_key none scope.headers) in
    let run = app scope (some id) in
    let sent = send_each id 500 run.messages in
    record {
      messages = sent.0;
      raised = run.raised;
      log = log_line scope sent.1 ∷ [];
      context = context;
    }
call_for false app fresh scope context =
    let run = app scope context in
    record { messages = run.messages; raised = run.raised; log = []; context = context }

unfoldable pub call :
    (Scope → Option String → AppRun) → (fresh : String) → Scope → Option String → Called
call app fresh scope context = call_for scope.is_http app fresh scope context

-- Each started response has the header, as the last of its name.
abbrev pub CarriesId : String → Message → Type 0
CarriesId id (response_start status headers) = header_from header_key none headers ≡ some id
CarriesId id (other_message name) = Unit

header_from-append :
    (key id : String) (found : Option String) (headers : Headers)
    → header_from key found (headers ++ (key, id) ∷ []) ≡ some id
header_from-append key id found [] = rw (eq_refl key) refl
header_from-append key id found ((k, v) ∷ headers) =
    header_from-append key id (if str_eq k key then some v else found) headers

send_each-CarriesId :
    (id : String) (status : ℕ) (ms : List Message) → All (CarriesId id) (send_each id status ms).0
send_each-CarriesId id status [] = tt
send_each-CarriesId id status (response_start started headers ∷ ms) =
    (header_from-append header_key id none headers, send_each-CarriesId id started ms)
send_each-CarriesId id status (other_message name ∷ ms) = (tt, send_each-CarriesId id status ms)

-- A request gets one id, the client's where that one is accepted and else a fresh one: the
-- application runs with it, every response that it starts carries it, one line is logged, and
-- behind the call the context is what it was, whether the application raised or not.
pub call-CarriesId :
    (app : Scope → Option String → AppRun) (fresh : String) (scope : Scope)
    (context : Option String)
    → scope.is_http ≡ true
    → let id = accept_or_generate fresh (header_from header_key none scope.headers) in
      let called = call app fresh scope context in
      All (CarriesId id) called.messages
      × (called.raised ≡ (app scope (some id)).raised)
      × (length called.log ≡ 1)
      × (called.context ≡ context)
unfolding call
call-CarriesId app fresh scope context http = by_kind scope.is_http http
  where
    id : String
    id = accept_or_generate fresh (header_from header_key none scope.headers)

    by_kind :
        (b : Bool)
        → b ≡ true
        → let called = call_for b app fresh scope context in
          All (CarriesId id) called.messages
          × (called.raised ≡ (app scope (some id)).raised)
          × (length called.log ≡ 1)
          × (called.context ≡ context)
    by_kind true e = (send_each-CarriesId id 500 (app scope (some id)).messages, refl, refl, refl)
    by_kind false e = absurd (cc e)
