-- ===== src/Server/Fetch.antt =====
-- serverFetchResult and serverFetch of frontend/lib/server-fetch.ts: one bounded request, its
-- outcome and the warning that is logged. The payload is a parsed JSON value.
pub mod Warnings
use pfv.Common.{
  ℕ, Bool, true, false, ◌||◌, not, Option, none, some, List, [], ◌∷◌, ◌++◌, if◌then◌else◌, ◌==◌,
  any, or_else,
}
use pfv.Common.Text.{Text, codes, text_eq, before}
use pfv.Common.Json.{Json}
use pfv.Api.Refresh.{is_success}
use pfv.Server.Redaction.{sanitize_error_message}

abbrev pub default_server_fetch_timeout_ms : ℕ
default_server_fetch_timeout_ms = 5_000

-- The options that are read, with `none` for an absent one. `body_is_form` tells a FormData body.
pub record ServerFetchOptions : Type 0 where
  pub method : Option Text
  pub has_body : Bool
  pub body_is_form : Bool
  pub access_token : Option Text
  pub cookie : Option Text
  pub silent_statuses : Option (List ℕ)
  pub timeout_ms : Option ℕ

pub data ServerFetchResult : Type 0 where
  ok : (payload : Json) → ServerFetchResult
  http_error : (status : ℕ) → ServerFetchResult
  timeout abort network_error invalid_json : ServerFetchResult

-- What happens to the request: an answer with its parsed body, or an exception with its name and
-- message while `timedOut` is set or not.
pub data Transport : Type 0 where
  answered : (status : ℕ) → Option Json → (error_name message : Text) → Transport
  thrown : (timed_out : Bool) → (error_name message : Text) → Transport

pub data Warning : Type 0 where
  server_fetch_non_ok : (method path : Text) → (status : ℕ) → Warning
  server_fetch_failed :
      (method path error_name error_message reason : Text) → (timeout_ms : ℕ) → Warning

-- `if (options.accessToken)`
abbrev header_if : Text → Text → Option Text → List (Text × Text)
header_if name prefix none = []
header_if name prefix (some []) = []
header_if name prefix (some (c ∷ v)) = (name, prefix ++ (c ∷ v)) ∷ []

unfoldable pub request_headers : ServerFetchOptions → List (Text × Text)
request_headers o =
    header_if (codes "Authorization") (codes "Bearer ") o.access_token
    ++ (header_if (codes "Cookie") [] o.cookie
        ++ (if not o.has_body
            then []
            else if o.body_is_form
            then []
            else (codes "Content-Type", codes "application/json") ∷ []))

abbrev pub method_of : ServerFetchOptions → Text
method_of o = or_else o.method (codes "GET")

abbrev timeout_of : ServerFetchOptions → ℕ
timeout_of o = or_else o.timeout_ms default_server_fetch_timeout_ms

abbrev pub is_silent : Option (List ℕ) → ℕ → Bool
is_silent none status = false
is_silent (some ss) status = any (λ s. s == status) ss

unfoldable pub failed_warning : Text → ServerFetchOptions → Text → Text → Text → Warning
unfolding sanitize_error_message
failed_warning path o error_name message reason =
    server_fetch_failed (method_of o) (before b'?' path) error_name (sanitize_error_message message)
      reason (timeout_of o)

-- The `catch` of the fetch: our own timer, a foreign abort, or the network.
unfoldable pub classify_thrown : Bool → Text → ServerFetchResult × Text
unfolding text_eq
classify_thrown timed_out error_name =
    if timed_out
    then (timeout, codes "timeout")
    else if text_eq error_name (codes "AbortError") || text_eq error_name (codes "TimeoutError")
    then (abort, codes "abort")
    else (network_error, codes "network_error")

unfoldable pub server_fetch_result :
    Text → ServerFetchOptions → Transport → ServerFetchResult × List Warning
unfolding failed_warning classify_thrown
server_fetch_result path o (answered status body error_name message) =
    if not (is_success status)
    then (
      http_error status,
      if is_silent o.silent_statuses status
          then []
          else server_fetch_non_ok (method_of o) (before b'?' path) status ∷ [],
    )
    else elim body [
      | some v ↦ (ok v, [])
      | none ↦ (invalid_json, failed_warning path o error_name message (codes "invalid_json") ∷ [])
    ]
server_fetch_result path o (thrown timed_out error_name message) =
    let (result, reason) = classify_thrown timed_out error_name in
    (result, failed_warning path o error_name message reason ∷ [])

abbrev payload_of : ServerFetchResult → Option Json
payload_of (ok v) = some v
payload_of _ = none

unfoldable pub server_fetch : Text → ServerFetchOptions → Transport → Option Json
unfolding server_fetch_result
server_fetch path o t = payload_of (server_fetch_result path o t).0
