-- ===== src/Server/Session.antt =====
-- getServerSessionResult of frontend/lib/auth-server.ts: the refresh cookie is verified by the
-- backend, and an outage is told from a missing session.
pub mod Triage
use pfv.Common.{
  ℕ, Bool, true, false, ◌&&◌, ◌||◌, not, Option, none, some, List, [], ◌∷◌, ◌++◌, if◌then◌else◌,
  ◌==◌,
}
use pfv.Common.Text.{Text, codes}
use pfv.Common.Json.{Json, truthy, member}
use pfv.Common.Int.{ℤ, pos, negsuc}
use pfv.Server.Fetch.{
  ServerFetchOptions, ServerFetchResult, ok, http_error, timeout, abort, network_error,
  invalid_json, Transport, Warning, server_fetch_result,
}

abbrev pub verify_timeout_ms : ℕ
verify_timeout_ms = 5_000

-- The user and the access token are handed on as the payload holds them.
pub record ServerSession : Type 0 where
  pub user : Json
  pub access_token : Json

pub data Reason : Type 0 where
  timed_out network server_error invalid_payload : Reason

pub data ServerSessionResult : Type 0 where
  authenticated : ServerSession → ServerSessionResult
  unauthenticated : ServerSessionResult
  transient : Reason → ServerSessionResult

abbrev session_of : Option Json → Option Json → ServerSessionResult
session_of (some token) (some user) = authenticated (record { user = user; access_token = token })
session_of _ _ = transient invalid_payload

-- `!payload || !payload.access_token || !payload.user`
unfoldable pub read_payload : Json → ServerSessionResult
unfolding truthy member
read_payload payload = elim (truthy (some payload)) [
  | none ↦ transient invalid_payload
  | some p ↦
      session_of (truthy (member (codes "access_token") p)) (truthy (member (codes "user") p))
]

unfoldable pub triage : ServerFetchResult → ServerSessionResult
unfolding read_payload
triage (ok payload) = read_payload payload
triage (http_error status) =
    if status == 401 || status == 403 then unauthenticated else transient server_error
triage timeout = transient timed_out
triage abort = transient timed_out
triage network_error = transient network
triage invalid_json = transient invalid_payload

-- The cookie `refresh_token` is forwarded by its name and value.
unfoldable pub verify_options : Text → ServerFetchOptions
verify_options value = record {
  method = some (codes "POST");
  has_body = false;
  body_is_form = false;
  access_token = none;
  cookie = some (codes "refresh_token=" ++ value);
  silent_statuses = some (401 ∷ []);
  timeout_ms = some verify_timeout_ms;
}

unfoldable pub verify_path : Text
verify_path = codes "/api/v1/auth/verify"

-- No cookie, no request; `network` is what the transport does with one.
unfoldable pub get_server_session_result :
    Option Text → (Text → ServerFetchOptions → Transport) → ServerSessionResult × List Warning
unfolding server_fetch_result triage verify_options
get_server_session_result none send = (unauthenticated, [])
get_server_session_result (some value) send =
    let (result, warnings) =
      server_fetch_result verify_path (verify_options value)
        (send verify_path (verify_options value)) in
    (triage result, warnings)
