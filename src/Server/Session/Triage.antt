-- ===== src/Server/Session/Triage.antt =====
-- An outage never reads as a missing session (frontend/lib/auth-server.ts).
use pfv.Common.{◌≡◌, refl, arith, Bool, true, false, ◌||◌, Option, none, some, ◌==◌}
use pfv.Common.Text.{Text}
use pfv.Common.Json.{Json}
use pfv.Server.Fetch.{ServerFetchOptions, ok, Transport, answered, thrown, server_fetch_result}
use pfv.Server.Session.{
  ServerSessionResult, unauthenticated, triage, verify_options, verify_path,
  get_server_session_result,
}

abbrev pub is_unauthenticated : ServerSessionResult → Bool
is_unauthenticated unauthenticated = true
is_unauthenticated _ = false

-- The answer says that there is no session.
abbrev pub is_refusal : Transport → Bool
is_refusal (answered status body error_name message) = status == 401 || status == 403
is_refusal (thrown t error_name message) = false

read_payload-authenticates_or_transient : (v : Json) → is_unauthenticated (triage (ok v)) ≡ false
unfolding triage
read_payload-authenticates_or_transient v = ground arith

triage-server_fetch_result :
    (path : Text) (o : ServerFetchOptions) (t : Transport)
    → is_unauthenticated (triage (server_fetch_result path o t).0) ≡ is_refusal t
unfolding server_fetch_result triage
triage-server_fetch_result path o (answered status (some v) name m) =
    ground (arith, read_payload-authenticates_or_transient v)
triage-server_fetch_result path o (answered status none name m) = ground arith
triage-server_fetch_result path o (thrown t name m) = ground arith

-- A page is told that nobody is signed in exactly when it has no refresh cookie or the backend answered
-- 401 or 403 to the cookie; a timeout, an abort, a network failure, another status or a bad payload is
-- never read so.
pub get_server_session_result-unauthenticated_iff :
    (cookie : Option Text) (send : Text → ServerFetchOptions → Transport)
    → is_unauthenticated (get_server_session_result cookie send).0 ≡ elim cookie [
      | none ↦ true
      | some value ↦ is_refusal (send verify_path (verify_options value))
    ]
unfolding get_server_session_result
get_server_session_result-unauthenticated_iff none send = refl
get_server_session_result-unauthenticated_iff (some value) send =
    triage-server_fetch_result verify_path (verify_options value)
      (send verify_path (verify_options value))
