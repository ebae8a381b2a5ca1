-- ===== src/Api/Tests.antt =====
-- Runs of the API client at concrete inputs (frontend/lib/api.ts).
use pfv.Common.{
  ℕ, ◌≤◌, ◌≡◌, refl, ◌↔◌, true, not, none, some, List, [], ◌∷◌, ◌++◌, sum_by, length, if◌then◌else◌,
  is_some,
}
use pfv.Common.Int.{pos}
use pfv.Common.Text.{Text, codes}
use pfv.Common.Json.{obj, str, field, end}
use pfv.Api.Paths.{is_cred_check, is_auth_endpoint, is_cred_check-is_auth_endpoint}
use pfv.Api.Token.{Runtime, Client, initial, schedule_proactive_refresh}
use pfv.Api.Token.Schedule.{IsCovered, schedule_proactive_refresh-IsCovered}
use pfv.Api.Refresh.{
  rejected, null_body, replied, Answer, refresh_access_token_once, refresh_access_token,
}
use pfv.Api.Refresh.Budget.{
  Kept, settles, is_retried, refresh_access_token-Kept, refresh_access_token-budget,
}
use pfv.Api.Errors.{Response}
use pfv.Api.Flight.{
  attempting, refreshing, start, arrived, Action, call, set_token, resume, reply, refresh_reply,
  backoff_ends, probe_reply, step, run,
}
use pfv.Api.Flight.Invariant.{weight}
use pfv.Api.Flight.Invariant.Steps.{run-one_refresh, run-released}
use pfv.Api.Flight.Session.{logouts, supplied, logouts-run, step-keeps_token}
use pfv.Api.Flight.Eligible.{Eligible, run-Eligible}

-- A runtime whose decoder knows no token.
abbrev rt : Runtime
rt = record {
  has_window = true;
  atob = λ s. some s;
  parse = λ s. none;
  show = λ n. n ∷ [];
  to_string = λ v. codes "?";
}

abbrev unauthorised : Response
unauthorised = record {
  status = 401;
  status_text = codes "Unauthorized";
  body = some (obj (field (codes "detail") (str (codes "expired")) end));
}

abbrev listing : Text
listing = codes "/api/v1/transactions?q=rent#x"

abbrev refused : Answer
refused = record { reply = replied 401 null_body; now_sec = 9; duration_ms = 5 }

abbrev busy : Answer
busy = record { reply = replied 503 null_body; now_sec = 9; duration_ms = 5 }

-- Two calls see a 401, share one refresh that is refused after a retry, share one probe that is
-- refused too, and log out once.
abbrev shared_logout : List (ℕ × Action)
shared_logout =
    (1, set_token (some (codes "abc")))
    ∷ (2, call listing)
    ∷ (2, call (codes "/api/v1/accounts"))
    ∷ (2, resume 0)
    ∷ (2, resume 1)
    ∷ (2, resume 0)
    ∷ (2, resume 1)
    ∷ (3, reply 0 (arrived unauthorised 1))
    ∷ (3, reply 1 (arrived unauthorised 1))
    ∷ []

abbrev then_refused : List (ℕ × Action)
then_refused =
    (4, refresh_reply 0 busy)
    ∷ (5, backoff_ends 0)
    ∷ (6, refresh_reply 0 refused)
    ∷ (6, resume 0)
    ∷ (6, resume 1)
    ∷ (7, probe_reply 0 (some 401))
    ∷ (7, resume 1)
    ∷ (7, resume 0)
    ∷ []

waiting_shares :
    ((run rt shared_logout start).refresh_awaiters ≡ 2)
    × ((run rt shared_logout start).refresh_promise ≡ some 0)
    × (length (run rt shared_logout start).refreshes ≡ 1)
unfolding run is_auth_endpoint is_cred_check
waiting_shares = (refl, refl, refl)

logged_out_once :
    (logouts (run rt then_refused (run rt shared_logout start)).client ≡ 1)
    × ((run rt then_refused (run rt shared_logout start)).refresh_promise ≡ none)
    × (length (run rt then_refused (run rt shared_logout start)).probes ≡ 1)
unfolding run is_auth_endpoint is_cred_check
logged_out_once = (refl, refl, refl)

-- A 2xx answer of /auth/refresh with the body `null` makes the refresh reject, and with it the
-- waiting call.
null_body_rejects :
    (refresh_access_token rt
      (λ n. record { reply = replied 200 null_body; now_sec = 9; duration_ms = 5 })
      initial).1
    ≡ rejected
unfolding refresh_access_token refresh_access_token_once
null_body_rejects = refl

run-one_refresh_example : ◌≡◌ {A = ℕ} 0 0
unfolding run is_auth_endpoint is_cred_check
run-one_refresh_example =
    run-one_refresh rt shared_logout 0 0 (attempting 1) (attempting 1) refl refl refl refl

run-released_example :
    ((run rt shared_logout start).refresh_awaiters
      ≡ sum_by weight (run rt shared_logout start).tasks)
    × (((run rt shared_logout start).refresh_awaiters ≡ 0)
        ↔ ((run rt shared_logout start).refresh_promise ≡ none))
run-released_example = run-released rt shared_logout

-- One token is supplied and one logout dispatched: the bound is met.
one_supplied : supplied rt (shared_logout ++ then_refused) start ≡ 1
unfolding run is_auth_endpoint is_cred_check
one_supplied = refl

logouts-run_example :
    logouts (run rt (shared_logout ++ then_refused) start).client
    ≤ supplied rt (shared_logout ++ then_refused) start
logouts-run_example = logouts-run rt (shared_logout ++ then_refused)

-- The first waiting call goes on after the refused refresh: the token stays until the probe.
step-keeps_token_example :
    is_some (step rt 6 (resume 0) (run rt shared_logout start)).client.access_token ≡ true
unfolding run is_auth_endpoint is_cred_check
step-keeps_token_example = step-keeps_token rt 6 (resume 0) (run rt shared_logout start) refl refl

-- The first call waits for the refresh, and later for the probe.
run-Eligible_example : Eligible (refreshing listing unauthorised 0)
unfolding run is_auth_endpoint is_cred_check
run-Eligible_example = run-Eligible rt shared_logout 0 (refreshing listing unauthorised 0) refl

refresh_access_token-Kept_example :
    Kept initial
      (refresh_access_token rt (λ n. busy) initial).0
      (refresh_access_token rt (λ n. busy) initial).1
refresh_access_token-Kept_example = refresh_access_token-Kept rt (λ n. busy) initial

refresh_access_token-budget_example :
    let (d, s, delays) = refresh_access_token rt (λ n. busy) initial in
    (s ≡ (
      if not (is_retried busy.reply)
      then settles rt (λ n. busy) 1
      else if not (is_retried busy.reply)
      then settles rt (λ n. busy) 2
      else settles rt (λ n. busy) 3))
    × (delays ≡ (
        if not (is_retried busy.reply)
        then []
        else if not (is_retried busy.reply)
        then 250 ∷ []
        else 250 ∷ 500 ∷ []))
refresh_access_token-budget_example = refresh_access_token-budget rt (λ n. busy) initial

abbrev hourly : Client
hourly = record {
  access_token = some (codes "t");
  access_token_exp = some (pos 3600);
  timer = none;
  events = [];
}

schedule_proactive_refresh-IsCovered_example :
    IsCovered (schedule_proactive_refresh rt 100 hourly) 100
schedule_proactive_refresh-IsCovered_example =
    schedule_proactive_refresh-IsCovered rt 100 hourly (pos 3600) refl refl

is_cred_check-is_auth_endpoint_example : is_auth_endpoint (codes "/api/v1/auth/login") ≡ true
unfolding is_cred_check
is_cred_check-is_auth_endpoint_example =
    is_cred_check-is_auth_endpoint (codes "/api/v1/auth/login") refl
