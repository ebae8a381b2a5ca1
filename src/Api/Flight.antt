-- ===== src/Api/Flight.antt =====
-- Concurrent calls of apiFetch and ensureFreshAccessToken (frontend/lib/api.ts) as interleaved
-- steps: a call runs from one `await` to the next in one step, and between steps the event loop may
-- run any other call, settle any request or fire any timer. `refreshPromise`, `refreshAwaiters` and
-- `mePromise` are module variables; a promise is named by its place in the list of its kind.
pub mod Invariant
pub mod Session
pub mod Eligible
use pfv.Common.{
  ℕ, zero, suc, ◌+◌, ◌-◌, Bool, true, false, ◌&&◌, ◌||◌, not, Option, none, some, List, [], ◌∷◌,
  ◌++◌, if◌then◌else◌, ◌==◌, leb, length, get_elem?, set, is_some,
}
use pfv.Common.Text.{Text, codes}
use pfv.Common.Json.{str}
use pfv.Api.Paths.{is_auth_endpoint, is_cred_check, safe_path}
use pfv.Api.Token.{
  Runtime, Client, initial, retry_after_refresh, unauthenticated, set_access_token,
  dispatch_auth_event, is_access_token_near_expiry, is_truthy,
}
use pfv.Api.Refresh.{
  RefreshResult, ok, terminal, transient, Settlement, resolved, rejected, RefreshReply, Answer,
  is_success, is_final, refresh_transient_retries, refresh_access_token_once,
}
use pfv.Api.Errors.{
  Response, Result, returned, threw, Thrown, api_response_error, error, type_error, conclude,
}

-- A running refreshAccessToken: its attempt is at the network, it waits after that attempt, or it
-- has settled.
pub data Refreshing : Type 0 where
  attempting : (attempt : ℕ) → Refreshing
  backing_off : (attempt : ℕ) → Refreshing
  settled : Settlement → Refreshing

-- A running probeAuthMeAlive, with the bearer that it started with, or its answer.
pub data Probe : Type 0 where
  asking : (bearer : Option Text) → Probe
  answered : (alive : Bool) → Probe

-- Where a call stands. `fresh` has not run yet; `preflight` and `background` await a shared
-- refresh inside ensureFreshAccessToken, for a request and for the timer or a focus handler.
pub data Task : Type 0 where
  fresh : (path : Text) → Task
  poll : Task
  preflight : (path : Text) → (p : ℕ) → Task
  background : (p : ℕ) → Task
  ready : (path : Text) → Task
  sent : (path : Text) → (bearer : Option Text) → Task
  refreshing : (path : Text) → Response → (p : ℕ) → Task
  retrying : (path : Text) → (bearer : Text) → Task
  probing : (path : Text) → Response → (m : ℕ) → Task
  finished : Result → Task
  idle : Task

pub record World : Type 0 where
  pub client : Client
  pub refresh_promise : Option ℕ
  pub refresh_awaiters : ℕ
  pub me_promise : Option ℕ
  pub refreshes : List Refreshing
  pub probes : List Probe
  pub tasks : List Task

abbrev pub start : World
start = record {
  client = initial;
  refresh_promise = none;
  refresh_awaiters = 0;
  me_promise = none;
  refreshes = [];
  probes = [];
  tasks = [];
}

-- What a fetch of a call comes to.
pub data Fetched : Type 0 where
  failed : Thrown → Fetched
  arrived : Response → (duration_ms : ℕ) → Fetched

-- `resume i` lets call `i` go on, `reply i` settles its fetch; `refresh_reply` and `backoff_ends`
-- drive refresh `p`; `probe_reply` gives the status of /me, or none where that fetch fails;
-- `wake` is the timer, or the visibility handler; `set_token` is a caller of setAccessToken.
pub data Action : Type 0 where
  call : (path : Text) → Action
  wake : (by_timer : Bool) → Action
  set_token : (token : Option Text) → Action
  resume : (i : ℕ) → Action
  reply : (i : ℕ) → Fetched → Action
  refresh_reply : (p : ℕ) → Answer → Action
  backoff_ends : (p : ℕ) → Action
  probe_reply : (m : ℕ) → (status : Option ℕ) → Action

unfoldable pub put : ℕ → Task → World → World
put i t w = record w { tasks = set w.tasks i t }

-- `if (!refreshPromise) refreshPromise = refreshAccessToken()`; then one more awaiter.
unfoldable pub join_at : Option ℕ → World → World × ℕ
join_at (some p) w = (record w { refresh_awaiters = w.refresh_awaiters + 1 }, p)
join_at none w = (
  record w {
    refresh_promise = some (length w.refreshes);
    refresh_awaiters = w.refresh_awaiters + 1;
    refreshes = w.refreshes ++ attempting 1 ∷ [];
  },
  length w.refreshes,
)

unfoldable pub join_refresh : World → World × ℕ
unfolding join_at
join_refresh w = join_at w.refresh_promise w

abbrev pub is_promise : Option ℕ → ℕ → Bool
is_promise none p = false
is_promise (some q) p = q == p

-- The `finally` of an awaiter.
unfoldable pub leave_refresh : ℕ → World → World
leave_refresh p w = record w {
  refresh_awaiters = w.refresh_awaiters - 1;
  refresh_promise =
      if w.refresh_awaiters - 1 == 0 && is_promise w.refresh_promise p
      then none
      else w.refresh_promise;
}

-- `!accessToken || !isAccessTokenNearExpiry()` is the early return.
unfoldable pub needs_refresh : ℕ → World → Bool
unfolding is_access_token_near_expiry
needs_refresh now w = is_truthy w.client.access_token && is_access_token_near_expiry w.client now

-- apiFetch up to the preflight's await, or past it.
unfoldable pub begin : ℕ → ℕ → Text → World → World
unfolding put join_refresh needs_refresh
begin now i path w =
    if not (is_auth_endpoint path) && needs_refresh now w
    then put i (preflight path (join_refresh w).1) (join_refresh w).0
    else put i (ready path) w

unfoldable pub begin_background : ℕ → ℕ → World → World
unfolding put join_refresh needs_refresh
begin_background now i w =
    if needs_refresh now w
    then put i (background (join_refresh w).1) (join_refresh w).0
    else put i idle w

-- `if (accessToken) headers.set(…)`, and the fetch.
abbrev bearer_of : Option Text → Option Text
bearer_of (some (c ∷ t)) = some (c ∷ t)
bearer_of _ = none

unfoldable pub send : ℕ → Text → World → World
unfolding put
send i path w = put i (sent path (bearer_of w.client.access_token)) w

-- The first response: a 401 joins the shared refresh, unless it is a credential check.
unfoldable pub receive : Runtime → ℕ → Text → Response → World → World
unfolding put join_refresh
receive rt i path res w =
    if res.status == 401 && not (is_cred_check path)
    then put i (refreshing path res (join_refresh w).1) (join_refresh w).0
    else put i (finished (conclude rt res)) w

-- `if (!mePromise) mePromise = probeAuthMeAlive()…`
unfoldable pub probe_at : Option ℕ → World → World × ℕ
probe_at (some m) w = (w, m)
probe_at none w = (
  record w {
    me_promise = some (length w.probes);
    probes = w.probes ++ asking (bearer_of w.client.access_token) ∷ [];
  },
  length w.probes,
)

unfoldable pub join_probe : World → World × ℕ
unfolding probe_at
join_probe w = probe_at w.me_promise w

unfoldable pub refresh_unavailable : Text
refresh_unavailable = codes "Session refresh temporarily unavailable. Please try again."

unfoldable pub transient_failure : Text → Thrown
transient_failure message = api_response_error (record {
  status = 503;
  message = refresh_unavailable;
  code = some (codes "refresh_transient");
  detail = some (str message);
})

-- After the shared refresh: retry, probe, or give up with the session untouched.
unfoldable pub after_refresh : ℕ → Text → Response → Settlement → World → World
unfolding put join_probe transient_failure
after_refresh i path res (resolved (ok t)) w = put i (retrying path t) w
after_refresh i path res (resolved (terminal status)) w =
    put i (probing path res (join_probe w).1) (join_probe w).0
after_refresh i path res (resolved (transient message status)) w =
    put i (finished (threw (transient_failure message))) w
after_refresh i path res rejected w = put i (finished (threw (error type_error))) w

-- After the preflight: its outcome is ignored, unless the refresh threw.
unfoldable pub after_preflight : ℕ → Text → Settlement → World → World
unfolding put
after_preflight i path rejected w = put i (finished (threw (error type_error))) w
after_preflight i path (resolved r) w = put i (ready path) w

-- The logout, once: `accessToken !== null` gates the event.
unfoldable pub log_out : Runtime → ℕ → World → World
unfolding set_access_token dispatch_auth_event
log_out rt now w =
    if is_some w.client.access_token
    then record w {
      client = dispatch_auth_event rt unauthenticated (set_access_token rt now none w.client);
    }
    else w

unfoldable pub after_probe : Runtime → ℕ → ℕ → Response → Bool → World → World
unfolding put log_out
after_probe rt now i res alive w =
    put i (finished (conclude rt res)) (if alive then w else log_out rt now w)

-- What promise `p` has settled with.
abbrev pub settlement : Option Refreshing → Option Settlement
settlement (some (settled s)) = some s
settlement _ = none

abbrev pub answer : Option Probe → Option Bool
answer (some (answered alive)) = some alive
answer _ = none

-- A call goes on only when what it awaits has settled; a fetch settles by `reply`.
unfoldable pub resume_task : Runtime → ℕ → ℕ → Task → World → World
unfolding begin begin_background send leave_refresh after_preflight after_refresh after_probe
resume_task rt now i (fresh path) w = begin now i path w
resume_task rt now i poll w = begin_background now i w
resume_task rt now i (preflight path p) w = elim (settlement (get_elem? w.refreshes p)) [
  | none ↦ w
  | some s ↦ after_preflight i path s (leave_refresh p w)
]
resume_task rt now i (background p) w = elim (settlement (get_elem? w.refreshes p)) [
  | none ↦ w
  | some s ↦ put i idle (leave_refresh p w)
]
resume_task rt now i (ready path) w = send i path w
resume_task rt now i (refreshing path res p) w = elim (settlement (get_elem? w.refreshes p)) [
  | none ↦ w
  | some s ↦ after_refresh i path res s (leave_refresh p w)
]
resume_task rt now i (probing path res m) w = elim (answer (get_elem? w.probes m)) [
  | none ↦ w
  | some alive ↦ after_probe rt now i res alive w
]
resume_task rt now i _ w = w

-- The response of the retried request is reported and concluded.
unfoldable pub receive_retry : Runtime → ℕ → Text → Response → ℕ → World → World
unfolding put dispatch_auth_event
receive_retry rt i path res duration_ms w = put i (finished (conclude rt res)) (record w {
  client =
      dispatch_auth_event rt
        (retry_after_refresh (safe_path path) res.status (is_success res.status) duration_ms)
        w.client;
})

unfoldable pub reply_task : Runtime → ℕ → Fetched → Task → World → World
unfolding put receive receive_retry
reply_task rt i (failed e) (sent path bearer) w = put i (finished (threw e)) w
reply_task rt i (arrived res ms) (sent path bearer) w = receive rt i path res w
reply_task rt i (failed e) (retrying path bearer) w = put i (finished (threw e)) w
reply_task rt i (arrived res ms) (retrying path bearer) w = receive_retry rt i path res ms w
reply_task rt i f _ w = w

-- The loop of refreshAccessToken after attempt `n` has settled.
abbrev pub next_phase : ℕ → Settlement → Refreshing
next_phase n s =
    if is_final s || not (leb n refresh_transient_retries) then settled s else backing_off n

unfoldable pub reply_refresh : Runtime → ℕ → Answer → Refreshing → World → World
unfolding refresh_access_token_once
reply_refresh rt p a (attempting n) w = record w {
  client = (refresh_access_token_once rt n a w.client).0;
  refreshes = set w.refreshes p (next_phase n (refresh_access_token_once rt n a w.client).1);
}
reply_refresh rt p a _ w = w

unfoldable pub end_backoff : ℕ → Refreshing → World → World
end_backoff p (backing_off n) w = record w { refreshes = set w.refreshes p (attempting (n + 1)) }
end_backoff p _ w = w

abbrev is_ok : Option ℕ → Bool
is_ok none = false
is_ok (some status) = status == 200

-- The probe's answer; its `finally` clears `mePromise`.
unfoldable pub reply_probe : ℕ → Option ℕ → Probe → World → World
reply_probe m status (asking bearer) w = record w {
  probes = set w.probes m (answered (is_truthy bearer && is_ok status));
  me_promise = none;
}
reply_probe m status (answered alive) w = w

abbrev pub on_entry {ℓ} : {A : Type ℓ} → Option A → (A → World → World) → World → World
on_entry none f w = w
on_entry (some a) f w = f a w

unfoldable pub step : Runtime → ℕ → Action → World → World
unfolding resume_task reply_task reply_refresh end_backoff reply_probe set_access_token
step rt now (call path) w = record w { tasks = w.tasks ++ fresh path ∷ [] }
step rt now (wake by_timer) w = record w {
  client = if by_timer then record w.client { timer = none } else w.client;
  tasks = w.tasks ++ poll ∷ [];
}
step rt now (set_token token) w = record w { client = set_access_token rt now token w.client }
step rt now (resume i) w = on_entry (get_elem? w.tasks i) (resume_task rt now i) w
step rt now (reply i f) w = on_entry (get_elem? w.tasks i) (reply_task rt i f) w
step rt now (refresh_reply p a) w = on_entry (get_elem? w.refreshes p) (reply_refresh rt p a) w
step rt now (backoff_ends p) w = on_entry (get_elem? w.refreshes p) (end_backoff p) w
step rt now (probe_reply m status) w = on_entry (get_elem? w.probes m) (reply_probe m status) w

-- A run: each action with the second at which it happens.
unfoldable pub run : Runtime → List (ℕ × Action) → World → World
unfolding step
run rt [] w = w
run rt ((now, a) ∷ rest) w = run rt rest (step rt now a w)
