-- ===== src/Api/Refresh.antt =====
-- One POST /api/v1/auth/refresh and the retries around it (frontend/lib/api.ts). What the network
-- answers is an argument: the fetch rejects, or a status comes with a body.
pub mod Budget
use pfv.Common.{
  ℕ, zero, suc, ◌+◌, ◌-◌, ◌*◌, ◌^◌, Bool, true, false, ◌&&◌, ◌||◌, Option, none, some, List, [],
  ◌∷◌, ◌++◌, if◌then◌else◌, ◌==◌, leb, is_some,
}
use pfv.Common.Text.{Text, codes}
use pfv.Api.Token.{
  Runtime, Client, AuthEvent, refresh_attempt, set_access_token, dispatch_auth_event,
}

-- `RefreshResult`; an `Error` is its message.
pub data RefreshResult : Type 0 where
  ok : (access_token : Text) → RefreshResult
  terminal : (status : ℕ) → RefreshResult
  transient : (error : Text) → (status : Option ℕ) → RefreshResult

-- An async function resolves with its result, or rejects.
pub data Settlement : Type 0 where
  resolved : RefreshResult → Settlement
  rejected : Settlement

-- The parsed body of the answer, of the declared type `{ access_token?: string }`, or `null`.
pub data RefreshBody : Type 0 where
  not_json : (message : Text) → RefreshBody
  null_body : RefreshBody
  fields : (access_token : Option Text) → RefreshBody

pub data RefreshReply : Type 0 where
  failed : (message : Text) → RefreshReply
  replied : (status : ℕ) → RefreshBody → RefreshReply

-- One answered attempt: the clock when it settles and the time that it took.
pub record Answer : Type 0 where
  pub reply : RefreshReply
  pub now_sec : ℕ
  pub duration_ms : ℕ

abbrev pub refresh_transient_retries : ℕ
refresh_transient_retries = 2

abbrev pub refresh_backoff_base_ms : ℕ
refresh_backoff_base_ms = 250

-- `res.ok`
abbrev pub is_success : ℕ → Bool
is_success status = leb 200 status && leb status 299

unfoldable pub missing_token : Text
missing_token = codes "refresh succeeded without access_token"

unfoldable pub returned_status : Runtime → ℕ → Text
returned_status rt status = codes "refresh returned " ++ rt.show status

abbrev outcome_of : RefreshResult → Text
outcome_of (ok t) = codes "ok"
outcome_of (terminal s) = codes "terminal"
outcome_of (transient e s) = codes "transient"

abbrev status_of : RefreshResult → Option ℕ
status_of (ok t) = none
status_of (terminal s) = some s
status_of (transient e s) = s

-- `emit`: the event is dispatched and the result handed on.
unfoldable pub emit : Runtime → ℕ → ℕ → RefreshResult → Client → Client × Settlement
unfolding dispatch_auth_event
emit rt attempt duration_ms r c = (
  dispatch_auth_event rt (refresh_attempt attempt (outcome_of r) (status_of r) duration_ms) c,
  resolved r,
)

-- The branches after `res.json()`. Reading a field of `null` throws outside the `try`.
unfoldable pub take_token : Runtime → ℕ → ℕ → ℕ → RefreshBody → Client → Client × Settlement
unfolding emit set_access_token
take_token rt attempt now duration_ms (not_json message) c =
    emit rt attempt duration_ms (transient message none) c
take_token rt attempt now duration_ms null_body c = (c, rejected)
take_token rt attempt now duration_ms (fields (some (u ∷ t))) c =
    emit rt attempt duration_ms (ok (u ∷ t)) (set_access_token rt now (some (u ∷ t)) c)
take_token rt attempt now duration_ms (fields _) c =
    emit rt attempt duration_ms (transient missing_token none) c

-- The function from where its fetch settles.
unfoldable pub refresh_access_token_once : Runtime → ℕ → Answer → Client → Client × Settlement
unfolding emit take_token
refresh_access_token_once rt attempt a c = elim a.reply [
  | failed message ↦ emit rt attempt a.duration_ms (transient message none) c
  | replied status body ↦
      if status == 401 || status == 403
      then emit rt attempt a.duration_ms (terminal status) c
      else if is_success status
      then take_token rt attempt a.now_sec a.duration_ms body c
      else emit rt attempt a.duration_ms (transient (returned_status rt status) (some status)) c
]

-- `last.ok || last.kind === "terminal"`; a rejection leaves the loop too.
abbrev pub is_final : Settlement → Bool
is_final (resolved (transient e s)) = false
is_final _ = true

-- `REFRESH_BACKOFF_BASE_MS * 2 ** (attempt - 1)`
unfoldable pub backoff_ms : ℕ → ℕ
backoff_ms attempt = refresh_backoff_base_ms * 2 ^ (attempt - 1)

-- The `for` loop with its rounds left; `delays` are the timers awaited so far.
unfoldable pub retry :
    ℕ → Runtime → (ℕ → Answer) → ℕ → List ℕ → Client × Settlement → Client × Settlement × List ℕ
retry zero rt answers attempt delays (c, last) = (c, last, delays)
retry (suc rounds) rt answers attempt delays (c, last) =
    let again =
      retry rounds rt answers (attempt + 1) (delays ++ backoff_ms attempt ∷ [])
        (refresh_access_token_once rt (attempt + 1) (answers (attempt + 1)) c) in
    if is_final last then (c, last, delays) else again

unfoldable pub refresh_access_token : Runtime → (ℕ → Answer) → Client → Client × Settlement × List ℕ
unfolding retry
refresh_access_token rt answers c =
    retry refresh_transient_retries rt answers 1 [] (refresh_access_token_once rt 1 (answers 1) c)
