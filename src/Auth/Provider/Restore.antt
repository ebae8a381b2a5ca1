-- ===== src/Auth/Provider/Restore.antt =====
-- When the provider signs out, and how often it asks (AuthProvider.tsx).
use pfv.Common.{
  ℕ, ◌≡◌, refl, arith, Bool, true, false, Option, none, some, if◌then◌else◌, is_some, not, ◌&&◌,
  ◌||◌, ◌==◌,
}
use pfv.Common.Text.{Text}
use pfv.Api.Errors.{Thrown, api_response_error}
use pfv.Auth.Roles.{User}
use pfv.Auth.Provider.{
  Outcome, fulfilled, failed, is_transient_auth_error, is_terminal_auth_error, retries,
  with_auth_retry, Session, mounted, fetch_me, Answers, restore_failed, after_me, after_refresh,
  after_status, restore, LoginAnswer, mfa_challenge, token, signed_in, login, redirects_to_login,
}

-- A 401 or 403 is never retried.
pub terminal_not_transient :
    (e : Thrown) → is_terminal_auth_error e ≡ true → is_transient_auth_error e ≡ false
unfolding is_terminal_auth_error is_transient_auth_error
terminal_not_transient e h = ground arith

-- The call is made again, up to three times in all, only after a transient failure; the result is
-- the first that is not one, or the third.
pub with_auth_retry_lem {ℓ} :
    {A : Type ℓ} (call : ℕ → Outcome A)
    → with_auth_retry call
      ≡ (if retries (call 1) then if retries (call 2) then call 3 else call 2 else call 1)
unfolding with_auth_retry
with_auth_retry_lem call = ground arith

-- A failure that means that the session is dead: a response with 401 or 403.
abbrev is_refusal : Thrown → Bool
is_refusal (api_response_error e) = e.status == 401 || e.status == 403
is_refusal _ = false

abbrev pub is_dead {ℓ} : {A : Type ℓ} → Outcome A → Bool
is_dead (fulfilled a) = false
is_dead (failed e) = is_refusal e

abbrev dead_after_status : Answers → Outcome Bool → Bool
dead_after_status a (fulfilled true) = false
dead_after_status a (fulfilled false) = elim (with_auth_retry a.refresh) [
  | failed e ↦ is_refusal e
  | fulfilled t ↦ is_dead (with_auth_retry a.me)
]
dead_after_status a (failed e) = is_refusal e

-- The status, the refresh and the user are asked for in turn, each only after the one before.
abbrev pub ends_dead : Answers → Bool
ends_dead a = dead_after_status a (with_auth_retry a.status)

-- The backend answered that it still needs its setup.
abbrev says_setup : Outcome Bool → Bool
says_setup (fulfilled b) = b
says_setup (failed e) = false

abbrev pub answers_setup : Answers → Bool
answers_setup a = says_setup (with_auth_retry a.status)

-- What the end of a restore shows: where it leads, the spinner, and the user with the token.
abbrev Shows : Session → Bool → Bool → Type 0
Shows s dead setup =
    (redirects_to_login s ≡ (dead || setup))
    × (s.loading ≡ (if is_some s.user then false else if s.needs_setup then false else not dead))
    × ((is_some s.user && not (is_some s.access_token)) ≡ false)

failed-Shows :
    (e : Thrown) (t : Option Text)
    → Shows (restore_failed e (record mounted { access_token = t })) (is_refusal e) false
unfolding restore_failed redirects_to_login is_terminal_auth_error
failed-Shows (api_response_error e) t = ground arith
failed-Shows _ t = ground arith

after_refresh-Shows :
    (me : ℕ → Outcome User) (o : Outcome Text)
    → Shows
        (after_refresh me o mounted)
        (elim o [ failed e ↦ is_refusal e | fulfilled t ↦ is_dead (with_auth_retry me) ])
        false
after_refresh-Shows me (failed e) = failed-Shows e none
after_refresh-Shows me (fulfilled t) = me_Shows (with_auth_retry me)
  where
    me_Shows :
        (o : Outcome User)
        → Shows (after_me o (record mounted { access_token = some t })) (is_dead o) false
    me_Shows (failed e) = failed-Shows e (some t)
    me_Shows (fulfilled u) = unfold redirects_to_login in (refl, refl, refl)

restore-Shows : (a : Answers) → Shows (restore a mounted) (ends_dead a) (answers_setup a)
unfolding restore
restore-Shows a = status_Shows (with_auth_retry a.status)
  where
    status_Shows :
        (o : Outcome Bool) → Shows (after_status a o mounted) (dead_after_status a o) (says_setup o)
    status_Shows (failed e) = failed-Shows e none
    status_Shows (fulfilled true) = unfold redirects_to_login in (refl, refl, refl)
    status_Shows (fulfilled false) = after_refresh-Shows a.me (with_auth_retry a.refresh)

-- After restoring a session on mount, AppShell would redirect to /login exactly when the first of
-- its calls that fails for good fails with a response of 401 or 403, or the status call answered that
-- the system needs its setup: never on a timeout, a 5xx or a network failure.
pub restore-redirects :
    (a : Answers) → redirects_to_login (restore a mounted) ≡ (ends_dead a || answers_setup a)
restore-redirects a = (restore-Shows a).0

-- What restoring leaves: a user only with the token of the same restore, and a spinner exactly when
-- neither a user, nor the setup, nor a dead session was found.
pub restore-settles :
    (a : Answers)
    → let s = restore a mounted in
      (s.loading
        ≡ (if is_some s.user then false else if s.needs_setup then false else not (ends_dead a)))
      × ((is_some s.user && not (is_some s.access_token)) ≡ false)
restore-settles a = ((restore-Shows a).1, (restore-Shows a).2)

-- Loading the current user signs out exactly on a 401 or 403; every other failure leaves the whole
-- session as it was, and every failure is handed on to the caller.
pub fetch_me-keeps :
    (me : ℕ → Outcome User) (s : Session) (e : Thrown)
    → with_auth_retry me ≡ failed e
    → ((fetch_me me s).1 ≡ some e)
      × ((fetch_me me s).0
          ≡ (if is_terminal_auth_error e then record s { user = none; access_token = none } else s))
unfolding fetch_me
fetch_me-keeps me s e h = ground arith

-- A login that resolves has a user, the token of its own answer and no pending setup.
pub login-signed_in :
    (o : Outcome LoginAnswer) (me : ℕ → Outcome User) (s : Session)
    → (login o me s).1 ≡ signed_in
    → (t : Text) × (o ≡ fulfilled (token t))
      × ((login o me s).0.access_token ≡ some t)
      × (is_some (login o me s).0.user ≡ true)
      × ((login o me s).0.needs_setup ≡ false)
unfolding login
login-signed_in (failed e) me s h = cc
login-signed_in (fulfilled (mfa_challenge t)) me s h = cc
login-signed_in (fulfilled (token t)) me s h = (t, refl, ground arith, ground arith, ground arith)
