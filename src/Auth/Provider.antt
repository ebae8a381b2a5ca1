-- ===== src/Auth/Provider.antt =====
-- The session state of frontend/components/auth/AuthProvider.tsx. Each call of apiFetch is one
-- outcome here; what it does to the token on the way is the matter of Api.
pub mod Restore
use pfv.Common.{
  ℕ, suc, ◌+◌, Bool, true, false, ◌||◌, ◌&&◌, Option, none, some, List, [], ◌∷◌, ◌++◌,
  if◌then◌else◌, ◌==◌, leb,
}
use pfv.Common.Text.{Text}
use pfv.Api.Errors.{Thrown, api_timeout_error, api_response_error, error, not_error}
use pfv.Auth.Roles.{User}

pub data Outcome {ℓ} (A : Type ℓ) : Type ℓ where
  fulfilled : A → Outcome A
  failed : Thrown → Outcome A

unfoldable pub is_transient_auth_error : Thrown → Bool
is_transient_auth_error api_timeout_error = true
is_transient_auth_error (api_response_error e) = e.status == 0 || leb 500 e.status
is_transient_auth_error _ = true

unfoldable pub is_terminal_auth_error : Thrown → Bool
is_terminal_auth_error (api_response_error e) = e.status == 401 || e.status == 403
is_terminal_auth_error _ = false

-- Whether another attempt is made after this one.
abbrev pub retries {ℓ} : {A : Type ℓ} → Outcome A → Bool
retries (fulfilled a) = false
retries (failed e) = is_transient_auth_error e

-- The loop over `delays`, at attempt `n`, with `last` the outcome of the attempt before.
unfoldable pub attempts {ℓ} : {A : Type ℓ} → List ℕ → (ℕ → Outcome A) → ℕ → Outcome A → Outcome A
unfolding is_transient_auth_error
attempts [] call n last = last
attempts (delay ∷ delays) call n last =
    let again = attempts delays call (n + 1) (call n) in if retries (call n) then again else call n

abbrev pub auth_delays : List ℕ
auth_delays = 0 ∷ 250 ∷ 500 ∷ []

-- Attempt 1 runs at once; `call 0` stands for the undefined `lastErr` and is never returned.
unfoldable pub with_auth_retry {ℓ} : {A : Type ℓ} → (ℕ → Outcome A) → Outcome A
unfolding attempts
with_auth_retry call = attempts auth_delays call 1 (call 0)

pub record Session : Type 0 where
  pub user : Option User
  pub loading : Bool
  pub needs_setup : Bool
  pub access_token : Option Text

abbrev pub mounted : Session
mounted = record { user = none; loading = true; needs_setup = false; access_token = none }

-- `fetchMe`: the state and, where it rethrows, the error.
abbrev me_result : Outcome User → Session → Session × Option Thrown
me_result (fulfilled u) s = (record s { user = some u }, none)
me_result (failed e) s =
    if is_terminal_auth_error e
    then (record s { user = none; access_token = none }, some e)
    else (s, some e)

unfoldable pub fetch_me : (ℕ → Outcome User) → Session → Session × Option Thrown
unfolding is_terminal_auth_error
fetch_me me s = me_result (with_auth_retry me) s

-- The answers that `restore` sees, by attempt: `needs_setup`, the new token, the user.
pub record Answers : Type 0 where
  pub status : ℕ → Outcome Bool
  pub refresh : ℕ → Outcome Text
  pub me : ℕ → Outcome User

-- The `catch` of `restore`.
unfoldable pub restore_failed : Thrown → Session → Session
unfolding is_terminal_auth_error
restore_failed e s =
    if is_terminal_auth_error e
    then record s { access_token = none; user = none; loading = false }
    else s

abbrev pub after_me : Outcome User → Session → Session
after_me (fulfilled u) s = record s { user = some u; loading = false }
after_me (failed e) s = restore_failed e s

abbrev pub after_refresh : (ℕ → Outcome User) → Outcome Text → Session → Session
after_refresh me (fulfilled t) s =
    after_me (with_auth_retry me) (record s { access_token = some t })
after_refresh me (failed e) s = restore_failed e s

abbrev pub after_status : Answers → Outcome Bool → Session → Session
after_status a (fulfilled true) s = record s { needs_setup = true; loading = false }
after_status a (fulfilled false) s = after_refresh a.me (with_auth_retry a.refresh) s
after_status a (failed e) s = restore_failed e s

unfoldable pub restore : Answers → Session → Session
unfolding restore_failed
restore a s = after_status a (with_auth_retry a.status) s

-- The listener of auth:unauthenticated.
unfoldable pub on_unauthenticated : Session → Session
on_unauthenticated s = record s { user = none; access_token = none }

-- The answer of /auth/login: a challenge, or a token.
pub data LoginAnswer : Type 0 where
  mfa_challenge : (mfa_token : Text) → LoginAnswer
  token : (access_token : Text) → LoginAnswer

-- How `login` ends: it resolves, redirects to the second factor, or rejects.
pub data LoginResult : Type 0 where
  signed_in : LoginResult
  mfa_required : (mfa_token : Text) → LoginResult
  rejected : Thrown → LoginResult

abbrev finish_login : Session × Option Thrown → Session × LoginResult
finish_login (s, none) = (record s { needs_setup = false }, signed_in)
finish_login (s, some e) = (s, rejected e)

unfoldable pub login : Outcome LoginAnswer → (ℕ → Outcome User) → Session → Session × LoginResult
unfolding fetch_me
login (failed e) me s = (s, rejected e)
login (fulfilled (mfa_challenge t)) me s = (s, mfa_required t)
login (fulfilled (token t)) me s = finish_login (fetch_me me (record s { access_token = some t }))

-- Whatever the server answers, the session ends.
unfoldable pub logout : Session → Session
logout s = record s { access_token = none; user = none }

-- AppShell's `!loading && !user`, which redirects to /login.
unfoldable pub redirects_to_login : Session → Bool
redirects_to_login s = elim s.user [ none ↦ if s.loading then false else true | some u ↦ false ]
