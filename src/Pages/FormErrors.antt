-- ===== src/Pages/FormErrors.antt =====
-- frontend/lib/formErrors.ts: what the settings forms tell the user about a failed request, and the
-- check of the billing day before it is sent. Each function switches on the status; the detail of the
-- server is only searched for a few words, without regard to case.
pub mod Copy
pub mod BillingDay
use pfv.Common.{
  ℕ, ◌+◌, ◌*◌, ◌-◌, Bool, true, false, ◌&&◌, ◌||◌, not, Option, none, some, List, [], ◌∷◌, map,
  if◌then◌else◌, ◌==◌, leb, ltb, length, drop, all,
}
use pfv.Common.Text.{Text, codes, starts_with, includes, trim, is_digit, value_from}
use pfv.Api.Errors.{
  ApiResponseError, Thrown, api_timeout_error, api_response_error, error, not_error, timed_out,
}

-- `err instanceof Error ? err.message : fallback`, for what is no ApiResponseError
abbrev pub other_message : Thrown → Text → Text
other_message api_timeout_error fallback = timed_out
other_message (api_response_error e) fallback = e.message
other_message (error message) fallback = message
other_message not_error fallback = fallback

-- The `i` flag on the letters that the patterns hold.
unfoldable pub lower : ℕ → ℕ
lower c = if leb 65 c && leb c 90 then c + 32 else c

-- `/p/i.test(s)` for a pattern of lower-case words
unfoldable pub mentions : Text → Text → Bool
unfolding lower includes
mentions p s = includes p (map lower s)

-- `.` takes any code unit but a line terminator.
unfoldable pub is_dot : ℕ → Bool
is_dot c = not (c == 10 || c == 13 || c == 8232 || c == 8233)

unfoldable pub reached_by_dots : Text → Text → Bool
unfolding is_dot starts_with
reached_by_dots q [] = starts_with q []
reached_by_dots q (c ∷ s) =
    let rest = reached_by_dots q s in starts_with q (c ∷ s) || is_dot c && rest

-- `/p.*q/.test(s)`
unfoldable pub has_in_order : Text → Text → Text → Bool
unfolding reached_by_dots
has_in_order p q [] = starts_with p [] && reached_by_dots q (drop (length p) [])
has_in_order p q (c ∷ s) =
    let rest = has_in_order p q s in
    starts_with p (c ∷ s) && reached_by_dots q (drop (length p) (c ∷ s)) || rest

abbrev mentions_in_order : Text → Text → Text → Bool
mentions_in_order p q s = has_in_order p q (map lower s)

unfoldable pub setup_rejected : Text → Text
unfolding mentions
setup_rejected message =
    if mentions (codes "already enabled") message
    then codes "Two-factor authentication is already on. Refresh the page."
    else if mentions (codes "totp") message || mentions (codes "code") message
    then codes "That code did not match. Codes refresh every 30 seconds, so use the latest one."
    else codes "We could not start setup. Try again in a moment."

unfoldable pub mfa_setup_message : Text → ApiResponseError → Text
unfolding setup_rejected
mfa_setup_message fallback e =
    if e.status == 400
    then setup_rejected e.message
    else if e.status == 401
    then codes "That code did not match. Try the next code your app shows."
    else if e.status == 429
    then codes "Too many attempts. Wait a minute and try again."
    else if e.status == 503
    then codes "Two-factor setup is temporarily unavailable. Try again later."
    else fallback

-- The `instanceof` test that each of the five functions begins with.
abbrev pub map_error : (Text → ApiResponseError → Text) → Thrown → Text → Text
map_error message (api_response_error e) fallback = message fallback e
map_error message err fallback = other_message err fallback

abbrev pub map_mfa_setup_error : Thrown → Text → Text
map_mfa_setup_error = map_error mfa_setup_message

-- A wrong password is the same message for 401 and 403.
abbrev wrong_password : Text
wrong_password = codes "That password did not match. Check it and try again."

unfoldable pub mfa_disable_message : Text → ApiResponseError → Text
unfolding mentions
mfa_disable_message fallback e =
    if e.status == 400
    then (if mentions (codes "not enabled") e.message
        then codes "Two-factor authentication is not on. Refresh the page."
        else fallback)
    else if e.status == 401 || e.status == 403
    then wrong_password
    else if e.status == 429
    then codes "Too many attempts. Wait a minute and try again."
    else fallback

abbrev pub map_mfa_disable_error : Thrown → Text → Text
map_mfa_disable_error = map_error mfa_disable_message

unfoldable pub mfa_regenerate_message : Text → ApiResponseError → Text
unfolding mentions
mfa_regenerate_message fallback e =
    if e.status == 400
    then (if mentions (codes "not enabled") e.message
        then codes "Two-factor authentication is not on. Turn it on first."
        else fallback)
    else if e.status == 401 || e.status == 403
    then wrong_password
    else if e.status == 429
    then codes "Too many attempts. Wait a minute and try again."
    else fallback

abbrev pub map_mfa_regenerate_error : Thrown → Text → Text
map_mfa_regenerate_error = map_error mfa_regenerate_message

unfoldable pub billing_cycle_message : Text → ApiResponseError → Text
billing_cycle_message fallback e =
    if e.status == 400 || e.status == 422
    then codes "Pick a whole number between 1 and 28."
    else if e.status == 403
    then codes "You do not have permission to change the billing cycle."
    else if e.status == 429
    then codes "Too many save attempts. Wait a moment and try again."
    else fallback

abbrev pub map_billing_cycle_error : Thrown → Text → Text
map_billing_cycle_error = map_error billing_cycle_message

unfoldable pub period_close_message : Text → ApiResponseError → Text
unfolding has_in_order
period_close_message fallback e =
    if e.status == 400
    then (if mentions_in_order (codes "already") (codes "closed") e.message
          || mentions_in_order (codes "no") (codes "open") e.message
        then codes "This period is already closed. Refresh the page to see the next one."
        else fallback)
    else if e.status == 403
    then codes "You do not have permission to close the period."
    else if e.status == 429
    then codes "Too many attempts. Wait a moment and try again."
    else fallback

abbrev pub map_billing_period_close_error : Thrown → Text → Text
map_billing_period_close_error = map_error period_close_message

abbrev check_digits : Text → Option Text
check_digits trimmed =
    if not (all is_digit trimmed)
    then some (codes "Use digits only.")
    else if ltb (value_from 0 trimmed) 1 || ltb 28 (value_from 0 trimmed)
    then some (codes "Pick a whole number between 1 and 28.")
    else none

abbrev check_trimmed : Text → Option Text
check_trimmed [] = some (codes "Enter a day between 1 and 28.")
check_trimmed (c ∷ s) = check_digits (c ∷ s)

unfoldable pub validate_billing_cycle_day : Text → Option Text
unfolding value_from trim
validate_billing_cycle_day raw = check_trimmed (trim raw)
