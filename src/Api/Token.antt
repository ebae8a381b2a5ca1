-- ===== src/Api/Token.antt =====
-- The access token that frontend/lib/api.ts keeps in module variables, the expiry read from it and
-- the timer that refreshes it ahead of time. The clock is an argument, in whole seconds as the
-- source takes it; `atob`, `JSON.parse` and number printing belong to the JavaScript runtime.
pub mod Schedule
use pfv.Common.{
  ℕ, zero, suc, ◌+◌, ◌*◌, ◌%◌, ◌≤◌, ◌<◌, Bool, true, false, ◌&&◌, not, Option, none, some, List, [],
  ◌∷◌, ◌++◌, map, ◌≡◌, refl, ◌⊎◌, inl, inr, arith, if◌then◌else◌, ◌==◌, length, length-append,
}
use pfv.Common.Int.{ℤ, pos, negsuc, ◌-ℤ◌, ◌≤ℤ◌, pos_part, neg_part, ltb_ℤ, leb_ℤ}
use pfv.Common.Text.{Text, codes, split}
use pfv.Common.Json.{Json, null, member, as_number}

pub record Runtime : Type 0 where
  pub has_window : Bool
  pub atob : Text → Option Text
  pub parse : Text → Option Json
  pub show : ℕ → Text
  pub to_string : Json → Text

pub data AuthEvent : Type 0 where
  refresh_attempt :
      (attempt : ℕ) → (outcome : Text) → (status : Option ℕ) → (duration_ms : ℕ) → AuthEvent
  retry_after_refresh : (path : Text) → (status : ℕ) → (ok : Bool) → (duration_ms : ℕ) → AuthEvent
  unauthenticated : AuthEvent

-- The module variables that belong to the token, and the events dispatched on window, oldest first.
pub record Client : Type 0 where
  pub access_token : Option Text
  pub access_token_exp : Option ℤ
  pub timer : Option ℤ
  pub events : List AuthEvent

abbrev pub initial : Client
initial = record { access_token = none; access_token_exp = none; timer = none; events = [] }

abbrev pub proactive_refresh_lead_seconds : ℕ
proactive_refresh_lead_seconds = 60

abbrev pub clock_skew_tolerance_seconds : ℕ
clock_skew_tolerance_seconds = 5

abbrev url_safe : ℕ → ℕ
url_safe c = if c == b'-' then b'+' else if c == b'_' then b'/' else c

-- `while (s.length % 4 !== 0) s += "="`; three rounds are enough, `length-pad` below.
unfoldable pub pad : ℕ → Text → Text
pad zero s = s
pad (suc n) s = let longer = pad n (s ++ b'=' ∷ []) in if length s % 4 == 0 then s else longer

abbrev second_of_three : List Text → Option Text
second_of_three (a ∷ b ∷ c ∷ []) = some b
second_of_three _ = none

infixl 5 ◌>>=◌
abbrev ◌>>=◌ {ℓ κ} : {A : Type ℓ} {B : Type κ} → Option A → (A → Option B) → Option B
none >>= k = none
some a >>= k = k a

-- Every throw inside the `try` is the result `null`; so is `payload.exp` of a `null` payload.
unfoldable pub decode_jwt_exp : Runtime → Text → Option ℤ
unfolding pad split member
decode_jwt_exp rt token = do
  payload ← second_of_three (split b'.' token)
  json ← rt.atob (pad 3 (map url_safe payload))
  parsed ← rt.parse json
  as_number (member (codes "exp") parsed)

unfoldable pub near_expiry : ℤ → ℕ → Bool
unfolding ◌-ℤ◌
near_expiry exp now_sec =
    leb_ℤ (exp -ℤ pos now_sec) (pos (proactive_refresh_lead_seconds + clock_skew_tolerance_seconds))

unfoldable pub is_access_token_near_expiry : Client → ℕ → Bool
unfolding near_expiry
is_access_token_near_expiry c now_sec = elim c.access_token_exp [
  | none ↦ false
  | some exp ↦ near_expiry exp now_sec
]

abbrev milliseconds : ℤ → ℤ
milliseconds (pos s) = pos (s * 1000)
milliseconds (negsuc s) = negsuc (s * 1000 + 999)

-- `delayMs <= 0` arms nothing.
abbrev if_positive : ℤ → Option ℤ
if_positive d = if ltb_ℤ (pos 0) d then some d else none

unfoldable pub delay_for : ℤ → ℕ → Option ℤ
unfolding ◌-ℤ◌
delay_for exp now_sec =
    if_positive (milliseconds (exp -ℤ pos proactive_refresh_lead_seconds -ℤ pos now_sec))

-- The pending timer is always cleared first.
unfoldable pub schedule_proactive_refresh : Runtime → ℕ → Client → Client
unfolding delay_for
schedule_proactive_refresh rt now_sec c = record c {
  timer =
      if rt.has_window
      then elim c.access_token_exp [ none ↦ none | some exp ↦ delay_for exp now_sec ]
      else none;
}

-- `token ? decodeJwtExp(token) : null`
abbrev exp_of : Runtime → Option Text → Option ℤ
exp_of rt none = none
exp_of rt (some []) = none
exp_of rt (some (c ∷ t)) = decode_jwt_exp rt (c ∷ t)

unfoldable pub set_access_token : Runtime → ℕ → Option Text → Client → Client
unfolding decode_jwt_exp schedule_proactive_refresh
set_access_token rt now_sec token c =
    schedule_proactive_refresh rt now_sec
      (record c { access_token = token; access_token_exp = exp_of rt token })

-- `dispatchAuthEvent`; there is no event without a window.
unfoldable pub dispatch_auth_event : Runtime → AuthEvent → Client → Client
dispatch_auth_event rt e c = if rt.has_window then record c { events = c.events ++ e ∷ [] } else c

-- `if (accessToken)`: neither null nor the empty string
abbrev pub is_truthy : Option Text → Bool
is_truthy (some (c ∷ t)) = true
is_truthy _ = false
