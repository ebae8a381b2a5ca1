-- ===== src/Api/Refresh/Budget.antt =====
-- What a refresh does to the token, and how often it asks (frontend/lib/api.ts).
use pfv.Common.{
  ℕ, zero, suc, ◌+◌, ◌≡◌, refl, ◌⊎◌, ◌↔◌, Option, none, some, List, [], ◌∷◌, ◌++◌, arith,
  if◌then◌else◌, Bool, true, false, not, ◌&&◌, ◌||◌, ◌==◌, leb,
}
use pfv.Common.Text.{Text}
use pfv.Api.Token.{Runtime, Client, initial}
use pfv.Api.Refresh.{
  ok, terminal, Settlement, resolved, RefreshBody, not_json, null_body, fields, RefreshReply,
  failed, replied, Answer, take_token, refresh_access_token_once, is_final, backoff_ms, retry,
  refresh_access_token,
}

-- The token that a settled attempt hands over, if any.
abbrev pub granted : Settlement → Option Text
granted (resolved (ok t)) = some t
granted _ = none

-- The token is the one handed over, else the old one with its expiry and timer.
abbrev pub Kept : Client → Client → Settlement → Type 0
Kept c d s =
    (d.access_token ≡ elim (granted s) [ none ↦ c.access_token | some t ↦ some t ])
    × (granted s ≡ none → d.access_token_exp ≡ c.access_token_exp)
    × (granted s ≡ none → d.timer ≡ c.timer)

take_token-Kept :
    (rt : Runtime) (n now ms : ℕ) (b : RefreshBody) (c : Client)
    → Kept c (take_token rt n now ms b c).0 (take_token rt n now ms b c).1
unfolding take_token
take_token-Kept rt n now ms (not_json message) c = ground arith
take_token-Kept rt n now ms null_body c = ground arith
take_token-Kept rt n now ms (fields none) c = ground arith
take_token-Kept rt n now ms (fields (some [])) c = ground arith
take_token-Kept rt n now ms (fields (some (u ∷ t))) c = ground arith

pub refresh_access_token_once-Kept :
    (rt : Runtime) (n : ℕ) (a : Answer) (c : Client)
    → Kept c (refresh_access_token_once rt n a c).0 (refresh_access_token_once rt n a c).1
unfolding refresh_access_token_once
refresh_access_token_once-Kept rt n a c = ground arith

-- Terminal exactly on a 401 or 403; granted exactly on a 2xx whose body has a token.
pub refresh_access_token_once-classifies :
    (rt : Runtime) (n : ℕ) (a : Answer) (c : Client) (status : ℕ) (body : RefreshBody)
    → a.reply ≡ replied status body
    → ((refresh_access_token_once rt n a c).1 ≡ resolved (terminal status))
      ↔ ((status ≡ 401) ⊎ (status ≡ 403))
unfolding refresh_access_token_once
refresh_access_token_once-classifies rt n a c status body h = ground arith

retry-Kept :
    (rounds : ℕ) (rt : Runtime) (answers : ℕ → Answer) (n : ℕ) (ds : List ℕ) (c d : Client)
    (s : Settlement)
    → Kept c d s
    → Kept c (retry rounds rt answers n ds (d, s)).0 (retry rounds rt answers n ds (d, s)).1
unfolding retry
retry-Kept zero rt answers n ds c d s h = h
retry-Kept (suc k) rt answers n ds c d s h =
    let next = refresh_access_token_once rt (n + 1) (answers (n + 1)) d in
    ground (
      arith,
      refresh_access_token_once-Kept rt (n + 1) (answers (n + 1)) d,
      retry-Kept k rt answers (n + 1) (ds ++ backoff_ms n ∷ []) c next.0 next.1,
    )

-- Whatever the network answers over all its attempts, a refresh either hands over the token that it
-- stores, or leaves the token, its expiry and its timer as they were: it never logs out.
pub refresh_access_token-Kept :
    (rt : Runtime) (answers : ℕ → Answer) (c : Client)
    → Kept c (refresh_access_token rt answers c).0 (refresh_access_token rt answers c).1
unfolding refresh_access_token
refresh_access_token-Kept rt answers c =
    let first = refresh_access_token_once rt 1 (answers 1) c in
    retry-Kept 2 rt answers 1 [] c first.0 first.1
      (refresh_access_token_once-Kept rt 1 (answers 1) c)

-- How attempt `n` settles; it does not depend on the client.
abbrev pub settles : Runtime → (ℕ → Answer) → ℕ → Settlement
settles rt answers n = (refresh_access_token_once rt n (answers n) initial).1

settles_any :
    (rt : Runtime) (n : ℕ) (a : Answer) (c : Client)
    → (refresh_access_token_once rt n a c).1 ≡ (refresh_access_token_once rt n a initial).1
unfolding refresh_access_token_once
settles_any rt n a c = ground arith

-- The answers after which the refresh is tried again: none at all, a status that is neither a success
-- nor a 401 or 403, and a success whose body is no JSON or has no token.
abbrev is_unread : RefreshBody → Bool
is_unread (not_json message) = true
is_unread null_body = false
is_unread (fields (some (u ∷ t))) = false
is_unread (fields _) = true

abbrev pub is_retried : RefreshReply → Bool
is_retried (failed message) = true
is_retried (replied status body) =
    if status == 401 || status == 403
    then false
    else if leb 200 status && leb status 299
    then is_unread body
    else true

is_final-take_token :
    (rt : Runtime) (n now ms : ℕ) (b : RefreshBody) (c : Client)
    → is_final (take_token rt n now ms b c).1 ≡ not (is_unread b)
unfolding take_token
is_final-take_token rt n now ms (not_json message) c = refl
is_final-take_token rt n now ms null_body c = refl
is_final-take_token rt n now ms (fields none) c = refl
is_final-take_token rt n now ms (fields (some [])) c = refl
is_final-take_token rt n now ms (fields (some (u ∷ t))) c = refl

is_final-once :
    (rt : Runtime) (n : ℕ) (a : Answer) (c : Client)
    → is_final (refresh_access_token_once rt n a c).1 ≡ not (is_retried a.reply)
unfolding refresh_access_token_once
is_final-once rt n a c = grind (arith, is_final-take_token)

-- A refresh settles as its first attempt that is not to be tried again (one that is granted a token,
-- refused with 401 or 403, or answered `null`), and otherwise as its third; it waits 250 ms before the
-- second attempt and 500 ms before the third, and never asks again.
pub refresh_access_token-budget :
    (rt : Runtime) (answers : ℕ → Answer) (c : Client)
    → let (d, s, delays) = refresh_access_token rt answers c in
      (s ≡ (
        if not (is_retried (answers 1).reply)
        then settles rt answers 1
        else if not (is_retried (answers 2).reply)
        then settles rt answers 2
        else settles rt answers 3))
      × (delays ≡ (
          if not (is_retried (answers 1).reply)
          then []
          else if not (is_retried (answers 2).reply)
          then 250 ∷ []
          else 250 ∷ 500 ∷ []))
unfolding refresh_access_token backoff_ms
refresh_access_token-budget rt answers c =
    let c₁ = (refresh_access_token_once rt 1 (answers 1) c).0 in
    let c₂ = (refresh_access_token_once rt 2 (answers 2) c₁).0 in
    ground (
      arith,
      settles_any rt 1 (answers 1) c,
      settles_any rt 2 (answers 2) c₁,
      settles_any rt 3 (answers 3) c₂,
      is_final-once rt 1 (answers 1) c,
      is_final-once rt 2 (answers 2) c₁,
    )
