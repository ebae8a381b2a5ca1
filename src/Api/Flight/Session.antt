-- ===== src/Api/Flight/Session.antt =====
-- When the session ends (frontend/lib/api.ts): which steps clear the access token, and how often
-- auth:unauthenticated is dispatched.
use pfv.Common.{
  ℕ, ◌+◌, ◌≤◌, ◌≡◌, refl, inl, inr, arith, Bool, true, false, Option, none, some, List, [], ◌∷◌,
  if◌then◌else◌, get_elem?, is_some, ◌&&◌, leb, sum_by, sum_by-append, Option-cases,
}
use pfv.Common.Text.{Text}
use pfv.Api.Token.{
  Runtime, Client, AuthEvent, unauthenticated, set_access_token, dispatch_auth_event,
}
use pfv.Api.Refresh.{
  RefreshBody, not_json, null_body, fields, RefreshReply, replied, Answer, take_token,
  refresh_access_token_once,
}
use pfv.Api.Refresh
use pfv.Api.Flight
use pfv.Api.Refresh.Budget.{refresh_access_token_once-Kept}
use pfv.Api.Errors.{Response}
use pfv.Api.Flight.{
  Refreshing, attempting, backing_off, Probe, asking, answered, Task, fresh, poll, preflight,
  background, ready, sent, refreshing, retrying, probing, World, start, Fetched, arrived, Action,
  call, wake, set_token, resume, reply, refresh_reply, backoff_ends, probe_reply, log_out,
  after_probe, resume_task, reply_task, reply_refresh, end_backoff, reply_probe, answer, on_entry,
  step, run,
}

-- The logout events of a client, and one more while it holds a token.
abbrev logout_weight : AuthEvent → ℕ
logout_weight unauthenticated = 1
logout_weight _ = 0

abbrev pub logouts : Client → ℕ
logouts c = sum_by logout_weight c.events

abbrev holds : Client → ℕ
holds c = if is_some c.access_token then 1 else 0

abbrev spent : Client → ℕ
spent c = logouts c + holds c

spent-dispatch :
    (rt : Runtime) (e : AuthEvent) (c : Client)
    → spent (dispatch_auth_event rt e c) ≤ spent c + logout_weight e
unfolding dispatch_auth_event
spent-dispatch rt e c = ground (arith, sum_by-append logout_weight c.events (e ∷ []))

spent-set_access_token :
    (rt : Runtime) (now : ℕ) (t : Option Text) (c : Client)
    → spent (set_access_token rt now t c) ≤ logouts c + (if is_some t then 1 else 0)
unfolding set_access_token
spent-set_access_token rt now t c = omega arith

spent-log_out :
    (rt : Runtime) (now : ℕ) (w : World) → spent (log_out rt now w).client ≤ spent w.client
unfolding log_out
spent-log_out rt now w =
    ground (arith, sum_by-append logout_weight w.client.events (unauthenticated ∷ []))

logouts-once :
    (rt : Runtime) (n : ℕ) (a : Answer) (c : Client)
    → logouts (refresh_access_token_once rt n a c).0 ≡ logouts c
unfolding refresh_access_token_once
logouts-once rt n a c = grind (arith, sum_by-append)

module _ (rt : Runtime) (now i : ℕ) (w : World) where
  spent-after_probe :
      (res : Response) (alive : Bool)
      → spent (after_probe rt now i res alive w).client ≤ spent w.client
  unfolding after_probe
  spent-after_probe res true = omega arith
  spent-after_probe res false = spent-log_out rt now w

  -- A call that goes on keeps the client, unless its probe has failed.
  spent-resume_task : (u : Task) → spent (resume_task rt now i u w).client ≤ spent w.client
  unfolding resume_task
  spent-resume_task (fresh path) = ground arith
  spent-resume_task poll = ground arith
  spent-resume_task (preflight path p) = ground arith
  spent-resume_task (background p) = ground arith
  spent-resume_task (ready path) = ground arith
  spent-resume_task (refreshing path res p) = ground arith
  spent-resume_task (probing path res m) = elim (Option-cases (answer (get_elem? w.probes m))) [
    | inl waits ↦ rw (waits, resume_task) (omega arith)
    | inr (alive, done) ↦ rw (done, resume_task) (spent-after_probe res alive)
  ]
  spent-resume_task _ = omega arith

  spent-reply_task :
      (f : Fetched) (u : Task) → spent (reply_task rt i f u w).client ≤ spent w.client
  unfolding reply_task
  spent-reply_task (Flight.failed x) (sent path bearer) = omega arith
  spent-reply_task (arrived res ms) (sent path bearer) = ground arith
  spent-reply_task (Flight.failed x) (retrying path bearer) = omega arith
  spent-reply_task (arrived res ms) (retrying path bearer) = grind (arith, spent-dispatch)
  spent-reply_task f _ = omega arith

-- The tokens in the body of an answer, and those that an answer hands over: a success with one.
abbrev tokens_in : RefreshBody → ℕ
tokens_in (fields (some (u ∷ t))) = 1
tokens_in _ = 0

abbrev grants : RefreshReply → ℕ
grants (Refresh.failed message) = 0
grants (replied status body) = if leb 200 status && leb status 299 then tokens_in body else 0

-- Only a refresh that waits for its answer takes one.
abbrev reply_supply : Option Refreshing → Answer → ℕ
reply_supply (some (attempting n)) a = grants a.reply
reply_supply _ a = 0

-- The tokens that an action supplies: a caller's, or that of an answer of /auth/refresh.
abbrev supply : Action → World → ℕ
supply (set_token (some t)) w = 1
supply (refresh_reply p a) w = reply_supply (get_elem? w.refreshes p) a
supply _ w = 0

-- The tokens supplied over a run.
abbrev pub supplied : Runtime → List (ℕ × Action) → World → ℕ
supplied rt [] w = 0
supplied rt ((now, a) ∷ rest) w = supply a w + supplied rt rest (step rt now a w)

holds-take_token :
    (rt : Runtime) (n now ms : ℕ) (b : RefreshBody) (c : Client)
    → holds (take_token rt n now ms b c).0 ≤ holds c + tokens_in b
unfolding take_token set_access_token
holds-take_token rt n now ms (not_json message) c = ground arith
holds-take_token rt n now ms null_body c = ground arith
holds-take_token rt n now ms (fields none) c = ground arith
holds-take_token rt n now ms (fields (some [])) c = ground arith
holds-take_token rt n now ms (fields (some (u ∷ t))) c = ground arith

holds-once :
    (rt : Runtime) (n : ℕ) (a : Answer) (c : Client)
    → holds (refresh_access_token_once rt n a c).0 ≤ holds c + grants a.reply
unfolding refresh_access_token_once
holds-once rt n a c = grind (arith, holds-take_token)

spent-on_entry {ℓ} :
    {A : Type ℓ} (o : Option A) (f : A → World → World) (w : World) (k : ℕ)
    → ((a : A) → spent (f a w).client ≤ spent w.client + k)
    → spent (on_entry o f w).client ≤ spent w.client + k
spent-on_entry none f w k h = omega arith
spent-on_entry (some a) f w k h = h a

spent-reply_refresh :
    (rt : Runtime) (p : ℕ) (a : Answer) (w : World) (o : Option Refreshing)
    → spent (on_entry o (reply_refresh rt p a) w).client ≤ spent w.client + reply_supply o a
unfolding reply_refresh
spent-reply_refresh rt p a w (some (attempting n)) =
    omega (arith, logouts-once rt n a w.client, holds-once rt n a w.client)
spent-reply_refresh rt p a w _ = omega arith

spent-end_backoff :
    (p : ℕ) (w : World) (r : Refreshing) → spent (end_backoff p r w).client ≤ spent w.client + 0
unfolding end_backoff
spent-end_backoff p w (backing_off n) = omega arith
spent-end_backoff p w _ = omega arith

spent-reply_probe :
    (m : ℕ) (status : Option ℕ) (w : World) (r : Probe)
    → spent (reply_probe m status r w).client ≤ spent w.client + 0
unfolding reply_probe
spent-reply_probe m status w (asking bearer) = omega arith
spent-reply_probe m status w (answered alive) = omega arith

spent-step :
    (rt : Runtime) (now : ℕ) (a : Action) (w : World)
    → spent (step rt now a w).client ≤ spent w.client + supply a w
unfolding step
spent-step rt now (call path) w = omega arith
spent-step rt now (wake by_timer) w = ground arith
spent-step rt now (set_token none) w = omega (arith, spent-set_access_token rt now none w.client)
spent-step rt now (set_token (some t)) w =
    omega (arith, spent-set_access_token rt now (some t) w.client)
spent-step rt now (resume i) w =
    spent-on_entry (get_elem? w.tasks i) (resume_task rt now i) w 0
      (λ u. omega (arith, spent-resume_task rt now i w u))
spent-step rt now (reply i f) w =
    spent-on_entry (get_elem? w.tasks i) (reply_task rt i f) w 0
      (λ u. omega (arith, spent-reply_task rt now i w f u))
spent-step rt now (refresh_reply p a) w = spent-reply_refresh rt p a w (get_elem? w.refreshes p)
spent-step rt now (backoff_ends p) w =
    spent-on_entry (get_elem? w.refreshes p) (end_backoff p) w 0 (spent-end_backoff p w)
spent-step rt now (probe_reply m status) w =
    spent-on_entry (get_elem? w.probes m) (reply_probe m status) w 0 (spent-reply_probe m status w)

spent-run :
    (rt : Runtime) (trace : List (ℕ × Action)) (w : World)
    → spent (run rt trace w).client ≤ spent w.client + supplied rt trace w
unfolding run
spent-run rt [] w = omega arith
spent-run rt ((now, a) ∷ rest) w =
    omega (arith, spent-step rt now a w, spent-run rt rest (step rt now a w))

-- In every run, auth:unauthenticated is dispatched at most once for each token that was supplied, by
-- a caller of setAccessToken or by a 2xx answer of /auth/refresh that has a token, taken by the refresh
-- that waits for it: refused and failed refreshes add none, however many requests saw a 401.
pub logouts-run :
    (rt : Runtime) (trace : List (ℕ × Action))
    → logouts (run rt trace start).client ≤ supplied rt trace start
logouts-run rt trace = omega (arith, spent-run rt trace start)

-- The steps that may clear the token: a caller does, or a call whose probe has failed goes on. A probe
-- fails on every answer but 200, on none, and without a token to send.
abbrev has_failed : Option Probe → Bool
has_failed (some (answered false)) = true
has_failed _ = false

abbrev ends_task : World → Task → Bool
ends_task w (probing path res m) = has_failed (get_elem? w.probes m)
ends_task w _ = false

abbrev pub ends_session : Action → World → Bool
ends_session (set_token none) w = true
ends_session (resume i) w = elim (get_elem? w.tasks i) [ none ↦ false | some t ↦ ends_task w t ]
ends_session _ w = false

abbrev HasToken : World → Type 0
HasToken w = is_some w.client.access_token ≡ true

module _ (w : World) (h : HasToken w) where
  HasToken-resume_task :
      (rt : Runtime) (now i : ℕ) (u : Task)
      → ends_task w u ≡ false
      → HasToken (resume_task rt now i u w)
  unfolding resume_task
  HasToken-resume_task rt now i (fresh path) k = ground arith
  HasToken-resume_task rt now i poll k = ground arith
  HasToken-resume_task rt now i (preflight path p) k = ground arith
  HasToken-resume_task rt now i (background p) k = ground arith
  HasToken-resume_task rt now i (ready path) k = ground arith
  HasToken-resume_task rt now i (refreshing path res p) k = ground arith
  HasToken-resume_task rt now i (probing path res m) k = ground arith
  HasToken-resume_task rt now i _ k = h

  HasToken-reply_task :
      (rt : Runtime) (i : ℕ) (f : Fetched) (u : Task) → HasToken (reply_task rt i f u w)
  unfolding reply_task
  HasToken-reply_task rt i (Flight.failed x) (sent path bearer) = h
  HasToken-reply_task rt i (arrived res ms) (sent path bearer) = ground arith
  HasToken-reply_task rt i (Flight.failed x) (retrying path bearer) = h
  HasToken-reply_task rt i (arrived res ms) (retrying path bearer) = ground arith
  HasToken-reply_task rt i f _ = h

  HasToken-reply_refresh :
      (rt : Runtime) (p : ℕ) (a : Answer) (r : Refreshing) → HasToken (reply_refresh rt p a r w)
  unfolding reply_refresh
  HasToken-reply_refresh rt p a (attempting n) =
      ground (arith, refresh_access_token_once-Kept rt n a w.client)
  HasToken-reply_refresh rt p a _ = h

  HasToken-end_backoff : (p : ℕ) (r : Refreshing) → HasToken (end_backoff p r w)
  unfolding end_backoff
  HasToken-end_backoff p (backing_off n) = h
  HasToken-end_backoff p _ = h

  HasToken-reply_probe : (m : ℕ) (s : Option ℕ) (r : Probe) → HasToken (reply_probe m s r w)
  unfolding reply_probe
  HasToken-reply_probe m s (asking bearer) = h
  HasToken-reply_probe m s (answered alive) = h

HasToken-on_entry {ℓ} :
    {A : Type ℓ} (o : Option A) (f : A → World → World) (w : World)
    → HasToken w
    → ((a : A) → o ≡ some a → HasToken (f a w))
    → HasToken (on_entry o f w)
HasToken-on_entry none f w h k = h
HasToken-on_entry (some a) f w h k = k a refl

-- No step clears a held access token but a caller's `setAccessToken(null)` and a call that goes on
-- after its /me probe has failed, be it by a refusal, another status, a timeout or the network: no
-- answer of a refresh does so by itself, a terminal one neither, and no timer.
pub step-keeps_token :
    (rt : Runtime) (now : ℕ) (a : Action) (w : World)
    → ends_session a w ≡ false
    → is_some w.client.access_token ≡ true
    → is_some (step rt now a w).client.access_token ≡ true
unfolding step
step-keeps_token rt now (call path) w k h = h
step-keeps_token rt now (wake by_timer) w k h = ground arith
step-keeps_token rt now (set_token none) w k h = cc
step-keeps_token rt now (set_token (some t)) w k h = refl
step-keeps_token rt now (resume i) w k h =
    HasToken-on_entry (get_elem? w.tasks i) (resume_task rt now i) w h
      (λ u e. HasToken-resume_task w h rt now i u (ground arith))
step-keeps_token rt now (reply i f) w k h =
    HasToken-on_entry (get_elem? w.tasks i) (reply_task rt i f) w h
      (λ u e. HasToken-reply_task w h rt i f u)
step-keeps_token rt now (refresh_reply p a) w k h =
    HasToken-on_entry (get_elem? w.refreshes p) (reply_refresh rt p a) w h
      (λ r e. HasToken-reply_refresh w h rt p a r)
step-keeps_token rt now (backoff_ends p) w k h =
    HasToken-on_entry (get_elem? w.refreshes p) (end_backoff p) w h
      (λ r e. HasToken-end_backoff w h p r)
step-keeps_token rt now (probe_reply m status) w k h =
    HasToken-on_entry (get_elem? w.probes m) (reply_probe m status) w h
      (λ r e. HasToken-reply_probe w h m status r)
