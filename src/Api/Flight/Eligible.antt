-- ===== src/Api/Flight/Eligible.antt =====
-- Which requests enter the silent-refresh flow (frontend/lib/api.ts).
use pfv.Common.{
  ℕ, zero, suc, ◌≡◌, refl, sym, subst, inl, inr, arith, Bool, true, false, ◌&&◌, not, Option, none,
  some, List, [], ◌∷◌, ◌==◌, get_elem?, set, Bool-cases, Option-cases, All, All-append,
}
use mathlib.Core.Option.{some-injective}
use pfv.Common.Text.{Text}
use pfv.Api.Paths.{is_auth_endpoint, is_cred_check, is_cred_check-is_auth_endpoint}
use pfv.Api.Token.{Runtime}
use pfv.Api.Refresh.{Settlement, resolved, rejected, ok, terminal, transient, Answer}
use pfv.Api.Errors.{Response}
use pfv.Api.Flight.{
  Refreshing, attempting, backing_off, Probe, asking, answered, Task, fresh, poll, preflight,
  background, ready, sent, refreshing, retrying, probing, idle, World, start, Fetched, failed,
  arrived, Action, call, wake, set_token, resume, reply, refresh_reply, backoff_ends, probe_reply,
  put, join_at, leave_refresh, needs_refresh, begin, begin_background, receive, probe_at,
  after_refresh, after_preflight, log_out, after_probe, resume_task, reply_task, reply_refresh,
  end_backoff, reply_probe, settlement, answer, on_entry, step, run,
}

-- What is known of the request of a call that waits, probes or retries.
abbrev pub Eligible : Task → Type 0
Eligible (preflight path p) = is_cred_check path ≡ false
Eligible (refreshing path res p) = (is_cred_check path ≡ false) × (res.status ≡ 401)
Eligible (retrying path bearer) = is_cred_check path ≡ false
Eligible (probing path res m) = (is_cred_check path ≡ false) × (res.status ≡ 401)
Eligible _ = Unit

module _ {ℓ κ} {A : Type ℓ} (P : A → Type κ) where
  All-set : (xs : List A) (i : ℕ) (v : A) → All P xs → P v → All P (set xs i v)
  All-set [] i v h p = h
  All-set (x ∷ xs) zero v (q, h) p = (p, h)
  All-set (x ∷ xs) (suc i) v (q, h) p = (q, All-set xs i v h p)

  All-get_elem? : (xs : List A) (i : ℕ) {v : A} → All P xs → get_elem? xs i ≡ some v → P v
  All-get_elem? [] i h e = cc
  All-get_elem? (x ∷ xs) zero (q, h) e = subst P (some-injective _ _ e) q
  All-get_elem? (x ∷ xs) (suc i) (q, h) e = All-get_elem? xs i h e

abbrev AllEligible : World → Type 0
AllEligible w = All Eligible w.tasks

-- Joining a refresh or a probe changes no call.
join_at-tasks : (q : Option ℕ) (w : World) → (join_at q w).0.tasks ≡ w.tasks
unfolding join_at
join_at-tasks none w = refl
join_at-tasks (some p) w = refl

probe_at-tasks : (q : Option ℕ) (w : World) → (probe_at q w).0.tasks ≡ w.tasks
unfolding probe_at
probe_at-tasks none w = refl
probe_at-tasks (some p) w = refl

log_out-tasks : (rt : Runtime) (now : ℕ) (w : World) → (log_out rt now w).tasks ≡ w.tasks
unfolding log_out
log_out-tasks rt now w = ground arith

put-AllEligible :
    (w v : World) (i : ℕ) (t : Task)
    → v.tasks ≡ w.tasks
    → AllEligible w
    → Eligible t
    → AllEligible (put i t v)
unfolding put
put-AllEligible w v i t e h p =
    subst (λ ts. All Eligible (set ts i t)) (sym e) (All-set Eligible w.tasks i t h p)

not_cred : (path : Text) → is_auth_endpoint path ≡ false → is_cred_check path ≡ false
not_cred path h = elim (Bool-cases (is_cred_check path)) [
  | inl b ↦ cc (is_cred_check-is_auth_endpoint path b)
  | inr b ↦ b
]

module _ (w : World) (h : AllEligible w) (rt : Runtime) (now i : ℕ) where
  begin-AllEligible : (path : Text) → AllEligible (begin now i path w)
  unfolding begin
  begin-AllEligible path = elim (Bool-cases (not (is_auth_endpoint path) && needs_refresh now w)) [
    | inl b ↦ rw b (
        put-AllEligible w (join_at w.refresh_promise w).0 i _ (join_at-tasks w.refresh_promise w) h
          (not_cred path (ground arith)))
    | inr b ↦ rw b (put-AllEligible w w i _ refl h tt)
  ]

  begin_background-AllEligible : AllEligible (begin_background now i w)
  unfolding begin_background
  begin_background-AllEligible = elim (Bool-cases (needs_refresh now w)) [
    | inl b ↦ rw b (
        put-AllEligible w (join_at w.refresh_promise w).0 i _ (join_at-tasks w.refresh_promise w) h
          tt)
    | inr b ↦ rw b (put-AllEligible w w i _ refl h tt)
  ]

  receive-AllEligible : (path : Text) (res : Response) → AllEligible (receive rt i path res w)
  unfolding receive
  receive-AllEligible path res = elim (Bool-cases (res.status == 401 && not (is_cred_check path))) [
    | inl b ↦ rw b (
        put-AllEligible w (join_at w.refresh_promise w).0 i _ (join_at-tasks w.refresh_promise w) h
          (ground arith, ground arith))
    | inr b ↦ rw b (put-AllEligible w w i _ refl h tt)
  ]

  after_refresh-AllEligible :
      (path : Text) (res : Response) (p : ℕ) (s : Settlement)
      → Eligible (refreshing path res p)
      → AllEligible (after_refresh i path res s (leave_refresh p w))
  unfolding after_refresh leave_refresh
  after_refresh-AllEligible path res p (resolved (ok t)) e =
      put-AllEligible w (leave_refresh p w) i _ refl h e.0
  after_refresh-AllEligible path res p (resolved (terminal status)) e =
      put-AllEligible w (probe_at w.me_promise (leave_refresh p w)).0 i _
        (probe_at-tasks w.me_promise (leave_refresh p w)) h e
  after_refresh-AllEligible path res p (resolved (transient m status)) e =
      put-AllEligible w (leave_refresh p w) i _ refl h tt
  after_refresh-AllEligible path res p rejected e =
      put-AllEligible w (leave_refresh p w) i _ refl h tt

  after_preflight-AllEligible :
      (path : Text) (p : ℕ) (s : Settlement)
      → AllEligible (after_preflight i path s (leave_refresh p w))
  unfolding after_preflight leave_refresh
  after_preflight-AllEligible path p rejected = put-AllEligible w (leave_refresh p w) i _ refl h tt
  after_preflight-AllEligible path p (resolved r) =
      put-AllEligible w (leave_refresh p w) i _ refl h tt

  after_probe-AllEligible :
      (res : Response) (alive : Bool) → AllEligible (after_probe rt now i res alive w)
  unfolding after_probe
  after_probe-AllEligible res true = put-AllEligible w w i _ refl h tt
  after_probe-AllEligible res false =
      put-AllEligible w (log_out rt now w) i _ (log_out-tasks rt now w) h tt

  resume_task-AllEligible :
      (u : Task) → get_elem? w.tasks i ≡ some u → AllEligible (resume_task rt now i u w)
  unfolding resume_task
  resume_task-AllEligible (fresh path) e = begin-AllEligible path
  resume_task-AllEligible poll e = begin_background-AllEligible
  resume_task-AllEligible (preflight path p) e =
      elim (Option-cases (settlement (get_elem? w.refreshes p))) [
        | inl waits ↦ rw (waits, resume_task) h
        | inr (s, done) ↦ rw (done, resume_task) (after_preflight-AllEligible path p s)
      ]
  resume_task-AllEligible (background p) e =
      elim (Option-cases (settlement (get_elem? w.refreshes p))) [
        | inl waits ↦ rw (waits, resume_task) h
        | inr (s, done) ↦
            rw (done, resume_task) (put-AllEligible w (leave_refresh p w) i idle refl h tt)
      ]
  resume_task-AllEligible (ready path) e = put-AllEligible w w i _ refl h tt
  resume_task-AllEligible (refreshing path res p) e =
      elim (Option-cases (settlement (get_elem? w.refreshes p))) [
        | inl waits ↦ rw (waits, resume_task) h
        | inr (s, done) ↦
            rw (done, resume_task)
              (after_refresh-AllEligible path res p s (All-get_elem? Eligible w.tasks i h e))
      ]
  resume_task-AllEligible (probing path res m) e =
      elim (Option-cases (answer (get_elem? w.probes m))) [
        | inl waits ↦ rw (waits, resume_task) h
        | inr (alive, done) ↦ rw (done, resume_task) (after_probe-AllEligible res alive)
      ]
  resume_task-AllEligible _ e = h

  reply_task-AllEligible : (f : Fetched) (u : Task) → AllEligible (reply_task rt i f u w)
  unfolding reply_task
  reply_task-AllEligible (failed x) (sent path bearer) = put-AllEligible w w i _ refl h tt
  reply_task-AllEligible (arrived res ms) (sent path bearer) = receive-AllEligible path res
  reply_task-AllEligible (failed x) (retrying path bearer) = put-AllEligible w w i _ refl h tt
  reply_task-AllEligible (arrived res ms) (retrying path bearer) = put-AllEligible w w i _ refl h tt
  reply_task-AllEligible f _ = h

on_entry-AllEligible {ℓ} :
    {A : Type ℓ} (o : Option A) (f : A → World → World) (w : World)
    → AllEligible w
    → ((a : A) → o ≡ some a → AllEligible (f a w))
    → AllEligible (on_entry o f w)
on_entry-AllEligible none f w h k = h
on_entry-AllEligible (some a) f w h k = k a refl

reply_refresh-tasks :
    (rt : Runtime) (p : ℕ) (a : Answer) (r : Refreshing) (w : World)
    → (reply_refresh rt p a r w).tasks ≡ w.tasks
unfolding reply_refresh
reply_refresh-tasks rt p a (attempting n) w = refl
reply_refresh-tasks rt p a _ w = refl

end_backoff-tasks : (p : ℕ) (r : Refreshing) (w : World) → (end_backoff p r w).tasks ≡ w.tasks
unfolding end_backoff
end_backoff-tasks p (backing_off n) w = refl
end_backoff-tasks p _ w = refl

reply_probe-tasks :
    (m : ℕ) (s : Option ℕ) (r : Probe) (w : World) → (reply_probe m s r w).tasks ≡ w.tasks
unfolding reply_probe
reply_probe-tasks m s (asking bearer) w = refl
reply_probe-tasks m s (answered alive) w = refl

step-AllEligible :
    (rt : Runtime) (now : ℕ) (a : Action) (w : World)
    → AllEligible w
    → AllEligible (step rt now a w)
unfolding step
step-AllEligible rt now (call path) w h = All-append Eligible w.tasks (fresh path ∷ []) h (tt, tt)
step-AllEligible rt now (wake by_timer) w h = All-append Eligible w.tasks (poll ∷ []) h (tt, tt)
step-AllEligible rt now (set_token token) w h = h
step-AllEligible rt now (resume i) w h =
    on_entry-AllEligible (get_elem? w.tasks i) (resume_task rt now i) w h
      (resume_task-AllEligible w h rt now i)
step-AllEligible rt now (reply i f) w h =
    on_entry-AllEligible (get_elem? w.tasks i) (reply_task rt i f) w h
      (λ u e. reply_task-AllEligible w h rt now i f u)
step-AllEligible rt now (refresh_reply p a) w h =
    on_entry-AllEligible (get_elem? w.refreshes p) (reply_refresh rt p a) w h
      (λ r e. subst (All Eligible) (sym (reply_refresh-tasks rt p a r w)) h)
step-AllEligible rt now (backoff_ends p) w h =
    on_entry-AllEligible (get_elem? w.refreshes p) (end_backoff p) w h
      (λ r e. subst (All Eligible) (sym (end_backoff-tasks p r w)) h)
step-AllEligible rt now (probe_reply m status) w h =
    on_entry-AllEligible (get_elem? w.probes m) (reply_probe m status) w h
      (λ r e. subst (All Eligible) (sym (reply_probe-tasks m status r w)) h)

run-AllEligible :
    (rt : Runtime) (trace : List (ℕ × Action)) (w : World)
    → AllEligible w
    → AllEligible (run rt trace w)
unfolding run
run-AllEligible rt [] w h = h
run-AllEligible rt ((now, a) ∷ rest) w h =
    run-AllEligible rt rest (step rt now a w) (step-AllEligible rt now a w h)

-- In every run, a request to a credential check never waits for a refresh, is never sent again and
-- starts no probe; and a call that waits after its own response, or probes, saw a 401.
pub run-Eligible :
    (rt : Runtime) (trace : List (ℕ × Action)) (i : ℕ) (t : Task)
    → get_elem? (run rt trace start).tasks i ≡ some t
    → Eligible t
run-Eligible rt trace i t e = All-get_elem? Eligible _ i (run-AllEligible rt trace start tt) e
