-- ===== src/Api/Flight/Invariant/Steps.antt =====
-- Every step keeps the agreement, so it holds in every run (frontend/lib/api.ts).
use pfv.Common.{
  ℕ, suc, ◌+◌, ◌≡◌, refl, sym, subst, ◌∙◌, ◌↔◌, inl, inr, arith, Bool, true, false, ◌&&◌, not,
  Option, none, some, List, [], ◌∷◌, ◌==◌, get_elem?, set, is_some, sum_by, Bool-cases,
  Option-cases,
}
use mathlib.Core.Option.{some-injective}
use pfv.Common.Text.{Text}
use pfv.Api.Paths.{is_auth_endpoint, is_cred_check}
use pfv.Api.Token.{Runtime}
use pfv.Api.Refresh.{Settlement, resolved, rejected, ok, terminal, transient, Answer}
use pfv.Api.Errors.{Response}
use pfv.Api.Flight.{
  Refreshing, attempting, backing_off, settled, Probe, asking, answered, Task, fresh, poll,
  preflight, background, ready, sent, refreshing, retrying, probing, idle, World, start, Fetched,
  failed, arrived, Action, call, wake, set_token, resume, reply, refresh_reply, backoff_ends,
  probe_reply, put, join_at, leave_refresh, needs_refresh, begin, begin_background, receive,
  after_refresh, after_preflight, probe_at, log_out, after_probe, answer, on_entry, resume_task,
  reply_task, reply_refresh, end_backoff, reply_probe, settlement, step, run,
}
use pfv.Api.Flight.Invariant.{
  waits_for, weight, is_live, Agree, Inv, Agree-quiet, Agree-append, Agree-phase, Agree-leave,
  Agree-join_old, Agree-join_new,
}

module _ (w : World) (h : Inv w) where
  join_at-Inv :
      (q : Option ℕ) (i : ℕ) (t : Task) {u : Task}
      → w.refresh_promise ≡ q
      → get_elem? w.tasks i ≡ some u
      → waits_for u ≡ none
      → waits_for t ≡ some (join_at q w).1
      → Inv (put i t (join_at q w).0)
  unfolding put join_at
  join_at-Inv none i t s e hu ht =
      Agree-join_new i t (subst (λ q. Agree q w.refresh_awaiters w.refreshes w.tasks) s h) e hu ht
  join_at-Inv (some p) i t s e hu ht =
      subst (λ q. Agree q (w.refresh_awaiters + 1) w.refreshes (set w.tasks i t)) (sym s)
        (Agree-join_old i p t (subst (λ q. Agree q w.refresh_awaiters w.refreshes w.tasks) s h) e hu
          ht)

  put-Inv :
      (i : ℕ) (t : Task) {u : Task}
      → get_elem? w.tasks i ≡ some u
      → waits_for u ≡ none
      → waits_for t ≡ none
      → Inv (put i t w)
  unfolding put
  put-Inv i t e hu ht = Agree-quiet h i t e hu ht

  begin-Inv :
      (now i : ℕ) (path : Text) → get_elem? w.tasks i ≡ some (fresh path) → Inv (begin now i path w)
  unfolding begin
  begin-Inv now i path e = elim (Bool-cases (not (is_auth_endpoint path) && needs_refresh now w)) [
    | inl b ↦ rw b (join_at-Inv w.refresh_promise i _ refl e refl refl)
    | inr b ↦ rw b (put-Inv i (ready path) e refl refl)
  ]

  begin_background-Inv :
      (now i : ℕ) → get_elem? w.tasks i ≡ some poll → Inv (begin_background now i w)
  unfolding begin_background
  begin_background-Inv now i e = elim (Bool-cases (needs_refresh now w)) [
    | inl b ↦ rw b (join_at-Inv w.refresh_promise i _ refl e refl refl)
    | inr b ↦ rw b (put-Inv i idle e refl refl)
  ]

  receive-Inv :
      (rt : Runtime) (i : ℕ) (path : Text) (res : Response) {bearer : Option Text}
      → get_elem? w.tasks i ≡ some (sent path bearer)
      → Inv (receive rt i path res w)
  unfolding receive
  receive-Inv rt i path res e = elim (Bool-cases (res.status == 401 && not (is_cred_check path))) [
    | inl b ↦ rw b (join_at-Inv w.refresh_promise i _ refl e refl refl)
    | inr b ↦ rw b (put-Inv i _ e refl refl)
  ]

  -- An awaiter of a settled refresh goes on without waiting.
  leave-Inv :
      (i p : ℕ) (t : Task) {u : Task} {s : Settlement}
      → get_elem? w.tasks i ≡ some u
      → waits_for u ≡ some p
      → get_elem? w.refreshes p ≡ some (settled s)
      → waits_for t ≡ none
      → Inv (put i t (leave_refresh p w))
  unfolding put leave_refresh
  leave-Inv i p t e hu es ht = Agree-leave h i p t e hu es ht

-- The probe and the logout touch nothing that the agreement reads.
probe_at-Inv :
    (q : Option ℕ) (w : World) (i : ℕ) (t : Task) → Inv (put i t w) → Inv (put i t (probe_at q w).0)
unfolding put probe_at
probe_at-Inv none w i t h = h
probe_at-Inv (some m) w i t h = h

log_out-Inv :
    (rt : Runtime) (now i : ℕ) (t : Task) (w : World)
    → Inv (put i t w)
    → Inv (put i t (log_out rt now w))
unfolding put log_out
log_out-Inv rt now i t w h = elim (Bool-cases (is_some w.client.access_token)) [
  | inl b ↦ rw b h
  | inr b ↦ rw b h
]

settled_of : (o : Option Refreshing) {s : Settlement} → settlement o ≡ some s → o ≡ some (settled s)
settled_of o h = ground arith

module _ (w : World) (h : Inv w) (rt : Runtime) (now i : ℕ) where
  after_preflight-Inv :
      (path : Text) (p : ℕ) (s : Settlement)
      → get_elem? w.tasks i ≡ some (preflight path p)
      → get_elem? w.refreshes p ≡ some (settled s)
      → Inv (after_preflight i path s (leave_refresh p w))
  unfolding after_preflight
  after_preflight-Inv path p rejected e es = leave-Inv w h i p _ e refl es refl
  after_preflight-Inv path p (resolved r) e es = leave-Inv w h i p _ e refl es refl

  after_refresh-Inv :
      (path : Text) (res : Response) (p : ℕ) (s : Settlement)
      → get_elem? w.tasks i ≡ some (refreshing path res p)
      → get_elem? w.refreshes p ≡ some (settled s)
      → Inv (after_refresh i path res s (leave_refresh p w))
  unfolding after_refresh
  after_refresh-Inv path res p (resolved (ok t)) e es = leave-Inv w h i p _ e refl es refl
  after_refresh-Inv path res p (resolved (terminal status)) e es =
      probe_at-Inv (leave_refresh p w).me_promise (leave_refresh p w) i _
        (leave-Inv w h i p _ e refl es refl)
  after_refresh-Inv path res p (resolved (transient m status)) e es =
      leave-Inv w h i p _ e refl es refl
  after_refresh-Inv path res p rejected e es = leave-Inv w h i p _ e refl es refl

  after_probe-Inv :
      (path : Text) (res : Response) (m : ℕ) (alive : Bool)
      → get_elem? w.tasks i ≡ some (probing path res m)
      → Inv (after_probe rt now i res alive w)
  unfolding after_probe
  after_probe-Inv path res m true e = put-Inv w h i _ e refl refl
  after_probe-Inv path res m false e = log_out-Inv rt now i _ w (put-Inv w h i _ e refl refl)

  resume_task-Inv : (u : Task) → get_elem? w.tasks i ≡ some u → Inv (resume_task rt now i u w)
  unfolding resume_task
  resume_task-Inv (fresh path) e = begin-Inv w h now i path e
  resume_task-Inv poll e = begin_background-Inv w h now i e
  resume_task-Inv (preflight path p) e =
      elim (Option-cases (settlement (get_elem? w.refreshes p))) [
        | inl waits ↦ rw (waits, resume_task) h
        | inr (s, done) ↦
            rw (done, resume_task) (after_preflight-Inv path p s e (settled_of _ done))
      ]
  resume_task-Inv (background p) e = elim (Option-cases (settlement (get_elem? w.refreshes p))) [
    | inl waits ↦ rw (waits, resume_task) h
    | inr (s, done) ↦
        rw (done, resume_task) (leave-Inv w h i p idle e refl (settled_of _ done) refl)
  ]
  resume_task-Inv (ready path) e = put-Inv w h i _ e refl refl
  resume_task-Inv (refreshing path res p) e =
      elim (Option-cases (settlement (get_elem? w.refreshes p))) [
        | inl waits ↦ rw (waits, resume_task) h
        | inr (s, done) ↦
            rw (done, resume_task) (after_refresh-Inv path res p s e (settled_of _ done))
      ]
  resume_task-Inv (probing path res m) e = elim (Option-cases (answer (get_elem? w.probes m))) [
    | inl waits ↦ rw (waits, resume_task) h
    | inr (alive, done) ↦ rw (done, resume_task) (after_probe-Inv path res m alive e)
  ]
  resume_task-Inv _ e = h

  reply_task-Inv :
      (f : Fetched) (u : Task) → get_elem? w.tasks i ≡ some u → Inv (reply_task rt i f u w)
  unfolding reply_task
  reply_task-Inv (failed x) (sent path bearer) e = put-Inv w h i _ e refl refl
  reply_task-Inv (arrived res ms) (sent path bearer) e = receive-Inv w h rt i path res e
  reply_task-Inv (failed x) (retrying path bearer) e = put-Inv w h i _ e refl refl
  reply_task-Inv (arrived res ms) (retrying path bearer) e = put-Inv w h i _ e refl refl
  reply_task-Inv f _ e = h

  reply_refresh-Inv :
      (a : Answer) (r : Refreshing)
      → get_elem? w.refreshes i ≡ some r
      → Inv (reply_refresh rt i a r w)
  unfolding reply_refresh
  reply_refresh-Inv a (attempting n) e = Agree-phase h i _ e refl
  reply_refresh-Inv a _ e = h

  end_backoff-Inv : (r : Refreshing) → get_elem? w.refreshes i ≡ some r → Inv (end_backoff i r w)
  unfolding end_backoff
  end_backoff-Inv (backing_off n) e = Agree-phase h i _ e refl
  end_backoff-Inv _ e = h

  reply_probe-Inv : (status : Option ℕ) (r : Probe) → Inv (reply_probe i status r w)
  unfolding reply_probe
  reply_probe-Inv status (asking bearer) = h
  reply_probe-Inv status (answered alive) = h

on_entry-Inv {ℓ} :
    {A : Type ℓ} (o : Option A) (f : A → World → World) (w : World)
    → Inv w
    → ((a : A) → o ≡ some a → Inv (f a w))
    → Inv (on_entry o f w)
on_entry-Inv none f w h k = h
on_entry-Inv (some a) f w h k = k a refl

-- Every step keeps the agreement between the shared promise, its awaiters and the waiting calls.
pub step-Inv : (rt : Runtime) (now : ℕ) (a : Action) (w : World) → Inv w → Inv (step rt now a w)
unfolding step
step-Inv rt now (call path) w h = Agree-append h (fresh path) refl
step-Inv rt now (wake by_timer) w h = Agree-append h poll refl
step-Inv rt now (set_token token) w h = h
step-Inv rt now (resume i) w h = on_entry-Inv _ _ w h (resume_task-Inv w h rt now i)
step-Inv rt now (reply i f) w h = on_entry-Inv _ _ w h (reply_task-Inv w h rt now i f)
step-Inv rt now (refresh_reply p a) w h = on_entry-Inv _ _ w h (reply_refresh-Inv w h rt now p a)
step-Inv rt now (backoff_ends p) w h = on_entry-Inv _ _ w h (end_backoff-Inv w h rt now p)
step-Inv rt now (probe_reply m status) w h =
    on_entry-Inv (get_elem? w.probes m) (reply_probe m status) w h
      (λ r e. reply_probe-Inv w h rt now m status r)

pub start-Inv : Inv start
start-Inv = record {
  counted = refl;
  shared = λ i p t e w. cc;
  held = λ no. absurd (no refl);
  single = λ p r e l. cc;
}

pub run-Inv : (rt : Runtime) (trace : List (ℕ × Action)) (w : World) → Inv w → Inv (run rt trace w)
unfolding run
run-Inv rt [] w h = h
run-Inv rt ((now, a) ∷ rest) w h = run-Inv rt rest (step rt now a w) (step-Inv rt now a w h)

-- In every run, however the calls, timers and answers interleave, two refreshes that have not
-- settled are the same one.
pub run-one_refresh :
    (rt : Runtime) (trace : List (ℕ × Action)) (p q : ℕ) (r s : Refreshing)
    → get_elem? (run rt trace start).refreshes p ≡ some r
    → get_elem? (run rt trace start).refreshes q ≡ some s
    → is_live r ≡ true
    → is_live s ≡ true
    → p ≡ q
run-one_refresh rt trace p q r s e f l m =
    let h = run-Inv rt trace start start-Inv in
    some-injective _ _ (sym (h.single p r e l) ∙ h.single q s f m)

nobody_waits :
    (ts : List Task)
    → ((i : ℕ) (t : Task) → get_elem? ts i ≡ some t → weight t ≡ 0)
    → sum_by weight ts ≡ 0
nobody_waits [] h = refl
nobody_waits (t ∷ ts) h = omega (arith, h 0 t refl, nobody_waits ts (λ i. h (suc i)))

weight_of_free :
    (w : World)
    → Inv w
    → w.refresh_promise ≡ none
    → (i : ℕ) (t : Task) → get_elem? w.tasks i ≡ some t
    → weight t ≡ 0
weight_of_free w h free i t e = elim (Option-cases (waits_for t)) [
  | inl quiet ↦ ground arith
  | inr (p, waits) ↦ cc (h.shared i p t e waits, free)
]

-- In every run `refreshAwaiters` is the number of calls that wait, and it is zero exactly when
-- `refreshPromise` is null: a finished refresh is never left behind for a later 401.
pub run-released :
    (rt : Runtime) (trace : List (ℕ × Action))
    → ((run rt trace start).refresh_awaiters ≡ sum_by weight (run rt trace start).tasks)
      × (((run rt trace start).refresh_awaiters ≡ 0)
          ↔ ((run rt trace start).refresh_promise ≡ none))
run-released rt trace =
    let w = run rt trace start in
    let h : Inv w = run-Inv rt trace start start-Inv in
    (
      h.counted,
      (
        λ zero_awaiters. elim (Option-cases w.refresh_promise) [
          | inl free ↦ free
          | inr (p, busy) ↦ absurd (omega (arith, h.held (λ no. cc)))
        ],
        λ free. h.counted ∙ nobody_waits w.tasks (weight_of_free w h free),
      ),
    )
