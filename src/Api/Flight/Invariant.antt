-- ===== src/Api/Flight/Invariant.antt =====
-- One refresh at a time (frontend/lib/api.ts): how the shared promise, the count of its awaiters
-- and the calls that wait agree, in every interleaving.
pub mod Steps
use pfv.Common.{
  ℕ, zero, suc, ◌+◌, ◌-◌, ◌≤◌, ◌<◌, ◌≡◌, ◌≢◌, refl, sym, ap, ◌∙◌, ◌⊎◌, inl, inr, arith, Bool, true,
  false, ◌&&◌, ◌||◌, not, Option, none, some, List, [], ◌∷◌, ◌++◌, if◌then◌else◌, ◌==◌, ==_iff,
  length, get_elem?, set, is_some, sum_by, sum_by-set, sum_by-append, get_elem?-set_self,
  get_elem?-set_ne, get_elem?-append_last, get_elem?-append_ne, length-append, Bool-cases,
  Option-cases,
}
use mathlib.Core.Option.{some-injective}
use native.Mathlib.Decide.{ℕ_discrete}
use pfv.Common.Text.{Text}
use pfv.Api.Token.{Runtime, Client}
use pfv.Api.Refresh.{Settlement, resolved, rejected, ok, terminal, transient, Answer}
use pfv.Api.Errors.{Response}
use pfv.Api.Flight.{
  Refreshing, attempting, backing_off, settled, Probe, asking, answered, Task, fresh, poll,
  preflight, background, ready, sent, refreshing, retrying, probing, finished, idle, World, start,
  Fetched, Action, put, join_refresh, leave_refresh, is_promise, step, run,
}

-- The refresh that a call waits for.
abbrev pub waits_for : Task → Option ℕ
waits_for (preflight path p) = some p
waits_for (background p) = some p
waits_for (refreshing path res p) = some p
waits_for _ = none

abbrev pub weight : Task → ℕ
weight t = elim (waits_for t) [ none ↦ 0 | some p ↦ 1 ]

abbrev pub is_live : Refreshing → Bool
is_live (settled s) = false
is_live _ = true

pub record Agree (promise : Option ℕ) (awaiters : ℕ) (refreshes : List Refreshing)
    (tasks : List Task) : Type 0 where
  -- the counter is the number of waiting calls
  pub counted : awaiters ≡ sum_by weight tasks
  -- all of them wait for the promise that the module variable holds
  pub shared :
      (i p : ℕ) (t : Task) → get_elem? tasks i ≡ some t → waits_for t ≡ some p → promise ≡ some p
  -- the variable holds a promise only while somebody waits
  pub held : promise ≢ none → 0 < awaiters
  -- a refresh that has not settled is the one in the variable
  pub single :
      (p : ℕ) (r : Refreshing)
      → get_elem? refreshes p ≡ some r
      → is_live r ≡ true
      → promise ≡ some p

abbrev pub Inv : World → Type 0
Inv w = Agree w.refresh_promise w.refresh_awaiters w.refreshes w.tasks

module _ {ℓ} {A : Type ℓ} where
  -- A fact about an entry of a list after one entry was replaced.
  get_elem?-set_cases :
      (xs : List A) (i j : ℕ) (v : A) {a b : A}
      → get_elem? xs i ≡ some a
      → get_elem? (set xs i v) j ≡ some b
      → (b ≡ v) ⊎ ((i ≢ j) × (get_elem? xs j ≡ some b))
  get_elem?-set_cases xs i j v e h = elim (ℕ_discrete i j) [
    | yes same ↦ inl (
        some-injective _ _
          (sym h ∙ ap (get_elem? (set xs i v)) (sym same) ∙ get_elem?-set_self xs i v e))
    | no other ↦ inr (other, sym (get_elem?-set_ne xs i j v other) ∙ h)
  ]

  get_elem?-append_cases :
      (xs : List A) (v : A) (j : ℕ) {b : A}
      → get_elem? (xs ++ v ∷ []) j ≡ some b
      → (b ≡ v) ⊎ (get_elem? xs j ≡ some b)
  get_elem?-append_cases xs v j h = elim (ℕ_discrete j (length xs)) [
    | yes same ↦ inl (
        some-injective _ _
          (sym h ∙ ap (get_elem? (xs ++ v ∷ [])) same ∙ get_elem?-append_last xs v))
    | no other ↦ inr (sym (get_elem?-append_ne xs v j other) ∙ h)
  ]

abbrev Shared : Option ℕ → List Task → Type 0
Shared q ts = (i p : ℕ) (t : Task) → get_elem? ts i ≡ some t → waits_for t ≡ some p → q ≡ some p

Shared-set :
    (q : Option ℕ) (ts : List Task) (i : ℕ) (t : Task) {u : Task}
    → get_elem? ts i ≡ some u
    → Shared q ts
    → ((p : ℕ) → waits_for t ≡ some p → q ≡ some p)
    → Shared q (set ts i t)
Shared-set q ts i t e h new j p v g w = elim (get_elem?-set_cases ts i j t e g) [
  | inl same ↦ new p (sym (ap waits_for same) ∙ w)
  | inr (other, old) ↦ h j p v old w
]

weight-none : (t : Task) → waits_for t ≡ none → weight t ≡ 0
weight-none t h = ground arith

weight-some : (t : Task) {p : ℕ} → waits_for t ≡ some p → weight t ≡ 1
weight-some t h = ground arith

-- A call that waits is counted.
weight-le :
    (ts : List Task) (i : ℕ) {t : Task} → get_elem? ts i ≡ some t → weight t ≤ sum_by weight ts
weight-le [] i h = cc
weight-le (x ∷ ts) zero h = omega (arith, ap weight (some-injective _ _ h))
weight-le (x ∷ ts) (suc i) h = omega (arith, weight-le ts i h)

live_of_settled : (r : Refreshing) {s : Settlement} → is_live r ≡ true → r ≢ settled s
live_of_settled r w e = cc (ap is_live e)

module _ {q : Option ℕ} {n : ℕ} {rs : List Refreshing} {ts : List Task} (h : Agree q n rs ts) where
  -- A call that did not wait goes on without waiting.
  pub Agree-quiet :
      (i : ℕ) (t : Task) {u : Task}
      → get_elem? ts i ≡ some u
      → waits_for u ≡ none
      → waits_for t ≡ none
      → Agree q n rs (set ts i t)
  Agree-quiet i t {u} e hu ht = record {
    counted =
        omega (arith, sum_by-set weight ts i t e, h.counted, weight-none u hu, weight-none t ht);
    shared = Shared-set q ts i t e h.shared (λ p w. cc);
    held = h.held;
    single = h.single;
  }

  pub Agree-append : (t : Task) → waits_for t ≡ none → Agree q n rs (ts ++ t ∷ [])
  Agree-append t ht = record {
    counted = omega (arith, sum_by-append weight ts (t ∷ []), h.counted, weight-none t ht);
    shared = λ i p v g w. elim (get_elem?-append_cases ts t i g) [
      | inl same ↦ cc (ap waits_for same)
      | inr old ↦ h.shared i p v old w
    ];
    held = h.held;
    single = h.single;
  }

  -- The refresh in flight moves on.
  pub Agree-phase :
      (p : ℕ) (r : Refreshing) {r₀ : Refreshing}
      → get_elem? rs p ≡ some r₀
      → is_live r₀ ≡ true
      → Agree q n (set rs p r) ts
  Agree-phase p r e l = record {
    counted = h.counted;
    shared = h.shared;
    held = h.held;
    single = λ k r' g w. elim (ℕ_discrete p k) [
      | yes same ↦ h.single p _ e l ∙ ap some same
      | no other ↦ h.single k r' (sym (get_elem?-set_ne rs p k r other) ∙ g) w
    ];
  }

  -- The last awaiter of a settled refresh clears the variable.
  pub Agree-leave :
      (i p : ℕ) (t : Task) {u : Task} {s : Settlement}
      → get_elem? ts i ≡ some u
      → waits_for u ≡ some p
      → get_elem? rs p ≡ some (settled s)
      → waits_for t ≡ none
      → Agree (if n - 1 == 0 && is_promise q p then none else q) (n - 1) rs (set ts i t)
  Agree-leave i p t {u} {s} e hu es ht =
      let cur : q ≡ some p = h.shared i p u e hu in
      let count : n - 1 ≡ sum_by weight (set ts i t) =
        omega (arith, sum_by-set weight ts i t e, h.counted, weight-none t ht, weight-some u hu) in
      let keep : Shared q (set ts i t) = Shared-set q ts i t e h.shared (λ k w. cc) in
      let here : is_promise q p ≡ true = rw cur ((==_iff p p).1 refl) in
      elim (Bool-cases (n - 1 == 0)) [
        | inl last ↦
            rw (last, here)
              (record {
                counted = count;
                shared = λ j k v g w. absurd (
                    omega (
                      arith,
                      weight-le (set ts i t) j g,
                      weight-some v w,
                      count,
                      (==_iff _ _).0 last,
                    ));
                held = λ no. absurd (no refl);
                single =
                    λ k r g w. absurd (live_of_settled r {s = s} w (cc (h.single k r g w, cur)));
              })
        | inr more ↦
            rw more (record {
              counted = count;
              shared = keep;
              held = λ _. ground arith;
              single = h.single;
            })
      ]

module _ {n : ℕ} {rs : List Refreshing} {ts : List Task} where
  -- A call starts to wait for the refresh in flight.
  pub Agree-join_old :
      (i p : ℕ) (t : Task) {u : Task}
      → Agree (some p) n rs ts
      → get_elem? ts i ≡ some u
      → waits_for u ≡ none
      → waits_for t ≡ some p
      → Agree (some p) (n + 1) rs (set ts i t)
  Agree-join_old i p t {u} h e hu ht = record {
    counted =
        omega (arith, sum_by-set weight ts i t e, h.counted, weight-none u hu, weight-some t ht);
    shared = Shared-set (some p) ts i t e h.shared (λ k w. sym ht ∙ w);
    held = λ _. omega arith;
    single = h.single;
  }

  -- A call starts a refresh.
  pub Agree-join_new :
      (i : ℕ) (t : Task) {u : Task}
      → Agree none n rs ts
      → get_elem? ts i ≡ some u
      → waits_for u ≡ none
      → waits_for t ≡ some (length rs)
      → Agree (some (length rs)) (n + 1) (rs ++ attempting 1 ∷ []) (set ts i t)
  Agree-join_new i t {u} h e hu ht = record {
    counted =
        omega (arith, sum_by-set weight ts i t e, h.counted, weight-none u hu, weight-some t ht);
    shared =
        Shared-set (some (length rs)) ts i t e (λ j p v g w. cc (h.shared j p v g w))
          (λ k w. sym ht ∙ w);
    held = λ _. omega arith;
    single = λ k r g w. elim (ℕ_discrete k (length rs)) [
      | yes same ↦ ap some (sym same)
      | no other ↦ cc (h.single k r (sym (get_elem?-append_ne rs (attempting 1) k other) ∙ g) w)
    ];
  }
