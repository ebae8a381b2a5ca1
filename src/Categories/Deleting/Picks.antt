-- ===== src/Categories/Deleting/Picks.antt =====
-- The targets that a batch delete can have (frontend/components/categories/BatchDeleteModal.tsx),
-- over every run of the page.
use pfv.Common.{
  ℕ, ◌≡◌, refl, sym, subst, arith, Bool, true, false, ◌&&◌, ◌||◌, not, Option, none, some, List, [],
  ◌∷◌, if◌then◌else◌, ◌==◌, any, filter_by, All, either_of, Bool-cases, inl, inr, or_else,
  and_split, ==_iff,
}
use pfv.Auth.Provider.{Outcome, fulfilled, failed}
use pfv.Categories.Rows.{Category, has_id, is_master, selected_subs, ids_of, toggle_selected}
use pfv.Categories.Failures.{FailureRow}
use pfv.Categories.Deleting.Loop.{planned, cons_some, request_of, delete_rows-verdicts}
use pfv.Categories.Deleting.{
  Targets, Page, Deletion, target_of, nonzero, rows_to_show, accepts, is_target, compatible_targets,
  Server, reset, run_refresh, conclude, with_refresh_error, settle, settle_with, with_failures,
  progress, cleared, handle_confirm,
}
use pfv.Categories.Deleting.Events.{
  is_empty, is_offered, with_target, can_confirm, reloaded_with, Action, toggled_edit, opened,
  toggled, chose, confirmed, retried, cancelled, reloaded, act, run, start,
}

-- `t` is a master whose type takes the rows of `sub`.
abbrev is_home : List Category → Category → ℕ → Bool
is_home categories sub t =
    any (λ c. c.id == t && (is_master c && accepts sub.type c.type)) categories

-- The request deletes a selected subcategory, and its target is a master that takes its rows.
unfoldable pub is_safe : List Category → List ℕ → Deletion → Bool
unfolding selected_subs
is_safe categories ids (id, t) =
    any (λ sub. sub.id == id && is_home categories sub t) (selected_subs categories ids)

abbrev pub IsSafe : List Category → List ℕ → Deletion → Type 0
IsSafe categories ids d = is_safe categories ids d ≡ true

abbrev IsSafeChoice : List Category → List ℕ → ℕ × Option ℕ → Type 0
IsSafeChoice categories ids (id, none) = Unit
IsSafeChoice categories ids (id, some t) = IsSafe categories ids (id, t)

-- While the dialog is open, all choices are safe.
abbrev IsSound : Page → Type 0
IsSound p =
    p.is_open ≡ true → All (IsSafeChoice p.categories p.selected_ids) p.modal.migration_targets

module _ {ℓ} {A : Type ℓ} where
  any-imp :
      (f g h : A → Bool) (xs : List A)
      → ((x : A) → g x ≡ true → f x ≡ true → h x ≡ true)
      → any f (filter_by g xs) ≡ true
      → any h xs ≡ true
  any-imp f g h [] imp e = cc
  any-imp f g h (x ∷ xs) imp e =
      step (f x) (g x) (h x) (imp x) (any-imp f g h xs imp)
        (subst (λ b. b ≡ true) (any-elim (g x)) e)
    where
      step :
          (a b c : Bool)
          → (b ≡ true → a ≡ true → c ≡ true)
          → (any f (filter_by g xs) ≡ true → any h xs ≡ true)
          → (elim b [ true ↦ a || any f (filter_by g xs) | false ↦ any f (filter_by g xs) ]) ≡ true
          → (c || any h xs) ≡ true
      step a b true i r e = refl
      step true true false i r e = absurd (ground (arith, i refl refl))
      step false true false i r e = r e
      step a false false i r e = r e

      any-elim :
          (b : Bool)
          → any f (elim b [ true ↦ x ∷ filter_by g xs | false ↦ filter_by g xs ])
            ≡ (elim b [ true ↦ f x || any f (filter_by g xs) | false ↦ any f (filter_by g xs) ])
      any-elim true = refl
      any-elim false = refl

is_target-is_home :
    (rows : List Category) (sub : Category) (t : ℕ) (c : Category)
    → is_target rows sub c ≡ true
    → (c.id == t) ≡ true
    → (c.id == t && (is_master c && accepts sub.type c.type)) ≡ true
is_target-is_home rows sub t c h e =
    let (_, k) = and_split (not (c.id == sub.id)) _ h in
    let (m, l) = and_split (is_master c) _ k in
    let (_, a) = and_split (not (has_id (ids_of rows) c.id)) _ l in rw (e, m, a) refl

-- An option of a row's picker is safe.
is_offered-is_safe :
    (p : Page) (id t : ℕ)
    → is_offered p id t ≡ true
    → is_safe p.categories p.selected_ids (id, t) ≡ true
unfolding is_offered is_safe compatible_targets rows_to_show
is_offered-is_safe p id t h =
    any-imp _ _ (λ sub. sub.id == id && is_home p.categories sub t)
      (selected_subs p.categories p.selected_ids)
      (λ sub shown e.
        let (same, some_target) = and_split (sub.id == id) _ e in
        rw same (
          any-imp (λ c. c.id == t) (is_target (rows_to_show p) sub)
            (λ c. c.id == t && (is_master c && accepts sub.type c.type)) p.categories
            (λ c. is_target-is_home (rows_to_show p) sub t c) some_target))
      h

-- Every handler keeps the choices safe.
reset-IsSound : (q : Page) → IsSound (reset q)
unfolding reset
reset-IsSound q = elim (Bool-cases q.is_open) [ inl t ↦ rw t (λ _. tt) | inr f ↦ rw f (λ o. cc) ]

run_refresh-IsSound :
    (list : Outcome (List Category)) (fs : List FailureRow) (p : Page)
    → IsSound p
    → IsSound (run_refresh list fs p)
unfolding run_refresh
run_refresh-IsSound (fulfilled categories) fs p h =
    reset-IsSound (conclude fs (with_refresh_error [] (record p { categories = categories })))
run_refresh-IsSound (failed e) fs p h = h

settle-IsSound :
    (list : Outcome (List Category)) (fs : List FailureRow) (ss : List ℕ) (p : Page)
    → IsSound p
    → IsSound (settle_with list fs ss p)
unfolding settle_with
settle-IsSound list [] ss p h = run_refresh-IsSound list [] (with_failures [] p) h
settle-IsSound list (f ∷ fs) [] p h = h
settle-IsSound list (f ∷ fs) (s ∷ ss) p h =
    run_refresh-IsSound list (f ∷ fs) (with_failures (f ∷ fs) p) h

reloaded_with-IsSound :
    (list : Outcome (List Category)) (p : Page) → IsSound p → IsSound (reloaded_with list p)
unfolding reloaded_with
reloaded_with-IsSound (fulfilled categories) p h =
    reset-IsSound (record p { categories = categories })
reloaded_with-IsSound (failed e) p h = h

chose-IsSound :
    (p : Page) (id t : ℕ)
    → IsSound p
    → IsSound (if is_offered p id t then with_target id (some t) p else p)
chose-IsSound p id t h = elim (Bool-cases (is_offered p id t)) [
  | inl e ↦ rw e (λ o. (is_offered-is_safe p id t e, h o))
  | inr f ↦ rw f h
]

act-IsSound : (a : Action) (p : Page) → IsSound p → IsSound (act a p)
unfolding act handle_confirm settle
act-IsSound toggled_edit p h = either_of IsSound p.edit_mode (λ o. cc) h
act-IsSound opened p h =
    either_of IsSound (p.edit_mode && not (is_empty p.selected_ids))
      (reset-IsSound (record p { is_open = true })) h
act-IsSound (toggled id) p h =
    reset-IsSound (record p { selected_ids = toggle_selected id p.selected_ids })
act-IsSound (chose id none) p h = λ o. (tt, h o)
act-IsSound (chose id (some t)) p h = chose-IsSound p id t h
act-IsSound (confirmed server list) p h =
    either_of IsSound (can_confirm p)
      (settle-IsSound list (progress server p).new_failures (progress server p).succeeded
        (cleared p) h)
      h
act-IsSound (retried list) p h =
    run_refresh-IsSound list (or_else p.modal.last_failures p.modal.failures) p h
act-IsSound (cancelled list) p h =
    reloaded_with-IsSound list (record p { is_open = false }) (λ o. cc)
act-IsSound (reloaded list) p h = reloaded_with-IsSound list p h

run-IsSound : (actions : List Action) (p : Page) → IsSound p → IsSound (run actions p)
unfolding run
run-IsSound [] p h = h
run-IsSound (a ∷ actions) p h = run-IsSound actions (act a p) (act-IsSound a p h)

-- The requests for rows whose choices are safe.
module _ (categories : List Category) (ids : List ℕ) where
  IsSafe-nonzero :
      (id : ℕ) (o : Option ℕ)
      → IsSafeChoice categories ids (id, o)
      → IsSafeChoice categories ids (id, nonzero o)
  IsSafe-nonzero id none h = tt
  IsSafe-nonzero id (some t) h = either_of (λ o. IsSafeChoice categories ids (id, o)) (t == 0) tt h

  IsSafe-target_of :
      (targets : Targets) (id : ℕ)
      → All (IsSafeChoice categories ids) targets
      → IsSafeChoice categories ids (id, target_of id targets)
  unfolding target_of
  IsSafe-target_of [] id h = tt
  IsSafe-target_of ((i, o) ∷ targets) id (k, h) = elim (Bool-cases (i == id)) [
    | inl e ↦ rw e (
        subst (λ j. IsSafeChoice categories ids (j, nonzero o)) ((==_iff i id).0 e)
          (IsSafe-nonzero i o k))
    | inr f ↦ rw f (IsSafe-target_of targets id h)
  ]

  planned-IsSafe :
      (targets : Targets) (rows : List Category)
      → All (IsSafeChoice categories ids) targets
      → All (IsSafe categories ids) (planned targets rows)
  unfolding planned
  planned-IsSafe targets [] h = tt
  planned-IsSafe targets (sub ∷ rows) h =
      add sub (target_of sub.id targets) (planned targets rows) (IsSafe-target_of targets sub.id h)
        (planned-IsSafe targets rows h)
    where
      add :
          (s : Category) (o : Option ℕ) (ds : List Deletion)
          → IsSafeChoice categories ids (s.id, o)
          → All (IsSafe categories ids) ds
          → All (IsSafe categories ids) (cons_some (request_of s o) ds)
      add s none ds k rest = rest
      add s (some t) ds k rest = (k, rest)

-- Whatever was done on the page before, lists that were loaded anew and batches that failed in part
-- included: every deletion of a confirmed batch is that of a selected subcategory, and its target is
-- a category of the list that the page shows, is a master, and has a type that takes the rows of the
-- subcategory.
pub run-IsSafe :
    (actions : List Action) (server : Server) (list : Outcome (List Category))
    → let p = run actions start in
      can_confirm p ≡ true
      → All (IsSafe p.categories p.selected_ids) (handle_confirm server list p).1
unfolding start handle_confirm can_confirm
run-IsSafe actions server list h =
    let p = run actions start in
    let (o, _) = and_split p.is_open _ h in
    subst (All (IsSafe p.categories p.selected_ids))
      (sym (delete_rows-verdicts server p.modal.migration_targets (rows_to_show p)).0)
      (planned-IsSafe p.categories p.selected_ids p.modal.migration_targets (rows_to_show p)
        (run-IsSound actions start (λ e. cc) o))
