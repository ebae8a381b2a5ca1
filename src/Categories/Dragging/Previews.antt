-- ===== src/Categories/Dragging/Previews.antt =====
-- Which drag a preview is for, and which moves are sent (frontend/app/categories/page.tsx).
use pfv.Common.{
  ℕ, ◌≢◌, ◌≡◌, ◌∙◌, refl, ap, sym, subst, arith, true, Option, none, some, List, [], ◌∷◌, either_of,
  Bool-cases, inl, inr, ==_iff, not,
}
use pfv.Common.Json.{Json, null, bool, num, str, arr, obj}
use pfv.Pages.Moves.Drops.{classify_drop-IsMove}
use pfv.Api.Token.{Runtime}
use pfv.Api.Errors.{Thrown}
use pfv.Auth.Provider.{Outcome, fulfilled, failed}
use pfv.Pages.Moves.{
  SubcategoryDragData, MasterDropData, DropClassification, valid, source_parent, cross_type,
  no_drop, wrong_kind, classify_drop,
}
use pfv.Categories.Rows.{Category}
use pfv.Categories.Moving.{MoveResult}
use pfv.Categories.Dragging.{
  PendingDrag, Page, exit_edit_mode, handle_drag_start, handle_drag_cancel, dropped,
  handle_drag_end, fetch_of, is_live, previewed, answered_with, moved, confirm_with,
  handle_confirm_drag_move, handle_cancel_drag_move, Action, toggled_edit, cancelled,
  drag_cancelled, drag_started, drag_ended, answered, confirmed, act, run, start,
}

-- The drop is on another master than the one that the subcategory has.
abbrev pub IsMoved : PendingDrag → Type 0
IsMoved d = d.target_master_id ≢ d.source_parent_id

-- What a valid drop is.
no_subcategory :
    (over : Option Json) (s : SubcategoryDragData) (t : MasterDropData)
    → classify_drop none over ≡ valid s t
    → ⊥
unfolding classify_drop
no_subcategory none s t e = cc
no_subcategory (some null) s t e = cc
no_subcategory (some (bool b)) s t e = cc
no_subcategory (some (num n)) s t e = cc
no_subcategory (some (str x)) s t e = cc
no_subcategory (some (arr xs)) s t e = cc
no_subcategory (some (obj fs)) s t e = cc

classify_drop-valid :
    (active over : Option Json) (s : SubcategoryDragData) (t : MasterDropData)
    → classify_drop active over ≡ valid s t
    → t.master_id ≢ s.parent_id
unfolding classify_drop
classify_drop-valid none over s t e = absurd (no_subcategory over s t e)
classify_drop-valid (some a) none s t e = cc
classify_drop-valid (some a) (some o) s t e = (classify_drop-IsMove a o s t e).2

module _ (rt : Runtime) (answer : PendingDrag → ℕ → Outcome MoveResult) where
  -- The preview is the answer to a request for the drag.
  abbrev pub IsPreview : Option PendingDrag → Option MoveResult → Type 0
  IsPreview o none = Unit
  IsPreview none (some r) = ⊥
  IsPreview (some d) (some r) = (n : ℕ) × (answer d n ≡ fulfilled r)

  abbrev pub IsGood : Option PendingDrag → Type 0
  IsGood none = Unit
  IsGood (some d) = IsMoved d

  -- The live run of the effect is the one for the pending drag.
  abbrev IsLive : Option PendingDrag → Option ℕ → List (ℕ × PendingDrag) → Type 0
  IsLive o none fetches = Unit
  IsLive o (some n) fetches = fetch_of n fetches ≡ o

  abbrev IsSound : Page → Type 0
  IsSound p =
      IsGood p.pending_drag
      × IsPreview p.pending_drag p.pending_preview
      × IsLive p.pending_drag p.live p.fetches

  fetch_of-head :
      (n : ℕ) (d : PendingDrag) (fetches : List (ℕ × PendingDrag))
      → fetch_of n ((n, d) ∷ fetches) ≡ some d
  unfolding fetch_of
  fetch_of-head n d fetches = ground arith

  is_live-fetch :
      (n : ℕ) (d : PendingDrag) (p : Page)
      → fetch_of n p.fetches ≡ some d
      → IsLive p.pending_drag p.live p.fetches
      → is_live n p.live ≡ true
      → p.pending_drag ≡ some d
  is_live-fetch n d p e h t = live_fetch p.live h t
    where
      live_fetch :
          (o : Option ℕ)
          → IsLive p.pending_drag o p.fetches
          → is_live n o ≡ true
          → p.pending_drag ≡ some d
      live_fetch none h t = cc
      live_fetch (some k) h t = sym h ∙ ap (λ j. fetch_of j p.fetches) ((==_iff k n).0 t) ∙ e

  previewed-IsSound :
      (n : ℕ) (d : PendingDrag) (o : Outcome MoveResult) (p : Page)
      → answer d n ≡ o
      → p.pending_drag ≡ some d
      → IsSound p
      → IsSound (previewed rt d o p)
  unfolding previewed
  previewed-IsSound n d (fulfilled r) p e q (good, preview, live) =
      (good, subst (λ o. IsPreview o (some r)) (sym q) (n, e), live)
  previewed-IsSound n d (failed err) p e q h = h

  dropped-IsSound :
      (c : DropClassification) (p : Page)
      → ((sub : SubcategoryDragData) (target : MasterDropData)
          → c ≡ valid sub target
          → target.master_id ≢ sub.parent_id)
      → IsSound p
      → IsSound (dropped c p)
  unfolding dropped
  dropped-IsSound (valid sub target) p v h =
      (v sub target refl, tt, fetch_of-head p.effects _ p.fetches)
  dropped-IsSound (source_parent sub target) p v h = h
  dropped-IsSound (cross_type sub target) p v h = h
  dropped-IsSound no_drop p v h = h
  dropped-IsSound wrong_kind p v h = h

  answered-IsSound :
      (n : ℕ) (o : Option PendingDrag) (p : Page)
      → fetch_of n p.fetches ≡ o
      → IsSound p
      → IsSound (answered_with rt answer n o p)
  unfolding answered_with
  answered-IsSound n none p e h = h
  answered-IsSound n (some d) p e (good, preview, live) = elim (Bool-cases (is_live n p.live)) [
    | inl t ↦ rw t (
        previewed-IsSound n d (answer d n) p refl (is_live-fetch n d p e live t)
          (good, preview, live))
    | inr f ↦ rw f (good, preview, live)
  ]

  drag_end-IsSound :
      (active over : Option Json) (p : Page) → IsSound p → IsSound (handle_drag_end active over p)
  unfolding handle_drag_end
  drag_end-IsSound active over p h = either_of IsSound (not p.edit_mode) h (
      dropped-IsSound (classify_drop active over) (record p { active_drag_sub = none })
        (classify_drop-valid active over) h)

  moved-IsSound :
      (refused : Option Thrown) (list : Outcome (List Category)) (o : Option PendingDrag) (p : Page)
      → IsSound p
      → IsSound (confirm_with rt refused list o p)
  unfolding confirm_with moved
  moved-IsSound refused list none p h = h
  moved-IsSound (some e) list (some d) p h = h
  moved-IsSound none (fulfilled categories) (some d) p h = (tt, tt, tt)
  moved-IsSound none (failed e) (some d) p h = h

  drag_start-IsSound :
      (sub : Option SubcategoryDragData) (p : Page) → IsSound p → IsSound (handle_drag_start sub p)
  unfolding handle_drag_start
  drag_start-IsSound none p h = h
  drag_start-IsSound (some sub) p h = h

  act-IsSound : (a : Action) (p : Page) → IsSound p → IsSound (act rt answer a p)
  unfolding act exit_edit_mode handle_drag_cancel handle_cancel_drag_move handle_confirm_drag_move
  act-IsSound toggled_edit p h = either_of IsSound p.edit_mode (tt, tt, tt) h
  act-IsSound cancelled p h = (tt, tt, tt)
  act-IsSound drag_cancelled p h = h
  act-IsSound (drag_started sub) p h = drag_start-IsSound sub p h
  act-IsSound (drag_ended active over) p h = drag_end-IsSound active over p h
  act-IsSound (answered n) p h = answered-IsSound n (fetch_of n p.fetches) p refl h
  act-IsSound (confirmed refused list) p h = moved-IsSound refused list p.pending_drag p h

  run-IsSound : (actions : List Action) (p : Page) → IsSound p → IsSound (run rt answer actions p)
  unfolding run
  run-IsSound [] p h = h
  run-IsSound (a ∷ actions) p h = run-IsSound actions (act rt answer a p) (act-IsSound a p h)

-- In whatever order drops, cancellations, confirmations and the answers to the preview requests come:
-- the drag that waits for its confirmation is one to another master, and the preview that is shown
-- beside it is the answer to a request for that very drag, never that of a drag before it; without
-- such a drag no preview is shown.
pub run-IsPreview :
    (rt : Runtime) (answer : PendingDrag → ℕ → Outcome MoveResult) (categories : List Category)
    (actions : List Action)
    → let p = run rt answer actions (start categories) in
      IsGood rt answer p.pending_drag × IsPreview rt answer p.pending_drag p.pending_preview
unfolding start
run-IsPreview rt answer categories actions =
    let (good, preview, _) = run-IsSound rt answer actions (start categories) (tt, tt, tt) in
    (good, preview)
