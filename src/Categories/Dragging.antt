-- ===== src/Categories/Dragging.antt =====
-- The move of one subcategory by drag and drop (frontend/app/categories/page.tsx): the drop, its
-- preview, and its confirmation.
pub mod Previews
use pfv.Common.{
  ℕ, suc, ◌+◌, Bool, true, false, ◌&&◌, ◌||◌, not, Option, none, some, List, [], ◌∷◌, ◌++◌,
  if◌then◌else◌, ◌==◌, is_some,
}
use pfv.Common.Int.{ℤ, pos}
use pfv.Common.Text.{Text, codes}
use pfv.Common.Json.{Json}
use pfv.Api.Token.{Runtime}
use pfv.Api.Errors.{Thrown}
use pfv.Auth.Provider.{Outcome, fulfilled, failed}
use pfv.Pages.Moves.{
  CategoryType, SubcategoryDragData, MasterDropData, DropClassification, valid, source_parent,
  cross_type, no_drop, wrong_kind, classify_drop, same_id, build_move_error_message,
}
use pfv.Categories.Rows.{Category}
use pfv.Categories.Moving.{MoveResult}

pub record PendingDrag : Type 0 where
  pub subcategory_id : ℤ
  pub subcategory_name : Text
  pub subcategory_type : CategoryType
  pub source_parent_id : ℤ
  pub target_master_id : ℤ
  pub target_master_name : Text

-- The state of the page that a drag reads or writes. `effects` counts the runs of the effect that
-- fetches a preview, `live` is the number of the one whose cleanup has not run, `fetches` has the
-- drag that each run asks for, the last run first, and `patches` the moves that were sent.
pub record Page : Type 0 where
  pub categories : List Category
  pub edit_mode : Bool
  pub active_drag_sub : Option SubcategoryDragData
  pub pending_drag : Option PendingDrag
  pub pending_preview : Option MoveResult
  pub pending_preview_loading : Bool
  pub pending_preview_error : Text
  pub pending_move_submitting : Bool
  pub drag_move_error : Text
  pub effects : ℕ
  pub live : Option ℕ
  pub fetches : List (ℕ × PendingDrag)
  pub patches : List (ℤ × ℤ)

-- `clearPendingDrag`, and the cleanup of the effect.
abbrev pub clear_pending_drag : Page → Page
clear_pending_drag p = record p {
  pending_drag = none;
  pending_preview = none;
  pending_preview_error = [];
  pending_preview_loading = false;
  pending_move_submitting = false;
  live = none;
}

-- `exitEditMode`
unfoldable pub exit_edit_mode : Page → Page
exit_edit_mode p = record (clear_pending_drag p) {
  edit_mode = false;
  active_drag_sub = none;
  drag_move_error = [];
}

unfoldable pub handle_drag_start : Option SubcategoryDragData → Page → Page
handle_drag_start none p = p
handle_drag_start (some sub) p = record p { drag_move_error = []; active_drag_sub = some sub }

unfoldable pub handle_drag_cancel : Page → Page
handle_drag_cancel p = record p { active_drag_sub = none }

-- `categories.find((c) => c.id === target.masterId)?.name ?? "target master"`
unfoldable pub master_name : ℤ → List Category → Text
master_name id [] = codes "target master"
master_name id (c ∷ cs) =
    let rest = master_name id cs in if same_id (pos c.id) id then c.name else rest

abbrev pub pending_of : List Category → SubcategoryDragData → MasterDropData → PendingDrag
unfolding master_name
pending_of categories sub target = record {
  subcategory_id = sub.subcategory_id;
  subcategory_name = sub.subcategory_name;
  subcategory_type = sub.subcategory_type;
  source_parent_id = sub.parent_id;
  target_master_id = target.master_id;
  target_master_name = master_name target.master_id categories;
}

-- `setPendingDrag`, and the run of the effect that it sets off.
abbrev pub with_pending : PendingDrag → Page → Page
with_pending d p = record p {
  pending_drag = some d;
  pending_preview = none;
  pending_preview_error = [];
  pending_preview_loading = true;
  effects = suc p.effects;
  live = some p.effects;
  fetches = (p.effects, d) ∷ p.fetches;
}

abbrev pub dropped : DropClassification → Page → Page
unfolding pending_of
dropped (valid sub target) p = with_pending (pending_of p.categories sub target) p
dropped _ p = p

unfoldable pub handle_drag_end : (active over : Option Json) → Page → Page
unfolding classify_drop dropped
handle_drag_end active over p =
    let q = record p { active_drag_sub = none } in
    if not p.edit_mode then q else dropped (classify_drop active over) q

-- The drag that the run of the effect with the number asks for.
unfoldable pub fetch_of : ℕ → List (ℕ × PendingDrag) → Option PendingDrag
fetch_of n [] = none
fetch_of n ((k, d) ∷ fetches) = let rest = fetch_of n fetches in if k == n then some d else rest

abbrev pub is_live : ℕ → Option ℕ → Bool
is_live n none = false
is_live n (some k) = k == n

-- The answer to the request that the effect has made for the drag; a run that was cleaned up ignores
-- its answer.
abbrev pub previewed : Runtime → PendingDrag → Outcome MoveResult → Page → Page
unfolding build_move_error_message
previewed rt d (fulfilled result) p = record p {
  pending_preview = some result;
  pending_preview_loading = false;
}
previewed rt d (failed e) p = record p {
  pending_preview_error = build_move_error_message rt e d.subcategory_name d.target_master_name;
  pending_preview_loading = false;
}

abbrev pub answered_with :
    Runtime → (PendingDrag → ℕ → Outcome MoveResult) → ℕ → Option PendingDrag → Page → Page
unfolding previewed
answered_with rt answer n none p = p
answered_with rt answer n (some d) p = if is_live n p.live then previewed rt d (answer d n) p else p

-- `handleConfirmDragMove`, with what the PATCH and the reload come to.
abbrev pub move_failed : Runtime → PendingDrag → Thrown → Page → Page
unfolding build_move_error_message
move_failed rt d e p = record p {
  drag_move_error = build_move_error_message rt e d.subcategory_name d.target_master_name;
  pending_move_submitting = false;
}

abbrev pub moved : Runtime → PendingDrag → Outcome (List Category) → Page → Page
unfolding move_failed
moved rt d (fulfilled categories) p = clear_pending_drag (record p { categories = categories })
moved rt d (failed e) p = move_failed rt d e p

abbrev pub confirm_with :
    Runtime → Option Thrown → Outcome (List Category) → Option PendingDrag → Page → Page
unfolding moved move_failed
confirm_with rt refused list none p = p
confirm_with rt refused list (some d) p =
    let q = record p {
      pending_move_submitting = true;
      drag_move_error = [];
      patches = (d.subcategory_id, d.target_master_id) ∷ p.patches;
    } in
    elim refused [ none ↦ moved rt d list q | some e ↦ move_failed rt d e q ]

unfoldable pub handle_confirm_drag_move :
    Runtime → Option Thrown → Outcome (List Category) → Page → Page
unfolding confirm_with
handle_confirm_drag_move rt refused list p = confirm_with rt refused list p.pending_drag p

unfoldable pub handle_cancel_drag_move : Page → Page
handle_cancel_drag_move p = record (clear_pending_drag p) { drag_move_error = [] }

-- What can happen; `answered n` is the arrival of the answer to the n-th preview request, and
-- `confirmed` has the refusal of the PATCH, if any, and the outcome of the reload.
pub data Action : Type 0 where
  toggled_edit cancelled drag_cancelled : Action
  drag_started : Option SubcategoryDragData → Action
  drag_ended : (active over : Option Json) → Action
  answered : (n : ℕ) → Action
  confirmed : (refused : Option Thrown) → Outcome (List Category) → Action

-- The platform, and the answer to each preview request.
module _ (rt : Runtime) (answer : PendingDrag → ℕ → Outcome MoveResult) where
  unfoldable pub act : Action → Page → Page
  unfolding exit_edit_mode handle_drag_start handle_drag_cancel handle_drag_end fetch_of
      answered_with handle_confirm_drag_move handle_cancel_drag_move
  act toggled_edit p = if p.edit_mode then exit_edit_mode p else record p { edit_mode = true }
  act cancelled p = handle_cancel_drag_move p
  act drag_cancelled p = handle_drag_cancel p
  act (drag_started sub) p = handle_drag_start sub p
  act (drag_ended active over) p = handle_drag_end active over p
  act (answered n) p = answered_with rt answer n (fetch_of n p.fetches) p
  act (confirmed refused list) p = handle_confirm_drag_move rt refused list p

  unfoldable pub run : List Action → Page → Page
  unfolding act
  run [] p = p
  run (a ∷ actions) p = run actions (act a p)

unfoldable pub start : List Category → Page
start categories = record {
  categories = categories;
  edit_mode = false;
  active_drag_sub = none;
  pending_drag = none;
  pending_preview = none;
  pending_preview_loading = false;
  pending_preview_error = [];
  pending_move_submitting = false;
  drag_move_error = [];
  effects = 0;
  live = none;
  fetches = [];
  patches = [];
}
