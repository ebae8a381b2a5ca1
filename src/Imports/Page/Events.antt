-- ===== src/Imports/Page/Events.antt =====
-- The updates of the table and the panel, and what can happen on frontend/app/import/page.tsx.
use pfv.Common.{
  ℕ, Bool, true, false, ◌&&◌, not, Option, none, some, List, [], ◌∷◌, if◌then◌else◌, ◌==◌, is_some,
  or_else, any, filter_by, length, map,
}
use pfv.Auth.Provider.{Outcome}
use pfv.Imports.Rows.{PreviewRow, ConfirmRow, TransferUiState, default_ui}
use pfv.Imports.Page.{PreviewResponse, UiMap, Page, ui_of, handle_upload, upload}
use pfv.Imports.Page.Confirm.{handle_confirm}

-- `updateRow`: the two patches that the table makes.
pub data RowPatch : Type 0 where
  set_skip : Bool → RowPatch
  set_category : Option ℕ → RowPatch

abbrev pub row_patched : RowPatch → ConfirmRow → ConfirmRow
row_patched (set_skip b) r = record r { skip = b }
row_patched (set_category c) r = record r { category_id = c }

unfoldable pub update_row : ℕ → RowPatch → List ConfirmRow → List ConfirmRow
update_row n patch rows = map (λ r. if r.row_number == n then row_patched patch r else r) rows

-- `updateTransferUi`, and the patches that the panel and the dialog make.
pub data UiPatch : Type 0 where
  set_panel set_drop set_pair : Bool → UiPatch
  choose : (candidate : ℕ) → UiPatch
  skip_pairing unmark : UiPatch
  mark : (account : ℕ) → UiPatch

abbrev pub ui_patched : UiPatch → TransferUiState → TransferUiState
ui_patched (set_panel b) ui = record ui { panel_open = b }
ui_patched (set_drop b) ui = record ui { drop_accepted = b }
ui_patched (set_pair b) ui = record ui { pair_accepted = b }
ui_patched (choose c) ui = record ui { selected_candidate_id = some c; pair_accepted = true }
ui_patched skip_pairing ui = record ui { selected_candidate_id = none; pair_accepted = false }
ui_patched (mark a) ui = record ui { mark_transfer_dest_account_id = some a }
ui_patched unmark ui = record ui { mark_transfer_dest_account_id = none }

unfoldable pub update_transfer_ui : ℕ → UiPatch → UiMap → UiMap
unfolding ui_of
update_transfer_ui n patch ui = (n, ui_patched patch (or_else (ui_of n ui) default_ui)) ∷ ui

abbrev pub has_id : List ℕ → ℕ → Bool
has_id ids id = any (λ i. i == id) ids

-- The options of the panel are the candidates of its row.
abbrev pub is_option : List PreviewRow → ℕ → UiPatch → Bool
is_option rows n (choose c) = any (λ r. r.row_number == n && has_id r.transfer_candidates c) rows
is_option rows n patch = any (λ r. r.row_number == n) rows

abbrev pub rows_of : Option PreviewResponse → List PreviewRow
rows_of none = []
rows_of (some response) = response.rows

-- The button of the confirmation is enabled while a default category is chosen and a row is active.
unfoldable pub can_confirm : Page → Bool
can_confirm p =
    is_some p.default_category_id && not (length (filter_by (λ r. not r.skip) p.row_states) == 0)

unfoldable pub start_over : Page → Page
start_over p = record p { step = upload; shown = none; has_file = false; imported = none }

unfoldable pub start : Page
start = record {
  step = upload;
  error_msg = [];
  missing_types = none;
  has_file = false;
  account_id = none;
  shown = none;
  row_states = [];
  default_category_id = none;
  transfer_ui = [];
  imported = none;
}

pub data Action : Type 0 where
  picked_file restarted : Action
  picked_account picked_default : Option ℕ → Action
  uploaded_file : Outcome PreviewResponse → Action
  row_updated : (n : ℕ) → RowPatch → Action
  ui_updated : (n : ℕ) → UiPatch → Action
  confirmed : Outcome ℕ → Action

unfoldable pub act : Action → Page → Page
unfolding handle_upload update_row update_transfer_ui handle_confirm can_confirm start_over
act picked_file p = record p { has_file = true }
act restarted p = start_over p
act (picked_account a) p = record p { account_id = a }
act (picked_default c) p = record p { default_category_id = c }
act (uploaded_file answer) p = handle_upload answer p
act (row_updated n patch) p = record p { row_states = update_row n patch p.row_states }
act (ui_updated n patch) p =
    if is_option (rows_of p.shown) n patch
    then record p { transfer_ui = update_transfer_ui n patch p.transfer_ui }
    else p
act (confirmed answer) p = if can_confirm p then (handle_confirm answer p).0 else p

unfoldable pub run : List Action → Page → Page
unfolding act
run [] p = p
run (a ∷ actions) p = run actions (act a p)
