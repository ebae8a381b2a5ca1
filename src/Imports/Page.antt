-- ===== src/Imports/Page.antt =====
-- The state and the handlers of frontend/app/import/page.tsx.
pub mod Confirm
pub mod Events
use pfv.Common.{
  ℕ, Bool, true, false, ◌&&◌, not, Option, none, some, List, [], ◌∷◌, if◌then◌else◌, ◌==◌, is_some,
  or_else, any, filter_by, length, map,
}
use pfv.Common.Text.{Text, codes, text_eq}
use pfv.Common.Json.{Json, arr, str, items, member}
use pfv.Api.Errors.{Thrown, api_response_error, extract_error_message}
use pfv.Auth.Provider.{Outcome, fulfilled, failed}
use pfv.Imports.Rows.{
  PreviewRow, ConfirmRow, TransferUiState, MatchAction, pair_with, create, default_ui,
  build_confirm_row,
}

pub data Step : Type 0 where
  upload preview results : Step

pub data SourceFormat : Type 0 where
  csv ofx : SourceFormat

pub record PreviewResponse : Type 0 where
  pub rows : List PreviewRow
  pub account_id : ℕ
  pub file_name : Text
  pub source_format : Option SourceFormat

-- The body of the confirmation.
pub record ConfirmRequest : Type 0 where
  pub account_id : ℕ
  pub default_category_id : ℕ
  pub rows : List ConfirmRow
  pub file_name : Text
  pub source_format : SourceFormat

-- `transferUi`, by the number of the row, the last write first.
abbrev pub UiMap : Type 0
UiMap = List (ℕ × TransferUiState)

-- The state of the page; `imported` is what a confirmation has come to.
pub record Page : Type 0 where
  pub step : Step
  pub error_msg : Text
  pub missing_types : Option (List Text)
  pub has_file : Bool
  pub account_id : Option ℕ
  pub shown : Option PreviewResponse
  pub row_states : List ConfirmRow
  pub default_category_id : Option ℕ
  pub transfer_ui : UiMap
  pub imported : Option ℕ

abbrev pub row_state : PreviewRow → ConfirmRow
row_state r = record {
  row_number = r.row_number;
  date = r.date;
  description = r.description;
  amount = r.amount;
  type = r.type;
  category_id = r.suggested_category_id;
  skip = r.is_duplicate;
  action = create;
  pair_with_transaction_id = none;
  duplicate_of_transaction_id = none;
  partner_account_id = none;
  transfer_category_id = none;
  recategorize = none;
  suggested_category_id = r.suggested_category_id;
  suggestion_source = r.suggestion_source;
}

abbrev is_pair_with : MatchAction → Bool
is_pair_with pair_with = true
is_pair_with _ = false

abbrev pub initial_ui : PreviewRow → TransferUiState
initial_ui r = record {
  panel_open = false;
  pair_accepted = is_pair_with r.transfer_match_action;
  selected_candidate_id = none;
  drop_accepted = r.is_duplicate_of_linked_leg;
  mark_transfer_dest_account_id = none;
}

-- The loop that fills `ui`; a later row with the same number replaces an earlier one.
unfoldable pub ui_from : UiMap → List PreviewRow → UiMap
ui_from ui [] = ui
ui_from ui (r ∷ rows) = ui_from ((r.row_number, initial_ui r) ∷ ui) rows

-- `ui[n]`
unfoldable pub ui_of : ℕ → UiMap → Option TransferUiState
ui_of n [] = none
ui_of n ((k, ui) ∷ entries) = let rest = ui_of n entries in if k == n then some ui else rest

-- The strings of `detail.missing_types`.
abbrev strings : List Json → List Text
strings [] = []
strings (str s ∷ vs) = s ∷ strings vs
strings (_ ∷ vs) = strings vs

abbrev missing_list : Option Json → Option (List Text)
missing_list (some (arr vs)) = some (strings (items vs))
missing_list _ = none

abbrev missing_in : Bool → Option Json → Option (List Text)
unfolding member
missing_in false detail = none
missing_in true none = none
missing_in true (some d) = missing_list (member (codes "missing_types") d)

abbrev is_code : Text → Option Text → Bool
is_code code none = false
is_code code (some c) = text_eq c code

-- The types that a structured refusal says are missing.
unfoldable pub missing_types_of : Thrown → Option (List Text)
unfolding missing_in text_eq
missing_types_of (api_response_error e) =
    missing_in (is_code (codes "missing_category_type") e.code) e.detail
missing_types_of e = none

unfoldable pub uploaded : Outcome PreviewResponse → Page → Page
unfolding ui_from missing_types_of extract_error_message
uploaded (fulfilled response) p = record p {
  shown = some response;
  row_states = map row_state response.rows;
  transfer_ui = ui_from [] response.rows;
  step = preview;
}
uploaded (failed e) p = elim (missing_types_of e) [
  | some types ↦ record p { missing_types = some types; error_msg = [] }
  | none ↦ record p { error_msg = extract_error_message e (codes "Failed to parse file") }
]

unfoldable pub handle_upload : Outcome PreviewResponse → Page → Page
unfolding uploaded
handle_upload answer p =
    if p.has_file && is_some p.account_id
    then uploaded answer (record p { error_msg = []; missing_types = none })
    else p
