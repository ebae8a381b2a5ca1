-- ===== src/Imports/Rows.antt =====
-- The rows of an import (frontend/lib/types.ts), and how a row of the preview becomes one of the
-- confirmation (frontend/app/import/page.tsx). An absent field and `null` are both `none`.
use pfv.Common.{ℕ, Bool, true, false, ◌&&◌, Option, none, some, List, if◌then◌else◌, is_some}
use pfv.Common.Text.{Text}
use pfv.Transactions.Rows.{TransactionType}

pub data SuggestionSource : Type 0 where
  org_rule shared_dictionary default : SuggestionSource

pub data MatchAction : Type 0 where
  no_match pair_with suggest_pair choose_candidate : MatchAction

-- A row of the preview, with the fields that the page reads; the candidates are their ids.
pub record PreviewRow : Type 0 where
  pub row_number : ℕ
  pub date : Text
  pub description : Text
  pub amount : Text
  pub type : TransactionType
  pub is_duplicate : Bool
  pub suggested_category_id : Option ℕ
  pub suggestion_source : Option SuggestionSource
  pub is_duplicate_of_linked_leg : Bool
  pub duplicate_candidate : Option ℕ
  pub transfer_match_action : MatchAction
  pub pair_with_transaction_id : Option ℕ
  pub transfer_candidates : List ℕ

pub data ConfirmAction : Type 0 where
  create pair_with_existing drop_as_duplicate create_transfer_pair : ConfirmAction

pub record ConfirmRow : Type 0 where
  pub row_number : ℕ
  pub date : Text
  pub description : Text
  pub amount : Text
  pub type : TransactionType
  pub category_id : Option ℕ
  pub skip : Bool
  pub action : ConfirmAction
  pub pair_with_transaction_id : Option ℕ
  pub duplicate_of_transaction_id : Option ℕ
  pub partner_account_id : Option ℕ
  pub transfer_category_id : Option ℕ
  pub recategorize : Option Bool
  pub suggested_category_id : Option ℕ
  pub suggestion_source : Option SuggestionSource

-- What the user has chosen for a row beside its category.
pub record TransferUiState : Type 0 where
  pub panel_open : Bool
  pub pair_accepted : Bool
  pub selected_candidate_id : Option ℕ
  pub drop_accepted : Bool
  pub mark_transfer_dest_account_id : Option ℕ

abbrev pub default_ui : TransferUiState
default_ui = record {
  panel_open = false;
  pair_accepted = false;
  selected_candidate_id = none;
  drop_accepted = false;
  mark_transfer_dest_account_id = none;
}

-- `hasPairChoice`
unfoldable pub has_pair_choice : MatchAction → TransferUiState → Bool
has_pair_choice no_match ui = false
has_pair_choice pair_with ui = ui.pair_accepted
has_pair_choice suggest_pair ui = ui.pair_accepted
has_pair_choice choose_candidate ui = is_some ui.selected_candidate_id

-- `partnerId`
unfoldable pub partner_id : MatchAction → PreviewRow → TransferUiState → Option ℕ
partner_id choose_candidate preview ui = ui.selected_candidate_id
partner_id _ preview ui = preview.pair_with_transaction_id

abbrev pub created : ConfirmRow → ConfirmRow
created row = record row {
  action = create;
  pair_with_transaction_id = none;
  duplicate_of_transaction_id = none;
  transfer_category_id = none;
  recategorize = none;
}

-- The last two branches: a row that is marked as a transfer by hand, and any other row.
abbrev pub marked_or_created : ConfirmRow → Option ℕ → ConfirmRow
marked_or_created row none = created row
marked_or_created row (some account) = record row {
  action = create_transfer_pair;
  partner_account_id = some account;
  pair_with_transaction_id = none;
  duplicate_of_transaction_id = none;
  transfer_category_id = none;
  recategorize = some true;
}

abbrev pub dropped : ConfirmRow → PreviewRow → ConfirmRow
dropped row preview = record row {
  action = drop_as_duplicate;
  duplicate_of_transaction_id = preview.duplicate_candidate;
  pair_with_transaction_id = none;
  transfer_category_id = none;
  recategorize = none;
}

abbrev pub paired : ConfirmRow → Option ℕ → ConfirmRow
paired row partner = record row {
  action = pair_with_existing;
  pair_with_transaction_id = partner;
  duplicate_of_transaction_id = none;
  transfer_category_id = none;
  recategorize = some true;
}

unfoldable pub build_confirm_row : ConfirmRow → PreviewRow → TransferUiState → ConfirmRow
unfolding has_pair_choice partner_id
build_confirm_row row preview ui =
    if preview.is_duplicate_of_linked_leg && ui.drop_accepted
    then dropped row preview
    else if has_pair_choice preview.transfer_match_action ui
    then paired row (partner_id preview.transfer_match_action preview ui)
    else marked_or_created row ui.mark_transfer_dest_account_id
