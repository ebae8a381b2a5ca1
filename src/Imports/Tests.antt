-- ===== src/Imports/Tests.antt =====
-- A run of the import page over a file of three rows.
use pfv.Common.{ℕ, ◌≡◌, refl, Bool, true, false, Option, none, some, List, [], ◌∷◌, map, All}
use pfv.Common.Text.{codes}
use pfv.Auth.Provider.{fulfilled}
use pfv.Transactions.Rows.{expense}
use pfv.Imports.Rows.{
  PreviewRow, MatchAction, no_match, pair_with, choose_candidate, pair_with_existing,
  drop_as_duplicate, create_transfer_pair,
}
use pfv.Imports.Page.{PreviewResponse, Page}
use pfv.Imports.Page.Confirm.{confirm_request}
use pfv.Imports.Page.Events.{
  Action, picked_file, picked_account, picked_default, uploaded_file, row_updated, ui_updated,
  set_skip, choose, mark, run, start,
}
use pfv.Imports.Kept.{echo, echo_of}
use pfv.Imports.Agreed.{IsAgreed, run-IsAgreed}

abbrev row : ℕ → Bool → MatchAction → Option ℕ → List ℕ → PreviewRow
row number linked match pair candidates = record {
  row_number = number;
  date = codes "2026-05-01";
  description = codes "row";
  amount = codes "10";
  type = expense;
  is_duplicate = false;
  suggested_category_id = none;
  suggestion_source = none;
  is_duplicate_of_linked_leg = linked;
  duplicate_candidate = some 70;
  transfer_match_action = match;
  pair_with_transaction_id = pair;
  transfer_candidates = candidates;
}

-- A row that was imported before, one with a match, one with two candidates and one with none.
abbrev response : PreviewResponse
response = record {
  rows =
      row 1 true no_match none []
      ∷ row 2 false pair_with (some 50) (50 ∷ [])
      ∷ row 3 false choose_candidate none (51 ∷ 52 ∷ [])
      ∷ row 4 false no_match none []
      ∷ [];
  account_id = 6;
  file_name = codes "may.csv";
  source_format = none;
}

abbrev actions : List Action
actions =
    picked_file
    ∷ picked_account (some 6)
    ∷ uploaded_file (fulfilled response)
    ∷ picked_default (some 2)
    ∷ ui_updated 3 (choose 52)
    ∷ ui_updated 3 (choose 50)
    ∷ ui_updated 4 (mark 9)
    ∷ row_updated 4 (set_skip false)
    ∷ []

abbrev page : Page
unfolding run start
page = run actions start

page_actions :
    map (λ r. r.action) (confirm_request response 2 page).rows
    ≡ drop_as_duplicate ∷ pair_with_existing ∷ pair_with_existing ∷ create_transfer_pair ∷ []
unfolding page confirm_request
page_actions = refl

page_pairs :
    map (λ r. r.pair_with_transaction_id) (confirm_request response 2 page).rows
    ≡ none ∷ some 50 ∷ some 52 ∷ none ∷ []
unfolding page confirm_request
page_pairs = refl

run-IsAgreed_example :
    let request = confirm_request response 2 page in
    (map echo request.rows ≡ map echo_of response.rows)
    × All (IsAgreed response.rows page.transfer_ui) request.rows
unfolding page
run-IsAgreed_example = run-IsAgreed actions response 2 refl
