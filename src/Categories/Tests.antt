-- ===== src/Categories/Tests.antt =====
-- Runs of the categories page and its dialogs on small lists.
use pfv.Common.{
  ℕ, ◌≡◌, refl, true, false, Option, none, some, List, [], ◌∷◌, All, not, filter_by, not,
}
use pfv.Common.Text.{codes}
use pfv.Api.Token.{Runtime}
use pfv.Api.Errors.{error, not_error}
use pfv.Auth.Provider.{fulfilled, failed}
use pfv.Pages.Moves.{CategoryType, income, expense, both}
use pfv.Categories.Rows.{Category, has_id, is_master, selected_subs, ids_of}
use pfv.Categories.Failures.{FailureRow, build_failure}
use pfv.Categories.Deleting.{
  Server, Page, no_progress, delete_rows, failed_ids, progress, handle_confirm, fresh_modal,
  rows_to_show, refresh_failed,
}
use pfv.Categories.Deleting.Events.{
  Action, can_confirm, toggled_edit, toggled, opened, chose, reloaded, run, start,
}
use pfv.Categories.Deleting.Loop.{planned, verdicts, is_failed, delete_rows-verdicts}
use pfv.Categories.Deleting.Forgotten.{handle_confirm-forgets}
use pfv.Categories.Deleting.Picks.{IsSafe, run-IsSafe}
use pfv.Categories.Moving.{View, candidate_masters}
use pfv.Categories.Moving.Candidates.{IsMove, candidate_masters-IsMove}
use pfv.Categories.Listing.{children_of}
use pfv.Categories.Listing.Children.{is_child_of, children_of_lem}

abbrev category : ℕ → CategoryType → Option ℕ → Category
category id type parent = record {
  id = id;
  name = codes "c";
  type = type;
  parent_id = parent;
  transaction_count = id;
}

-- Three masters, of which the last is for both types, and three subcategories of the first.
abbrev categories : List Category
categories =
    category 1 expense none
    ∷ category 2 expense none
    ∷ category 3 both none
    ∷ category 11 expense (some 1)
    ∷ category 12 expense (some 1)
    ∷ category 13 income (some 1)
    ∷ []

abbrev runtime : Runtime
runtime = record {
  has_window = true;
  atob = λ s. none;
  parse = λ s. none;
  show = λ n. [];
  to_string = λ v. [];
}

-- The server that refuses to delete the category 12.
abbrev server : Server
server = record {
  runtime = runtime;
  decimal = λ n. [];
  reply = λ id t. elim (has_id (12 ∷ []) id) [ true ↦ some (error (codes "no")) | false ↦ none ];
}

abbrev actions : List Action
actions =
    reloaded (fulfilled categories)
    ∷ toggled_edit
    ∷ toggled 11
    ∷ toggled 12
    ∷ opened
    ∷ chose 11 (some 2)
    ∷ chose 12 (some 3)
    ∷ chose 12 (some 11)
    ∷ []

abbrev page : Page
unfolding run start
page = run actions start

page_requests : (handle_confirm server (fulfilled categories) page).1 ≡ (11, 2) ∷ (12, 3) ∷ []
unfolding page handle_confirm
page_requests = refl

delete_rows-verdicts_example :
    let done = delete_rows server page.modal.migration_targets (rows_to_show page) no_progress in
    (done.requests ≡ planned page.modal.migration_targets (rows_to_show page))
    × (done.new_failures ≡ verdicts server page.modal.migration_targets (rows_to_show page))
    × (failed_ids done.new_failures
        ≡ ids_of (filter_by (is_failed server page.modal.migration_targets) (rows_to_show page)))
    × (done.succeeded
        ≡ ids_of (
            filter_by
              (λ sub. not (is_failed server page.modal.migration_targets sub))
              (rows_to_show page)))
delete_rows-verdicts_example =
    delete_rows-verdicts server page.modal.migration_targets (rows_to_show page)

abbrev refusal : FailureRow
unfolding build_failure
refusal = build_failure runtime (λ n. []) (category 12 expense (some 1)) (error (codes "no"))

handle_confirm-forgets_example :
    let next = (handle_confirm server (fulfilled categories) page).0 in
    let unloaded = (handle_confirm server (failed not_error) page).0 in
    (next.is_open ≡ true)
    × (next.selected_ids
        ≡ filter_by (λ id. has_id (failed_ids (refusal ∷ [])) id) page.selected_ids)
    × (next.modal ≡ fresh_modal (selected_subs categories next.selected_ids))
    × (unloaded.modal.failures ≡ refusal ∷ [])
    × (unloaded.modal.refresh_error ≡ refresh_failed not_error)
unfolding page progress refusal
handle_confirm-forgets_example =
    handle_confirm-forgets server page refusal [] 11 [] categories not_error refl refl refl

run-IsSafe_example :
    All
      (IsSafe page.categories page.selected_ids)
      (handle_confirm server (fulfilled categories) page).1
unfolding page can_confirm
run-IsSafe_example = run-IsSafe actions server (fulfilled categories) refl

-- The move dialog over two expense subcategories of the first master.
abbrev view : View
view = record {
  to_lower_case = λ s. s;
  categories = categories;
  selected_ids = 11 ∷ 12 ∷ [];
  filter = [];
}

view_offers : ids_of (candidate_masters view) ≡ 2 ∷ []
unfolding candidate_masters
view_offers = refl

candidate_masters-IsMove_example :
    All
      (λ m. (is_master m ≡ true) × All (IsMove m) (selected_subs categories (11 ∷ 12 ∷ [])))
      (candidate_masters view)
candidate_masters-IsMove_example = candidate_masters-IsMove view

children_of_lem_example : children_of categories 1 ≡ filter_by (is_child_of 1) categories
children_of_lem_example = children_of_lem categories 1
