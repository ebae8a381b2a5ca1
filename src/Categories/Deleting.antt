-- ===== src/Categories/Deleting.antt =====
-- The dialog that deletes the selected subcategories
-- (frontend/components/categories/BatchDeleteModal.tsx), and the part of the page around it
-- (frontend/app/categories/page.tsx).
pub mod Events
pub mod Loop
pub mod Picks
pub mod Forgotten
use pfv.Common.{
  ℕ, ◌+◌, Bool, true, false, ◌&&◌, ◌||◌, not, Option, none, some, List, [], ◌∷◌, ◌++◌,
  if◌then◌else◌, ◌==◌, ltb, length, all, filter_by, is_some, or_else, any,
}
use pfv.Common.Text.{Text, codes}
use pfv.Api.Token.{Runtime}
use pfv.Api.Errors.{
  Thrown, api_timeout_error, api_response_error, error, not_error, extract_error_message,
}
use pfv.Auth.Provider.{Outcome, fulfilled, failed}
use pfv.Pages.Moves.{CategoryType, income, expense, both}
use pfv.Categories.Rows.{Category, has_id, is_master, selected_subs, ids_of, toggle_selected}
use pfv.Categories.Failures.{FailureRow, failure, build_failure}

-- `migrationTargets`, the last pick first; `none` is the empty choice.
abbrev pub Targets : Type 0
Targets = List (ℕ × Option ℕ)

-- The state of the dialog.
pub record Modal : Type 0 where
  pub migration_targets : Targets
  pub pending_ids : List ℕ
  pub failures : List FailureRow
  pub submitting : Bool
  pub global_error : Text
  pub refresh_error : Text
  pub last_failures : Option (List FailureRow)

-- The state of the page that the dialog reads or writes.
pub record Page : Type 0 where
  pub categories : List Category
  pub edit_mode : Bool
  pub selected_ids : List ℕ
  pub is_open : Bool
  pub modal : Modal

-- A `DELETE` of the first, with the second as its `target_category_id`.
abbrev pub Deletion : Type 0
Deletion = ℕ × ℕ

abbrev pub nonzero : Option ℕ → Option ℕ
nonzero none = none
nonzero (some t) = if t == 0 then none else some t

-- `migrationTargets[id]`, where `undefined`, `""` and 0 all stand for no choice
unfoldable pub target_of : ℕ → Targets → Option ℕ
target_of id [] = none
target_of id ((i, t) ∷ targets) =
    let rest = target_of id targets in if i == id then nonzero t else rest

unfoldable pub rows_to_show : Page → List Category
unfolding selected_subs
rows_to_show p =
    filter_by (λ s. has_id p.modal.pending_ids s.id) (selected_subs p.categories p.selected_ids)

-- The aggregate: the rows that have transactions, and the transactions of all rows.
abbrev pub with_tx : List Category → ℕ
with_tx [] = 0
with_tx (s ∷ rows) = if ltb 0 s.transaction_count then with_tx rows + 1 else with_tx rows

abbrev pub tx_count : List Category → ℕ
tx_count [] = 0
tx_count (s ∷ rows) = s.transaction_count + tx_count rows

-- The types of master that take the rows of a deleted subcategory.
abbrev pub accepts : CategoryType → CategoryType → Bool
accepts income income = true
accepts income both = true
accepts expense expense = true
accepts expense both = true
accepts both both = true
accepts _ _ = false

abbrev pub is_target : List Category → Category → Category → Bool
is_target rows sub c =
    not (c.id == sub.id)
    && (is_master c && (not (has_id (ids_of rows) c.id) && accepts sub.type c.type))

unfoldable pub compatible_targets : List Category → List Category → Category → List Category
compatible_targets categories rows sub = filter_by (is_target rows sub) categories

abbrev pub is_picked : Targets → Category → Bool
unfolding target_of
is_picked targets s = is_some (target_of s.id targets)

unfoldable pub all_targets_picked : Page → Bool
unfolding rows_to_show target_of
all_targets_picked p = all (is_picked p.modal.migration_targets) (rows_to_show p)

-- What the loop of `handleConfirm` has done: the requests, the rows that succeeded, the failures.
pub record Progress : Type 0 where
  pub requests : List Deletion
  pub succeeded : List ℕ
  pub new_failures : List FailureRow

abbrev pub no_progress : Progress
no_progress = record { requests = []; succeeded = []; new_failures = [] }

abbrev pub target_missing : Category → FailureRow
target_missing sub =
    failure sub (codes "Pick a migration target for this subcategory.")
      (some (codes "migration_target_required"))

-- What a batch delete asks of the rest: how a failure is worded, and what the request for a
-- subcategory and its target comes to, `none` where it succeeds.
pub record Server : Type 0 where
  pub runtime : Runtime
  pub decimal : ℕ → Text
  pub reply : ℕ → ℕ → Option Thrown

abbrev pub answered : Server → Category → ℕ → Option Thrown → Progress → Progress
unfolding build_failure
answered server sub target none done = record done {
  requests = done.requests ++ (sub.id, target) ∷ [];
  succeeded = done.succeeded ++ sub.id ∷ [];
}
answered server sub target (some e) done = record done {
  requests = done.requests ++ (sub.id, target) ∷ [];
  new_failures = done.new_failures ++ build_failure server.runtime server.decimal sub e ∷ [];
}

abbrev pub delete_row : Server → Category → Option ℕ → Progress → Progress
unfolding answered
delete_row server sub none done = record done {
  new_failures = done.new_failures ++ target_missing sub ∷ [];
}
delete_row server sub (some target) done =
    answered server sub target (server.reply sub.id target) done

-- The loop, one row after the other.
unfoldable pub delete_rows : Server → Targets → List Category → Progress → Progress
unfolding delete_row target_of
delete_rows server targets [] done = done
delete_rows server targets (sub ∷ rows) done =
    delete_rows server targets rows (delete_row server sub (target_of sub.id targets) done)

-- The effect that runs when the dialog opens and when `selectedSubs` changes.
abbrev pub fresh_modal : List Category → Modal
fresh_modal subs = record {
  migration_targets = [];
  pending_ids = ids_of subs;
  failures = [];
  submitting = false;
  global_error = [];
  refresh_error = [];
  last_failures = none;
}

unfoldable pub reset : Page → Page
unfolding selected_subs
reset p =
    if p.is_open
    then record p { modal = fresh_modal (selected_subs p.categories p.selected_ids) }
    else p

abbrev pub exit_edit_mode : Page → Page
exit_edit_mode p = record p { edit_mode = false; selected_ids = []; is_open = false }

abbrev pub with_refresh_error : Text → Page → Page
with_refresh_error message p = record p { modal = record (p.modal) { refresh_error = message } }

-- `err instanceof Error ? … : …`
abbrev pub refresh_failed : Thrown → Text
unfolding extract_error_message
refresh_failed not_error = codes "Delete completed but the page failed to refresh."
refresh_failed e =
    codes "Delete completed but the page failed to refresh: " ++ extract_error_message e []

abbrev pub failed_ids : List FailureRow → List ℕ
failed_ids [] = []
failed_ids (f ∷ fs) = f.category_id ∷ failed_ids fs

-- `onSuccess` once the categories are there.
abbrev pub conclude : List FailureRow → Page → Page
conclude [] p = exit_edit_mode p
conclude (f ∷ fs) p = record p {
  selected_ids = filter_by (λ id. has_id (failed_ids (f ∷ fs)) id) p.selected_ids;
}

-- `runRefresh`: the reload of the page, what `onSuccess` does after it, and the effect that the new
-- categories set off.
unfoldable pub run_refresh : Outcome (List Category) → List FailureRow → Page → Page
unfolding reset refresh_failed
run_refresh (fulfilled categories) failures p =
    reset (conclude failures (with_refresh_error [] (record p { categories = categories })))
run_refresh (failed e) failures p = with_refresh_error (refresh_failed e) p

abbrev pub with_failures : List FailureRow → Page → Page
with_failures failures p = record p {
  modal = record (p.modal) {
    failures = failures;
    pending_ids = failed_ids failures;
    last_failures = some failures;
  };
}

-- What `handleConfirm` does once its loop has ended: the page is told unless every row failed.
abbrev pub settle_with : Outcome (List Category) → List FailureRow → List ℕ → Page → Page
unfolding run_refresh
settle_with list [] succeeded p = run_refresh list [] (with_failures [] p)
settle_with list (f ∷ fs) [] p = with_failures (f ∷ fs) p
settle_with list (f ∷ fs) (_ ∷ _) p = run_refresh list (f ∷ fs) (with_failures (f ∷ fs) p)

abbrev pub settle : Outcome (List Category) → Progress → Page → Page
unfolding settle_with
settle list done p = settle_with list done.new_failures done.succeeded p

unfoldable pub progress : Server → Page → Progress
unfolding delete_rows rows_to_show
progress server p = delete_rows server p.modal.migration_targets (rows_to_show p) no_progress

abbrev pub cleared : Page → Page
cleared p = record p {
  modal = record (p.modal) { submitting = false; global_error = []; refresh_error = [] };
}

-- `handleConfirm`, with the requests that it makes.
unfoldable pub handle_confirm : Server → Outcome (List Category) → Page → Page × List Deletion
unfolding progress settle
handle_confirm server list p =
    (settle list (progress server p) (cleared p), (progress server p).requests)
