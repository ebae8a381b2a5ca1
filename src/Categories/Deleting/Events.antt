-- ===== src/Categories/Deleting/Events.antt =====
-- What can happen on the page around a batch delete (frontend/app/categories/page.tsx and
-- frontend/components/categories/BatchDeleteModal.tsx).
use pfv.Common.{
  ℕ, Bool, true, false, ◌&&◌, not, Option, none, some, List, [], ◌∷◌, if◌then◌else◌, ◌==◌, or_else,
  any,
}
use pfv.Auth.Provider.{Outcome, fulfilled, failed}
use pfv.Categories.Rows.{Category, toggle_selected}
use pfv.Categories.Deleting.{
  Page, rows_to_show, compatible_targets, all_targets_picked, Server, fresh_modal, reset,
  exit_edit_mode, run_refresh, handle_confirm,
}

-- The options of the picker in the row of the subcategory `id`.
unfoldable pub is_offered : Page → ℕ → ℕ → Bool
unfolding rows_to_show compatible_targets
is_offered p id t =
    any
      (λ sub.
        sub.id == id && any (λ c. c.id == t) (compatible_targets p.categories (rows_to_show p) sub))
      (rows_to_show p)

abbrev pub with_target : ℕ → Option ℕ → Page → Page
with_target id t p = record p {
  modal = record (p.modal) { migration_targets = (id, t) ∷ p.modal.migration_targets };
}

abbrev pub is_empty {ℓ} : {A : Type ℓ} → List A → Bool
is_empty [] = true
is_empty (_ ∷ _) = false

-- The button of the dialog is there while rows are pending, and enabled once all targets are picked.
unfoldable pub can_confirm : Page → Bool
unfolding all_targets_picked
can_confirm p =
    p.is_open
    && (not (is_empty p.modal.pending_ids) && (not p.modal.submitting && all_targets_picked p))

-- `setCategories` with a list that was loaded, and the effect that it sets off
unfoldable pub reloaded_with : Outcome (List Category) → Page → Page
unfolding reset
reloaded_with (fulfilled categories) p = reset (record p { categories = categories })
reloaded_with (failed e) p = p

-- What can happen on the page; `chose` is a choice in the picker of a row, and `confirmed` a click
-- whose requests are answered before anything else happens.
pub data Action : Type 0 where
  toggled_edit opened : Action
  toggled : (id : ℕ) → Action
  chose : (id : ℕ) (target : Option ℕ) → Action
  confirmed : Server → Outcome (List Category) → Action
  retried cancelled reloaded : Outcome (List Category) → Action

unfoldable pub act : Action → Page → Page
unfolding reset run_refresh handle_confirm toggle_selected all_targets_picked is_offered can_confirm
    reloaded_with
act toggled_edit p = if p.edit_mode then exit_edit_mode p else record p { edit_mode = true }
act opened p =
    if p.edit_mode && not (is_empty p.selected_ids) then reset (record p { is_open = true }) else p
act (toggled id) p = reset (record p { selected_ids = toggle_selected id p.selected_ids })
act (chose id none) p = with_target id none p
act (chose id (some t)) p = if is_offered p id t then with_target id (some t) p else p
act (confirmed server list) p = if can_confirm p then (handle_confirm server list p).0 else p
act (retried list) p = run_refresh list (or_else p.modal.last_failures p.modal.failures) p
act (cancelled list) p = reloaded_with list (record p { is_open = false })
act (reloaded list) p = reloaded_with list p

unfoldable pub run : List Action → Page → Page
unfolding act
run [] p = p
run (a ∷ actions) p = run actions (act a p)

unfoldable pub start : Page
start = record {
  categories = [];
  edit_mode = false;
  selected_ids = [];
  is_open = false;
  modal = fresh_modal [];
}
