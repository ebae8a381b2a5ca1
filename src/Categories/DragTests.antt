-- ===== src/Categories/DragTests.antt =====
-- Runs of a drag and of the forms of the categories page.
use pfv.Common.{ℕ, ◌≡◌, refl, true, false, none, some, List, [], ◌∷◌}
use pfv.Common.Int.{pos}
use pfv.Common.Text.{codes}
use pfv.Api.Token.{Runtime}
use pfv.Auth.Provider.{Outcome, fulfilled}
use pfv.Pages.Moves.{expense, SubcategoryDragData, MasterDropData}
use pfv.Pages.Moves.Drops.{subcategory_json, master_json}
use pfv.Categories.Moving.{MoveResult}
use pfv.Categories.Dragging.{
  PendingDrag, Page, Action, toggled_edit, drag_ended, cancelled, answered, run, start,
}
use pfv.Categories.Dragging.Previews.{IsGood, IsPreview, run-IsPreview}

abbrev runtime : Runtime
runtime = record {
  has_window = true;
  atob = λ s. none;
  parse = λ s. none;
  show = λ n. [];
  to_string = λ v. [];
}

abbrev coffee : SubcategoryDragData
coffee = record {
  subcategory_id = pos 11;
  subcategory_name = codes "coffee";
  subcategory_type = expense;
  parent_id = pos 1;
}

abbrev master : ℕ → MasterDropData
master id = record { master_id = pos id; master_type = expense }

-- The preview of the n-th request counts n transactions.
abbrev answer : PendingDrag → ℕ → Outcome MoveResult
answer d n = fulfilled (record {
  affected_transaction_count = n;
  affected_recurring_count = 0;
  affected_forecast_item_count = 0;
  budget_actuals_shifted = false;
})

-- A drop that is cancelled, a second one, and the answers, that to the first drop last.
abbrev actions : List Action
actions =
    toggled_edit
    ∷ drag_ended (some (subcategory_json coffee)) (some (master_json (master 2)))
    ∷ cancelled
    ∷ drag_ended (some (subcategory_json coffee)) (some (master_json (master 3)))
    ∷ answered 1
    ∷ answered 0
    ∷ []

abbrev page : Page
unfolding run start
page = run runtime answer actions (start [])

page_preview :
    page.pending_preview
    ≡ some (record {
      affected_transaction_count = 1;
      affected_recurring_count = 0;
      affected_forecast_item_count = 0;
      budget_actuals_shifted = false;
    })
unfolding page
page_preview = refl

run-IsPreview_example :
    IsGood runtime answer page.pending_drag
    × IsPreview runtime answer page.pending_drag page.pending_preview
unfolding page
run-IsPreview_example = run-IsPreview runtime answer [] actions
