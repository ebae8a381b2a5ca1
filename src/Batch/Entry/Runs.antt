-- ===== src/Batch/Entry/Runs.antt =====
-- What can happen on the page of batch entry (frontend/app/transactions/batch/page.tsx).
use pfv.Common.{ℕ, ◌+◌, Bool, false, none, List, [], ◌∷◌, if◌then◌else◌, is_some}
use pfv.Common.Text.{Text}
use pfv.Auth.Provider.{Outcome}
use pfv.Batch.Entry.{
  Browser, Response, Page, default_row_count, blank_rows, submit_enabled, Patch, update_row, pick,
  add_row, remove_row, handle_row_key_down,
}
use pfv.Batch.Entry.Submits.{begin_submit, end_submit}

unfoldable pub reset_form : Browser → Page → Page
reset_form b p = record p {
  rows = blank_rows b default_row_count p.calls;
  summary = none;
  top_error = [];
  calls = p.calls + default_row_count;
}

unfoldable pub start : Browser → Page
start b = record {
  rows = blank_rows b default_row_count 0;
  submitting = false;
  top_error = [];
  summary = none;
  calls = default_row_count;
  in_flight = none;
  posted = [];
}

-- What can happen on the page. `submitted` is a click on the button, which is disabled unless
-- `submitEnabled`; the one that starts over is shown beside a summary; and `answered` is what the request that is under way comes to.
pub data Action : Type 0 where
  updated : (idx : ℕ) → Patch → Action
  picked : (idx : ℕ) (description : Text) (category_id : ℕ) → Action
  added submitted restarted : Action
  removed : (idx : ℕ) → Action
  pressed : (is_enter is_last_cell : Bool) (idx : ℕ) → Action
  answered : Outcome Response → Action

unfoldable pub act : Browser → Action → Page → Page
unfolding update_row pick add_row remove_row handle_row_key_down begin_submit end_submit reset_form
    submit_enabled
act b (updated idx patch) p = record p { rows = update_row idx patch p.rows }
act b (picked idx d c) p = record p { rows = pick idx d c p.rows }
act b added p = add_row b p
act b submitted p = if submit_enabled b p then begin_submit p else p
act b restarted p = if is_some p.summary then reset_form b p else p
act b (removed idx) p = remove_row idx p
act b (pressed is_enter is_last_cell idx) p = handle_row_key_down b is_enter is_last_cell idx p
act b (answered answer) p = end_submit answer p

unfoldable pub run : Browser → List Action → Page → Page
unfolding act
run b [] p = p
run b (a ∷ actions) p = run b actions (act b a p)
