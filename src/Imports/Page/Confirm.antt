-- ===== src/Imports/Page/Confirm.antt =====
-- `handleConfirm` of frontend/app/import/page.tsx.
use pfv.Common.{ℕ, Option, none, some, List, [], ◌∷◌, if◌then◌else◌, ◌==◌, or_else, map}
use pfv.Common.Text.{codes}
use pfv.Api.Errors.{extract_error_message}
use pfv.Auth.Provider.{Outcome, fulfilled, failed}
use pfv.Imports.Rows.{PreviewRow, ConfirmRow, TransferUiState, default_ui, build_confirm_row}
use pfv.Imports.Page.{PreviewResponse, ConfirmRequest, UiMap, Page, ui_of, results, csv}

abbrev pub last_of : ℕ → PreviewRow → Option PreviewRow → Option PreviewRow
last_of n r none = if r.row_number == n then some r else none
last_of n r (some later) = some later

-- `previewByRow.get(n)`: of the rows with one number the last is kept.
unfoldable pub preview_by_row : ℕ → List PreviewRow → Option PreviewRow
preview_by_row n [] = none
preview_by_row n (r ∷ rows) = last_of n r (preview_by_row n rows)

unfoldable pub payload_with : ConfirmRow → Option PreviewRow → Option TransferUiState → ConfirmRow
unfolding build_confirm_row
payload_with row none ui = row
payload_with row (some pv) ui = build_confirm_row row pv (or_else ui default_ui)

unfoldable pub payload_row : List PreviewRow → UiMap → ConfirmRow → ConfirmRow
unfolding payload_with preview_by_row ui_of
payload_row rows ui row =
    payload_with row (preview_by_row row.row_number rows) (ui_of row.row_number ui)

unfoldable pub confirm_request : PreviewResponse → ℕ → Page → ConfirmRequest
unfolding payload_row
confirm_request response category p = record {
  account_id = response.account_id;
  default_category_id = category;
  rows = map (payload_row response.rows p.transfer_ui) p.row_states;
  file_name = response.file_name;
  source_format = or_else response.source_format csv;
}

abbrev pub confirm_answered : Outcome ℕ → Page → Page
unfolding extract_error_message
confirm_answered (fulfilled count) p = record p { imported = some count; step = results }
confirm_answered (failed e) p = record p {
  error_msg = extract_error_message e (codes "Import failed");
}

unfoldable pub confirm_with :
    Outcome ℕ → Option PreviewResponse → Option ℕ → Page → Page × Option ConfirmRequest
unfolding confirm_request confirm_answered
confirm_with answer (some response) (some category) p = (
  confirm_answered answer (record p { error_msg = [] }),
  some (confirm_request response category p),
)
confirm_with answer _ _ p = (p, none)

unfoldable pub handle_confirm : Outcome ℕ → Page → Page × Option ConfirmRequest
unfolding confirm_with
handle_confirm answer p = confirm_with answer p.shown p.default_category_id p
