-- ===== src/Batch/Entry/Submits.antt =====
-- `handleSubmit` of frontend/app/transactions/batch/page.tsx, up to its request and from the answer on.
use pfv.Common.{ℕ, ◌+◌, true, false, Option, none, some, List, [], ◌∷◌, if◌then◌else◌, ◌==◌, any}
use pfv.Common.Text.{Text, codes}
use pfv.Api.Errors.{extract_error_message}
use pfv.Auth.Provider.{Outcome, fulfilled, failed}
use pfv.Batch.Entry.{
  DraftRow, RowInput, RowError, Response, Page, populated_rows, input_of, ok, error,
}

-- `populatedRows.map((row, i) => ...)`, from the index `i` on
unfoldable pub payload_rows : ℕ → List DraftRow → List RowInput
unfolding input_of
payload_rows i [] = []
payload_rows i (row ∷ rows) = input_of i row ∷ payload_rows (i + 1) rows

-- `handleSubmit` up to its `await`, with its `populatedRows`.
unfoldable pub begin_with : List DraftRow → Page → Page
unfolding payload_rows
begin_with [] p = record p { top_error = []; summary = none }
begin_with (row ∷ rows) p = record p {
  top_error = [];
  summary = none;
  submitting = true;
  in_flight = some (row ∷ rows);
  posted = payload_rows 0 (row ∷ rows) ∷ p.posted;
}

unfoldable pub begin_submit : Page → Page
unfolding populated_rows begin_with
begin_submit p = begin_with (populated_rows p.rows) p

-- `errMap.get(n)`: of the entries with one number the last is kept.
unfoldable pub error_of : ℕ → List RowError → Option Text
error_of n [] = none
error_of n (e ∷ es) = elim (error_of n es) [
  | some message ↦ some message
  | none ↦ if e.row_number == n then some e.message else none
]

abbrev pub failed_row : Option Text → DraftRow → DraftRow
failed_row none row = row
failed_row (some message) row = record row { status = error; error_message = some message }

-- What the answer makes of the row with the number `n`.
unfoldable pub marked : Response → ℕ → DraftRow → DraftRow
unfolding error_of
marked resp n row =
    if any (λ r. r.row_number == n) resp.results
    then record row { status = ok; error_message = none }
    else failed_row (error_of n resp.errors) row

-- `next.findIndex((r) => r.key === key)`, and the row there
unfoldable pub splat_row : Response → ℕ → ℕ → List DraftRow → List DraftRow
unfolding marked
splat_row resp key n [] = []
splat_row resp key n (row ∷ rows) =
    let rest = splat_row resp key n rows in
    if row.key == key then marked resp n row ∷ rows else row ∷ rest

-- The loop over the captured rows; the first has the number `n`.
unfoldable pub splat : Response → ℕ → List DraftRow → List DraftRow → List DraftRow
unfolding splat_row
splat resp n [] rows = rows
splat resp n (p ∷ ps) rows = splat resp (n + 1) ps (splat_row resp p.key n rows)

abbrev pub batch_failed : Text
batch_failed = codes "Batch submit failed"

-- The answer that ends a `handleSubmit` with the captured rows `sent`.
unfoldable pub settle : Outcome Response → List DraftRow → Page → Page
unfolding splat extract_error_message
settle (fulfilled resp) sent p = record p {
  rows = splat resp 1 sent p.rows;
  summary = some (resp.imported_count, resp.error_count);
  submitting = false;
  in_flight = none;
}
settle (failed e) sent p = record p {
  top_error = extract_error_message e batch_failed;
  submitting = false;
  in_flight = none;
}

abbrev pub end_with : Outcome Response → Option (List DraftRow) → Page → Page
end_with answer none p = p
end_with answer (some sent) p = settle answer sent p

unfoldable pub end_submit : Outcome Response → Page → Page
unfolding settle
end_submit answer p = end_with answer p.in_flight p
