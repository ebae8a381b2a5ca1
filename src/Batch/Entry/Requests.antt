-- ===== src/Batch/Entry/Requests.antt =====
-- The requests that batch entry posts over any run (frontend/app/transactions/batch/page.tsx).
use pfv.Common.{
  ℕ, and_split, suc, ◌+◌, ◌≤◌, ◌≡◌, refl, ap, arith, Bool, true, false, Option, none, some, List,
  [], ◌∷◌, ◌==◌, leb, length, filter_by, All, either, either_of, Bool-cases, not, inl, inr, is_some,
  all, ◌&&◌,
}
use pfv.Auth.Provider.{Outcome, fulfilled, failed}
use pfv.Batch.Entry.{
  DraftRow, Browser, Response, RowInput, Page, add_row, remove_row, handle_row_key_down, input_of,
  populated_rows, row_is_blank, row_is_valid, submit_enabled, is_empty,
}
use pfv.Batch.Entry.Submits.{settle, end_submit, end_with, payload_rows, begin_submit, begin_with}
use pfv.Batch.Entry.Runs.{
  Action, start, act, reset_form, run, answered, submitted, updated, picked, added, restarted,
  removed, pressed,
}
use pfv.Batch.Entry.Keys.{IsUnique, IsSound}
use pfv.Batch.Entry.Limits.{act-IsSound, start-IsSound}

-- Every cell is filled, the description with more than spaces, and the amount is above zero.
abbrev pub IsComplete : Browser → RowInput → Type 0
IsComplete b r =
    (is_empty r.date ≡ false)
    × (is_empty r.description ≡ false)
    × (b.is_positive r.amount ≡ true)
    × (is_some r.account_id ≡ true)
    × (is_some r.category_id ≡ true)

-- The rows are numbered in order from `i + 1` on.
abbrev pub IsNumbered : ℕ → List RowInput → Type 0
IsNumbered i [] = Unit
IsNumbered i (r ∷ rs) = (r.row_number ≡ i + 1) × IsNumbered (i + 1) rs

-- A request that the backend's schema takes.
abbrev pub IsRequest : Browser → List RowInput → Type 0
IsRequest b request =
    (1 ≤ length request)
    × (length request ≤ 500)
    × IsNumbered 0 request
    × All (IsComplete b) request

payload_rows-IsNumbered : (i : ℕ) (rows : List DraftRow) → IsNumbered i (payload_rows i rows)
unfolding payload_rows
payload_rows-IsNumbered i [] = tt
payload_rows-IsNumbered i (row ∷ rows) = (refl, payload_rows-IsNumbered (i + 1) rows)

length-payload_rows : (i : ℕ) (rows : List DraftRow) → length (payload_rows i rows) ≡ length rows
unfolding payload_rows
length-payload_rows i [] = refl
length-payload_rows i (row ∷ rows) = ap suc (length-payload_rows (i + 1) rows)

length-filter_by :
    (p : DraftRow → Bool) (rows : List DraftRow) → length (filter_by p rows) ≤ length rows
length-filter_by p [] = omega arith
length-filter_by p (row ∷ rows) =
    let l = length-filter_by p rows in
    either (λ rs. length rs ≤ suc (length rows)) (p row) (omega (arith, l)) (omega (arith, l))

module _ (b : Browser) where
  input_of-IsComplete :
      (i : ℕ) (row : DraftRow) → row_is_valid b row ≡ true → IsComplete b (input_of i row)
  unfolding row_is_valid
  input_of-IsComplete i row h = ground arith

  payload_rows-IsComplete :
      (i : ℕ) (rows : List DraftRow)
      → all (row_is_valid b) rows ≡ true
      → All (IsComplete b) (payload_rows i rows)
  unfolding payload_rows
  payload_rows-IsComplete i [] h = tt
  payload_rows-IsComplete i (row ∷ rows) h = elim (Bool-cases (row_is_valid b row)) [
    | inl t ↦
        (input_of-IsComplete i row t, payload_rows-IsComplete (i + 1) rows (ground (arith, t, h)))
    | inr f ↦ ground (arith, f, h)
  ]

  begin_with-IsRequest :
      (rows : List DraftRow) (p : Page)
      → length rows ≤ 500
      → all (row_is_valid b) rows ≡ true
      → All (IsRequest b) p.posted
      → All (IsRequest b) (begin_with rows p).posted
  unfolding begin_with
  begin_with-IsRequest [] p l v h = h
  begin_with-IsRequest (row ∷ rows) p l v h = (
    (
      omega (arith, length-payload_rows 0 (row ∷ rows)),
      omega (arith, length-payload_rows 0 (row ∷ rows), l),
      payload_rows-IsNumbered 0 (row ∷ rows),
      payload_rows-IsComplete 0 (row ∷ rows) v,
    ),
    h,
  )

  add_row-posted : (p : Page) → (add_row b p).posted ≡ p.posted
  unfolding add_row
  add_row-posted p =
      either_of {A = Page} (λ q. q.posted ≡ p.posted) (leb 500 (length p.rows)) refl refl

  end_with-posted :
      (answer : Outcome Response) (o : Option (List DraftRow)) (p : Page)
      → (end_with answer o p).posted ≡ p.posted
  unfolding settle
  end_with-posted answer none p = refl
  end_with-posted (fulfilled resp) (some sent) p = refl
  end_with-posted (failed e) (some sent) p = refl

  submit-IsRequest :
      (p : Page)
      → length p.rows ≤ 500
      → All (IsRequest b) p.posted
      → All (IsRequest b) (act b submitted p).posted
  unfolding act begin_submit submit_enabled populated_rows
  submit-IsRequest p l h = elim (Bool-cases (submit_enabled b p)) [
    | inl t ↦ rw t (
        begin_with-IsRequest (populated_rows p.rows) p
          (omega (arith, l, length-filter_by (λ row. not (row_is_blank row)) p.rows))
          (and_split _ _ (and_split (not p.submitting) _ t).1).1 h)
    | inr f ↦ rw f h
  ]

  act-IsRequest :
      (a : Action) (p : Page)
      → length p.rows ≤ 500
      → All (IsRequest b) p.posted
      → All (IsRequest b) (act b a p).posted
  unfolding act handle_row_key_down remove_row end_submit reset_form
  act-IsRequest (updated idx patch) p l h = h
  act-IsRequest (picked idx d c) p l h = h
  act-IsRequest added p l h = rw (add_row-posted p) h
  act-IsRequest submitted p l h = submit-IsRequest p l h
  act-IsRequest restarted p l h =
      either_of {A = Page} (λ q. All (IsRequest b) q.posted) (is_some p.summary) h h
  act-IsRequest (removed idx) p l h =
      either_of {A = Page} (λ q. All (IsRequest b) q.posted) (leb (length p.rows) 1) h h
  act-IsRequest (pressed is_enter is_last_cell idx) p l h =
      either_of {A = Page} (λ q. All (IsRequest b) q.posted)
        (is_enter && (is_last_cell && suc idx == length p.rows)) (rw (add_row-posted p) h) h
  act-IsRequest (answered answer) p l h = rw (end_with-posted answer p.in_flight p) h

  run-IsRequest :
      IsUnique b
      → (actions : List Action) (p : Page) → IsSound b p
      → All (IsRequest b) p.posted
      → All (IsRequest b) (run b actions p).posted
  unfolding run
  run-IsRequest u [] p s h = h
  run-IsRequest u (a ∷ actions) p s h =
      run-IsRequest u actions (act b a p) (act-IsSound b u a p s) (act-IsRequest a p s.1 h)

-- Where the identifiers that the browser makes are different, every request of every run has 1 to
-- 500 rows, which are numbered in order from 1 on and whose cells are all filled, the description
-- after it was trimmed, with an amount above zero.
pub posted-IsRequest :
    (b : Browser) (u : IsUnique b) (actions : List Action)
    → All (IsRequest b) (run b actions (start b)).posted
unfolding start
posted-IsRequest b u actions = run-IsRequest b u actions (start b) (start-IsSound b u) tt
