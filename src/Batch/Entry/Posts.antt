-- ===== src/Batch/Entry/Posts.antt =====
-- What batch entry posts, and what it posts again (frontend/app/transactions/batch/page.tsx).
use pfv.Common.{
  ℕ, and_split, not_split, ◌+◌, ◌≡◌, ◌∙◌, refl, ap, sym, arith, Bool, true, false, Option, none,
  some, List, [], ◌∷◌, map, ◌==◌, length, either_of, not, all, ◌&&◌,
}
use pfv.Common.Text.{Text}
use pfv.Auth.Provider.{fulfilled}
use pfv.Batch.Entry.{
  DraftRow, Browser, Response, Page, idle, input_of, populated_rows, row_is_blank, row_is_valid,
  submit_enabled, is_zero,
}
use pfv.Batch.Entry.Submits.{
  marked, failed_row, error_of, splat_row, splat, settle, end_submit, payload_rows, begin_submit,
  begin_with,
}
use pfv.Batch.Entry.Runs.{act, answered, submitted}

-- A row without the status that an answer gives it.
abbrev bare : DraftRow → DraftRow
bare row = record row { status = idle; error_message = none }

bare-failed_row : (o : Option Text) (row : DraftRow) → bare (failed_row o row) ≡ bare row
bare-failed_row none row = refl
bare-failed_row (some message) row = refl

bare-marked : (resp : Response) (n : ℕ) (row : DraftRow) → bare (marked resp n row) ≡ bare row
unfolding marked
bare-marked resp n row =
    either_of (λ r. bare r ≡ bare row) _ refl (bare-failed_row (error_of n resp.errors) row)

bare-splat_row :
    (resp : Response) (key n : ℕ) (rows : List DraftRow)
    → map bare (splat_row resp key n rows) ≡ map bare rows
unfolding splat_row
bare-splat_row resp key n [] = refl
bare-splat_row resp key n (row ∷ rows) =
    either_of (λ rs. map bare rs ≡ map bare (row ∷ rows)) (row.key == key)
      (ap (λ r. r ∷ map bare rows) (bare-marked resp n row))
      (ap (λ rs. bare row ∷ rs) (bare-splat_row resp key n rows))

bare-splat :
    (resp : Response) (n : ℕ) (ps rows : List DraftRow)
    → map bare (splat resp n ps rows) ≡ map bare rows
unfolding splat
bare-splat resp n [] rows = refl
bare-splat resp n (p ∷ ps) rows =
    bare-splat resp (n + 1) ps (splat_row resp p.key n rows) ∙ bare-splat_row resp p.key n rows

-- What the button and the request read of the grid.
keep-bare :
    (c : Bool) (row : DraftRow) (xs ys : List DraftRow)
    → xs ≡ map bare ys
    → (elim c [ true ↦ bare row ∷ xs | false ↦ xs ])
      ≡ map bare (elim c [ true ↦ row ∷ ys | false ↦ ys ])
keep-bare true row xs ys e = ap (λ rs. bare row ∷ rs) e
keep-bare false row xs ys e = e

populated_rows-bare :
    (rows : List DraftRow) → populated_rows (map bare rows) ≡ map bare (populated_rows rows)
unfolding populated_rows row_is_blank
populated_rows-bare [] = refl
populated_rows-bare (row ∷ rows) =
    keep-bare (not (row_is_blank row)) row _ (populated_rows rows) (populated_rows-bare rows)

payload_rows-bare :
    (i : ℕ) (rows : List DraftRow) → payload_rows i (map bare rows) ≡ payload_rows i rows
unfolding payload_rows
payload_rows-bare i [] = refl
payload_rows-bare i (row ∷ rows) = ap (λ rs. input_of i row ∷ rs) (payload_rows-bare (i + 1) rows)

all_valid-bare :
    (b : Browser) (rows : List DraftRow)
    → all (row_is_valid b) (map bare rows) ≡ all (row_is_valid b) rows
unfolding row_is_valid
all_valid-bare b [] = refl
all_valid-bare b (row ∷ rows) = ap (λ v. row_is_valid b row && v) (all_valid-bare b rows)

populated_rows-splat :
    (resp : Response) (ps rows : List DraftRow)
    → map bare (populated_rows (splat resp 1 ps rows)) ≡ map bare (populated_rows rows)
populated_rows-splat resp ps rows =
    sym (populated_rows-bare (splat resp 1 ps rows))
    ∙ ap populated_rows (bare-splat resp 1 ps rows)
    ∙ populated_rows-bare rows

-- Rows that differ in their status alone make the same request, and the button takes both or none.
module _ (b : Browser) (ts ss : List DraftRow) (e : map bare ts ≡ map bare ss) where
  payload_rows-alike : payload_rows 0 ts ≡ payload_rows 0 ss
  payload_rows-alike = sym (payload_rows-bare 0 ts) ∙ ap (payload_rows 0) e ∙ payload_rows-bare 0 ss

  all_valid-alike : all (row_is_valid b) ts ≡ all (row_is_valid b) ss
  all_valid-alike = sym (all_valid-bare b ts) ∙ ap (all (row_is_valid b)) e ∙ all_valid-bare b ss

posted-begin_with :
    (ts : List DraftRow) (q : Page)
    → is_zero (length ts) ≡ false
    → (begin_with ts q).posted ≡ payload_rows 0 ts ∷ q.posted
unfolding begin_with
posted-begin_with [] q h = cc
posted-begin_with (t ∷ ts) q h = refl

length-alike :
    (ts ss : List DraftRow) → map bare ts ≡ map bare ss → is_zero (length ts) ≡ is_zero (length ss)
length-alike [] [] e = refl
length-alike [] (s ∷ ss) e = cc
length-alike (t ∷ ts) [] e = cc
length-alike (t ∷ ts) (s ∷ ss) e = ground arith

-- A grid that differs from the rows `ss` in the status alone.
module _ (b : Browser) (q : Page) (ss : List DraftRow) where
  submit_enabled-alike :
      map bare (populated_rows q.rows) ≡ map bare ss
      → q.submitting ≡ false
      → is_zero (length ss) ≡ false
      → all (row_is_valid b) ss ≡ true
      → submit_enabled b q ≡ true
  unfolding submit_enabled
  submit_enabled-alike e f z v =
      rw
        (
          f,
          length-alike (populated_rows q.rows) ss e,
          z,
          all_valid-alike b (populated_rows q.rows) ss e,
        )
        v

  posted-alike :
      map bare (populated_rows q.rows) ≡ map bare ss
      → is_zero (length ss) ≡ false
      → (begin_submit q).posted ≡ payload_rows 0 ss ∷ q.posted
  unfolding begin_submit
  posted-alike e z =
      posted-begin_with (populated_rows q.rows) q (length-alike (populated_rows q.rows) ss e ∙ z)
      ∙ ap (λ r. r ∷ q.posted) (payload_rows-alike b (populated_rows q.rows) ss e)

-- After the request has been answered.
module _ (b : Browser) (resp : Response) where
  abbrev after : List DraftRow → Page → Page
  unfolding end_submit begin_with
  after ss p = end_submit (fulfilled resp) (begin_with ss p)

  rows-after :
      (ss : List DraftRow) (p : Page)
      → is_zero (length ss) ≡ false
      → ((after ss p).rows ≡ splat resp 1 ss p.rows)
        × ((after ss p).submitting ≡ false)
        × ((after ss p).posted ≡ payload_rows 0 ss ∷ p.posted)
  unfolding after end_submit begin_with settle
  rows-after [] p h = cc
  rows-after (s ∷ ss) p h = (refl, refl, refl)

  again-after :
      (p : Page)
      → is_zero (length (populated_rows p.rows)) ≡ false
      → all (row_is_valid b) (populated_rows p.rows) ≡ true
      → let ss = populated_rows p.rows in
        (submit_enabled b (after ss p) ≡ true)
        × ((begin_submit (after ss p)).posted ≡ payload_rows 0 ss ∷ payload_rows 0 ss ∷ p.posted)
  again-after p z v =
      let ss = populated_rows p.rows in
      let (e, f, g) = rows-after ss p z in
      let k = ap (λ rows. map bare (populated_rows rows)) e ∙ populated_rows-splat resp ss p.rows in
      (
        submit_enabled-alike b (after ss p) ss k f z v,
        posted-alike b (after ss p) ss k z ∙ ap (λ r. payload_rows 0 ss ∷ r) g,
      )

-- Where the button takes the grid, it takes it again once the request is answered, whatever the
-- answer says, and the second click posts the same rows: those that the answer has marked as
-- imported are posted twice.
pub act-submitted :
    (b : Browser) (resp : Response) (p : Page)
    → submit_enabled b p ≡ true
    → let request = payload_rows 0 (populated_rows p.rows) in
      let q = act b (answered (fulfilled resp)) (act b submitted p) in
      (submit_enabled b q ≡ true) × ((act b submitted q).posted ≡ request ∷ request ∷ p.posted)
unfolding act submit_enabled begin_submit after
act-submitted b resp p h =
    let (idle_page, rest) = and_split (not p.submitting) _ h in
    let (nonempty, valid) = and_split _ _ rest in
    let (e, f) = again-after b resp p (not_split _ nonempty) valid in rw h (e, rw e f)
