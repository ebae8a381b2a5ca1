-- ===== src/Batch/Entry/Answers.antt =====
-- What an answer makes of the grid of batch entry (frontend/app/transactions/batch/page.tsx).
use pfv.Common.{
  ℕ, ◌+◌, ◌≡◌, ◌∙◌, refl, ap, sym, subst, arith, false, none, some, List, [], ◌∷◌, map,
  if◌then◌else◌, ◌==◌, All, Bool-cases, ==_iff, inl, inr,
}
use pfv.Auth.Provider.{fulfilled}
use pfv.Batch.Entry.{DraftRow, Browser, Response}
use pfv.Batch.Entry.Submits.{marked, splat_row, splat, settle, end_submit, settle}
use pfv.Batch.Entry.Runs.{Action, start, act, run, answered}
use pfv.Batch.Entry.Keys.{Distinct, keys, IsUnique, sent_keys, key-marked, keys-splat_row}
use pfv.Batch.Entry.Limits.{run-start}

-- What the answer says of the row whose key is that of the n-th captured row, the first counted as
-- `n`; a row that was not captured stays as it is.
unfoldable pub settled : Response → ℕ → List DraftRow → DraftRow → DraftRow
unfolding marked
settled resp n [] row = row
settled resp n (p ∷ ps) row =
    if row.key == p.key then marked resp n row else settled resp (n + 1) ps row

map_id {ℓ} : {A : Type ℓ} (xs : List A) → map (λ x. x) xs ≡ xs
map_id [] = refl
map_id (x ∷ xs) = ap (λ ys. x ∷ ys) (map_id xs)

cons_eq {ℓ} : {A : Type ℓ} {x y : A} {xs ys : List A} → x ≡ y → xs ≡ ys → (x ∷ xs) ≡ (y ∷ ys)
cons_eq e f = cc

module _ (resp : Response) where
  -- A key that no captured row has.
  settled-absent :
      (n : ℕ) (ps : List DraftRow) (row : DraftRow) (k : ℕ)
      → row.key ≡ k
      → All (λ l. (l == k) ≡ false) (keys ps)
      → settled resp n ps row ≡ row
  unfolding settled
  settled-absent n [] row k e h = refl
  settled-absent n (p ∷ ps) row k e (f, h) =
      ground (arith, f, e, settled-absent (n + 1) ps row k e h)

  settled-skip :
      (n : ℕ) (p : DraftRow) (ps rows : List DraftRow)
      → All (λ l. (l == p.key) ≡ false) (keys rows)
      → map (settled resp (n + 1) ps) rows ≡ map (settled resp n (p ∷ ps)) rows
  unfolding settled
  settled-skip n p ps [] h = refl
  settled-skip n p ps (row ∷ rows) (f, h) =
      rw f (ap (λ rs. settled resp (n + 1) ps row ∷ rs) (settled-skip n p ps rows h))

  settled-splat_row :
      (n : ℕ) (p : DraftRow) (ps rows : List DraftRow)
      → All (λ l. (l == p.key) ≡ false) (keys ps)
      → Distinct (keys rows)
      → map (settled resp (n + 1) ps) (splat_row resp p.key n rows)
        ≡ map (settled resp n (p ∷ ps)) rows
  unfolding settled splat_row
  settled-splat_row n p ps [] f d = refl
  settled-splat_row n p ps (row ∷ rows) f (g, d) = elim (Bool-cases (row.key == p.key)) [
    | inl t ↦
        let k = (==_iff row.key p.key).0 t in
        rw t (
          cons_eq
            (settled-absent (n + 1) ps (marked resp n row) p.key (key-marked resp n row ∙ k) f)
            (settled-skip n p ps rows (subst (λ j. All (λ l. (l == j) ≡ false) (keys rows)) k g)))
    | inr e ↦ rw e (ap (λ rs. settled resp (n + 1) ps row ∷ rs) (settled-splat_row n p ps rows f d))
  ]

  splat-settled :
      (n : ℕ) (ps rows : List DraftRow)
      → Distinct (keys ps)
      → Distinct (keys rows)
      → splat resp n ps rows ≡ map (settled resp n ps) rows
  unfolding splat settled
  splat-settled n [] rows d e = sym (map_id rows)
  splat-settled n (p ∷ ps) rows (f, d) e =
      splat-settled (n + 1) ps (splat_row resp p.key n rows) d
        (subst Distinct (sym (keys-splat_row resp p.key n rows)) e)
      ∙ settled-splat_row n p ps rows f e

-- Whatever was done before an answer arrives, where the identifiers that the browser makes are
-- different and a request for the rows `sent` is running: the answer marks each row that the
-- request has, by the number that it has there, imported where the results have that number, and
-- failed with the message of the errors where only they have it; and it leaves every other row
-- alone, one that was added since among them. A row that was removed or moved up since changes
-- nothing in this, and the page is ready for another submit.
pub end_submit-settled :
    (b : Browser) (u : IsUnique b) (actions : List Action) (resp : Response) (sent : List DraftRow)
    → (run b actions (start b)).in_flight ≡ some sent
    → let p = run b actions (start b) in
      let q = act b (answered (fulfilled resp)) p in
      (q.rows ≡ map (settled resp 1 sent) p.rows) × (q.submitting ≡ false) × (q.in_flight ≡ none)
unfolding act end_submit settle
end_submit-settled b u actions resp sent e =
    let p = run b actions (start b) in
    let (low, high, d, f) = run-start b u actions in
    rw e (splat-settled resp 1 sent p.rows (subst (λ o. Distinct (sent_keys o)) e f) d, refl, refl)
