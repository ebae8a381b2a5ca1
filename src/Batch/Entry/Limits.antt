-- ===== src/Batch/Entry/Limits.antt =====
-- What every run of the page of batch entry keeps (frontend/app/transactions/batch/page.tsx): the
-- number of rows is that of a request, and no key is there twice.
use pfv.Common.{
  ℕ, suc, ◌+◌, ◌≤◌, ◌≡◌, ◌∙◌, refl, ap, sym, subst, arith, Option, none, some, List, [], ◌∷◌, ◌++◌,
  ◌==◌, leb, length, length-append, All, All-append, All-imp, either_of, ◌&&◌, Bool-cases, not, inl,
  inr, is_some,
}
use pfv.Auth.Provider.{Outcome, fulfilled, failed}
use pfv.Batch.Entry.{
  DraftRow, Browser, Response, Page, blank_row, blank_rows, row_is_blank, populated_rows,
  update_row, pick, add_row, remove_row, handle_row_key_down, submit_enabled,
}
use pfv.Batch.Entry.Submits.{begin_submit, begin_with, end_with, splat, settle, end_submit}
use pfv.Batch.Entry.Runs.{
  Action, reset_form, start, act, run, updated, picked, added, submitted, restarted, removed,
  pressed, answered,
}
use pfv.Batch.Entry.Keys.{
  Distinct, keys, Issued, IsUnique, sent_keys, IsSound, length-keys, keys-update_row, keys-pick,
  keys-splat, Distinct-append, Issued-fresh, Later, blank_rows-Later, blank_rows-Distinct,
  All-without, Distinct-without, length-without, Distinct-filter_by,
}

module _ (b : Browser) where
  -- A handler that keeps the keys, the number of calls and the captured rows.
  IsSound-keys :
      (p q : Page)
      → keys q.rows ≡ keys p.rows
      → q.calls ≡ p.calls
      → Distinct (sent_keys q.in_flight)
      → IsSound b p
      → IsSound b q
  IsSound-keys p q e c f (low, high, d, i, g) =
      let l = sym (length-keys q.rows) ∙ ap length e ∙ length-keys p.rows in
      (
        omega (arith, l, low),
        omega (arith, l, high),
        subst Distinct (sym e) d,
        subst (λ n. All (Issued b n) (keys q.rows)) (sym c)
            (subst (All (Issued b p.calls)) (sym e) i),
        f,
      )

  keys-append :
      (rows : List DraftRow) (row : DraftRow) → keys (rows ++ row ∷ []) ≡ keys rows ++ row.key ∷ []
  keys-append [] row = refl
  keys-append (r ∷ rows) row = ap (λ ks. r.key ∷ ks) (keys-append rows row)

  add_row-IsSound : IsUnique b → (p : Page) → IsSound b p → IsSound b (add_row b p)
  unfolding add_row
  add_row-IsSound u p (low, high, d, i, g) = elim (Bool-cases (leb 500 (length p.rows))) [
    | inl t ↦ rw t (low, high, d, i, g)
    | inr f ↦
        let e = keys-append p.rows (blank_row b p.calls) in
        rw f (
          omega (arith, length-append p.rows (blank_row b p.calls ∷ [])),
          ground (arith, f, length-append p.rows (blank_row b p.calls ∷ [])),
          subst Distinct (sym e) (
              Distinct-append (keys p.rows) (b.random_uuid p.calls) d
                (Issued-fresh b u p.calls (keys p.rows) i)),
          subst (All (Issued b (suc p.calls))) (sym e) (
              All-append (Issued b (suc p.calls)) (keys p.rows) (b.random_uuid p.calls ∷ [])
                (All-imp (Issued b p.calls) (Issued b (suc p.calls))
                  (λ k (n, l, q). (n, omega (arith, l), q)) (keys p.rows) i)
                ((p.calls, omega arith, refl), tt)),
          g,
        )
  ]

  remove_row-IsSound : (idx : ℕ) (p : Page) → IsSound b p → IsSound b (remove_row idx p)
  unfolding remove_row
  remove_row-IsSound idx p (low, high, d, i, g) = elim (Bool-cases (leb (length p.rows) 1)) [
    | inl t ↦ rw t (low, high, d, i, g)
    | inr f ↦
        let (l, m) = length-without idx p.rows in
        rw f (
          ground (arith, f, m),
          omega (arith, high, l),
          Distinct-without idx p.rows d,
          All-without (Issued b p.calls) idx p.rows i,
          g,
        )
  ]

  begin_with-IsSound :
      (sent : List DraftRow) (p : Page)
      → Distinct (keys sent)
      → IsSound b p
      → IsSound b (begin_with sent p)
  unfolding begin_with
  begin_with-IsSound [] p f h = h
  begin_with-IsSound (row ∷ rows) p f (low, high, d, i, g) = (low, high, d, i, f)

  end_with-IsSound :
      (answer : Outcome Response) (o : Option (List DraftRow)) (p : Page)
      → IsSound b p
      → IsSound b (end_with answer o p)
  unfolding settle splat
  end_with-IsSound answer none p h = h
  end_with-IsSound (failed e) (some sent) p (low, high, d, i, g) = (low, high, d, i, tt)
  end_with-IsSound (fulfilled resp) (some sent) p h =
      IsSound-keys p (settle (fulfilled resp) sent p) (keys-splat resp 1 sent p.rows) refl tt h

  reset_form-IsSound : IsUnique b → (p : Page) → IsSound b p → IsSound b (reset_form b p)
  unfolding reset_form
  reset_form-IsSound u p (low, high, d, i, g) = (
    omega arith,
    omega arith,
    blank_rows-Distinct b u 5 p.calls,
    All-imp (Later b p.calls 5) (Issued b (p.calls + 5)) (λ k (n, m, l, e). (n, l, e))
        (keys (blank_rows b 5 p.calls)) (blank_rows-Later b 5 p.calls),
    g,
  )

  pub start-IsSound : IsUnique b → IsSound b (start b)
  unfolding start
  start-IsSound u = (
    omega arith,
    omega arith,
    blank_rows-Distinct b u 5 0,
    All-imp (Later b 0 5) (Issued b 5) (λ k (n, m, l, e). (n, l, e)) (keys (blank_rows b 5 0))
        (blank_rows-Later b 5 0),
    tt,
  )

  pub act-IsSound : IsUnique b → (a : Action) (p : Page) → IsSound b p → IsSound b (act b a p)
  unfolding act begin_submit end_submit handle_row_key_down
  act-IsSound u (updated idx patch) p h =
      let (low, high, d, i, g) = h in
      IsSound-keys p (record p { rows = update_row idx patch p.rows })
        (keys-update_row idx patch p.rows) refl g h
  act-IsSound u (picked idx d c) p h =
      let (low, high, f, i, g) = h in
      IsSound-keys p (record p { rows = pick idx d c p.rows }) (keys-pick idx d c p.rows) refl g h
  act-IsSound u added p h = add_row-IsSound u p h
  act-IsSound u submitted p h =
      let (low, high, d, i, g) = h in
      either_of (IsSound b) (submit_enabled b p)
        (begin_with-IsSound (populated_rows p.rows) p
          (Distinct-filter_by (λ row. not (row_is_blank row)) p.rows d) h)
        h
  act-IsSound u restarted p h =
      either_of (IsSound b) (is_some p.summary) (reset_form-IsSound u p h) h
  act-IsSound u (removed idx) p h = remove_row-IsSound idx p h
  act-IsSound u (pressed is_enter is_last_cell idx) p h =
      either_of (IsSound b) (is_enter && (is_last_cell && suc idx == length p.rows))
        (add_row-IsSound u p h) h
  act-IsSound u (answered answer) p h = end_with-IsSound answer p.in_flight p h

  pub run-IsSound :
      IsUnique b → (actions : List Action) (p : Page) → IsSound b p → IsSound b (run b actions p)
  unfolding run
  run-IsSound u [] p h = h
  run-IsSound u (a ∷ actions) p h = run-IsSound u actions (act b a p) (act-IsSound u a p h)

-- Where the identifiers that the browser makes are different, every sequence of actions leaves a
-- grid of 1 to 500 rows, whose keys are different, as are those of the rows of a running request.
pub run-start :
    (b : Browser) (u : IsUnique b) (actions : List Action)
    → let p = run b actions (start b) in
      (1 ≤ length p.rows)
      × (length p.rows ≤ 500)
      × Distinct (keys p.rows)
      × Distinct (sent_keys p.in_flight)
run-start b u actions =
    let (low, high, d, i, g) = run-IsSound b u actions (start b) (start-IsSound b u) in
    (low, high, d, g)
