-- ===== src/Categories/Deleting/Loop.antt =====
-- The loop of `handleConfirm` in frontend/components/categories/BatchDeleteModal.tsx, row by row.
use pfv.Common.{
  ℕ, ◌≡◌, ◌∙◌, refl, sym, ap, Bool, true, false, not, Option, none, some, List, [], ◌∷◌, ◌++◌,
  filter_by, is_some,
}
use mathlib.Core.List.{append_assoc, append-nil}
use pfv.Api.Errors.{Thrown}
use pfv.Categories.Rows.{Category, ids_of}
use pfv.Categories.Failures.{FailureRow, build_failure, build_failure-category_id}
use pfv.Categories.Deleting.{
  Targets, Deletion, target_of, Progress, no_progress, target_missing, Server, answered, delete_row,
  delete_rows, failed_ids,
}

abbrev pub reported : Server → Category → Option Thrown → Option FailureRow
reported server sub none = none
reported server sub (some e) = some (build_failure server.runtime server.decimal sub e)

-- The failure of one row: no target, or what the server says of the request.
unfoldable pub verdict : Server → Category → Option ℕ → Option FailureRow
verdict server sub none = some (target_missing sub)
verdict server sub (some t) = reported server sub (server.reply sub.id t)

abbrev pub is_failed : Server → Targets → Category → Bool
unfolding verdict
is_failed server targets sub = is_some (verdict server sub (target_of sub.id targets))

abbrev pub cons_some {ℓ} : {A : Type ℓ} → Option A → List A → List A
cons_some none xs = xs
cons_some (some x) xs = x ∷ xs

abbrev pub request_of : Category → Option ℕ → Option Deletion
request_of sub none = none
request_of sub (some t) = some (sub.id, t)

-- The requests for the rows that have a target, and the failures, both in the order of the rows.
unfoldable pub planned : Targets → List Category → List Deletion
planned targets [] = []
planned targets (sub ∷ rows) =
    cons_some (request_of sub (target_of sub.id targets)) (planned targets rows)

unfoldable pub verdicts : Server → Targets → List Category → List FailureRow
unfolding verdict
verdicts server targets [] = []
verdicts server targets (sub ∷ rows) =
    cons_some (verdict server sub (target_of sub.id targets)) (verdicts server targets rows)

abbrev made : List Deletion → List ℕ → List FailureRow → Progress
made requests succeeded new_failures = record {
  requests = requests;
  succeeded = succeeded;
  new_failures = new_failures;
}

made_eq :
    {a b : List Deletion} {c d : List ℕ} {e f : List FailureRow}
    → a ≡ b
    → c ≡ d
    → e ≡ f
    → made a c e ≡ made b d f
made_eq p q r = cc

module _ (server : Server) (targets : Targets) where
  -- What rows that come to `requests`, `succeeded` and `new_failures` add to what was done.
  abbrev joined : Progress → List Deletion → List ℕ → List FailureRow → Progress
  joined done requests succeeded new_failures =
      made (done.requests ++ requests) (done.succeeded ++ succeeded)
        (done.new_failures ++ new_failures)

  abbrev added_to : Progress → List Category → Progress
  unfolding planned verdicts
  added_to done rows =
      joined done (planned targets rows)
        (ids_of (filter_by (λ sub. not (is_failed server targets sub)) rows))
        (verdicts server targets rows)

  answered-joined :
      (sub : Category) (t : ℕ) (r : Option Thrown) (done : Progress) (ds : List Deletion)
      (subs : List Category) (fs : List FailureRow)
      → joined (answered server sub t r done) ds (ids_of subs) fs
        ≡ joined done
            ((sub.id, t) ∷ ds)
            (ids_of
              (elim (not (is_some (reported server sub r))) [ true ↦ sub ∷ subs | false ↦ subs ]))
            (cons_some (reported server sub r) fs)
  unfolding answered
  answered-joined sub t none done ds subs fs =
      made_eq (append_assoc done.requests ((sub.id, t) ∷ []) ds)
        (append_assoc done.succeeded (sub.id ∷ []) (ids_of subs)) refl
  answered-joined sub t (some e) done ds subs fs =
      made_eq (append_assoc done.requests ((sub.id, t) ∷ []) ds) refl
        (append_assoc done.new_failures (build_failure server.runtime server.decimal sub e ∷ []) fs)

  delete_row-joined :
      (sub : Category) (o : Option ℕ) (done : Progress) (ds : List Deletion) (subs : List Category)
      (fs : List FailureRow)
      → joined (delete_row server sub o done) ds (ids_of subs) fs
        ≡ joined done
            (cons_some (request_of sub o) ds)
            (ids_of
              (elim (not (is_some (verdict server sub o))) [ true ↦ sub ∷ subs | false ↦ subs ]))
            (cons_some (verdict server sub o) fs)
  unfolding verdict delete_row
  delete_row-joined sub none done ds subs fs =
      made_eq refl refl (append_assoc done.new_failures (target_missing sub ∷ []) fs)
  delete_row-joined sub (some t) done ds subs fs =
      answered-joined sub t (server.reply sub.id t) done ds subs fs

  delete_rows-added :
      (rows : List Category) (done : Progress)
      → delete_rows server targets rows done ≡ added_to done rows
  unfolding delete_rows planned verdicts
  delete_rows-added [] done =
      made_eq (sym (append-nil done.requests)) (sym (append-nil done.succeeded))
        (sym (append-nil done.new_failures))
  delete_rows-added (sub ∷ rows) done =
      delete_rows-added rows (delete_row server sub (target_of sub.id targets) done)
      ∙ delete_row-joined sub (target_of sub.id targets) done (planned targets rows)
          (filter_by (λ s. not (is_failed server targets s)) rows) (verdicts server targets rows)

  failed_ids-reported :
      (sub : Category) (r : Option Thrown) (fs : List FailureRow) (rows : List Category)
      → failed_ids fs ≡ ids_of rows
      → failed_ids (cons_some (reported server sub r) fs)
        ≡ ids_of (elim (is_some (reported server sub r)) [ true ↦ sub ∷ rows | false ↦ rows ])
  failed_ids-reported sub none fs rows e = e
  failed_ids-reported sub (some err) fs rows e =
      cc (e, build_failure-category_id server.runtime server.decimal sub err)

  failed_ids-verdict :
      (sub : Category) (o : Option ℕ) (fs : List FailureRow) (rows : List Category)
      → failed_ids fs ≡ ids_of rows
      → failed_ids (cons_some (verdict server sub o) fs)
        ≡ ids_of (elim (is_some (verdict server sub o)) [ true ↦ sub ∷ rows | false ↦ rows ])
  unfolding verdict
  failed_ids-verdict sub none fs rows e = ap (λ ids. sub.id ∷ ids) e
  failed_ids-verdict sub (some t) fs rows e =
      failed_ids-reported sub (server.reply sub.id t) fs rows e

  failed_ids-verdicts :
      (rows : List Category)
      → failed_ids (verdicts server targets rows)
        ≡ ids_of (filter_by (is_failed server targets) rows)
  unfolding verdicts
  failed_ids-verdicts [] = refl
  failed_ids-verdicts (sub ∷ rows) =
      failed_ids-verdict sub (target_of sub.id targets) (verdicts server targets rows)
        (filter_by (is_failed server targets) rows) (failed_ids-verdicts rows)

-- A confirmation asks for one deletion for each row that has a target, in the order of the rows and
-- with that target. The rows without a target and those whose request is refused are the failures,
-- each with its own reason, and the other rows the successes, so that every row is one or the other.
pub delete_rows-verdicts :
    (server : Server) (targets : Targets) (rows : List Category)
    → let done = delete_rows server targets rows no_progress in
      (done.requests ≡ planned targets rows)
      × (done.new_failures ≡ verdicts server targets rows)
      × (failed_ids done.new_failures ≡ ids_of (filter_by (is_failed server targets) rows))
      × (done.succeeded ≡ ids_of (filter_by (λ sub. not (is_failed server targets sub)) rows))
unfolding planned added_to
delete_rows-verdicts server targets rows =
    let e = delete_rows-added server targets rows no_progress in
    (
      ap (λ d. d.requests) e,
      ap (λ d. d.new_failures) e,
      ap (λ d. failed_ids d.new_failures) e ∙ failed_ids-verdicts server targets rows,
      ap (λ d. d.succeeded) e,
    )
