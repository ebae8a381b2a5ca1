-- ===== src/Categories/Deleting/Forgotten.antt =====
-- What is left of a batch delete that failed in part (frontend/components/categories/BatchDeleteModal.tsx
-- and frontend/app/categories/page.tsx).
use pfv.Common.{ℕ, ◌≡◌, ◌∙◌, refl, ap, sym, true, some, List, [], ◌∷◌, filter_by}
use pfv.Api.Errors.{Thrown}
use pfv.Auth.Provider.{fulfilled, failed}
use pfv.Categories.Rows.{Category, has_id, selected_subs}
use pfv.Categories.Failures.{FailureRow}
use pfv.Categories.Deleting.{
  Page, Progress, Server, reset, fresh_modal, run_refresh, settle, settle_with, progress, cleared,
  handle_confirm, failed_ids, refresh_failed,
}

reset-open :
    (q : Page)
    → q.is_open ≡ true
    → ((reset q).is_open ≡ true)
      × ((reset q).modal ≡ fresh_modal (selected_subs q.categories q.selected_ids))
      × ((reset q).selected_ids ≡ q.selected_ids)
unfolding reset
reset-open q o = rw o (refl, refl, refl)

module _ (done : Progress) (p : Page) (f : FailureRow) (fs : List FailureRow) where
  settle-forgets :
      (categories : List Category) (s : ℕ) (ss : List ℕ)
      → p.is_open ≡ true
      → done.new_failures ≡ f ∷ fs
      → done.succeeded ≡ s ∷ ss
      → let next = settle (fulfilled categories) done p in
        (next.is_open ≡ true)
        × (next.modal ≡ fresh_modal (selected_subs categories next.selected_ids))
        × (next.selected_ids ≡ filter_by (λ id. has_id (failed_ids (f ∷ fs)) id) p.selected_ids)
  unfolding settle settle_with run_refresh
  settle-forgets categories s ss o e g =
      rw (e, g)
        (let q : Page = record p {
          categories = categories;
          selected_ids = filter_by (λ id. has_id (failed_ids (f ∷ fs)) id) p.selected_ids;
          modal = record (p.modal) {
            pending_ids = failed_ids (f ∷ fs);
            failures = f ∷ fs;
            refresh_error = [];
            last_failures = some (f ∷ fs);
          };
        } in
          let (a, b, c) = reset-open q o in
          (a, b ∙ ap (λ ids. fresh_modal (selected_subs categories ids)) (sym c), c))

  settle-keeps :
      (err : Thrown) (s : ℕ) (ss : List ℕ)
      → done.new_failures ≡ f ∷ fs
      → done.succeeded ≡ s ∷ ss
      → let next = settle (failed err) done p in
        (next.modal.failures ≡ f ∷ fs) × (next.modal.refresh_error ≡ refresh_failed err)
  unfolding settle settle_with run_refresh
  settle-keeps err s ss e g = rw (e, g) (refl, refl)

-- Where a confirmation deletes some rows and fails on others while the dialog is open: once the page
-- has the new list, the dialog is open with the rows that failed selected and nothing else in it, no
-- reason for any failure and no target, since the new list sets its reset off; where the page cannot
-- load the list, the reasons stay, beside the message of the failed refresh.
pub handle_confirm-forgets :
    (server : Server) (p : Page) (f : FailureRow) (fs : List FailureRow) (s : ℕ) (ss : List ℕ)
    (categories : List Category) (err : Thrown)
    → p.is_open ≡ true
    → (progress server p).new_failures ≡ f ∷ fs
    → (progress server p).succeeded ≡ s ∷ ss
    → let next = (handle_confirm server (fulfilled categories) p).0 in
      let unloaded = (handle_confirm server (failed err) p).0 in
      (next.is_open ≡ true)
      × (next.selected_ids ≡ filter_by (λ id. has_id (failed_ids (f ∷ fs)) id) p.selected_ids)
      × (next.modal ≡ fresh_modal (selected_subs categories next.selected_ids))
      × (unloaded.modal.failures ≡ f ∷ fs)
      × (unloaded.modal.refresh_error ≡ refresh_failed err)
unfolding handle_confirm
handle_confirm-forgets server p f fs s ss categories err o e g =
    let (a, b, c) = settle-forgets (progress server p) (cleared p) f fs categories s ss o e g in
    let (d, h) = settle-keeps (progress server p) (cleared p) f fs err s ss e g in (a, c, b, d, h)
