-- ===== src/Transactions/Acting/Deletes.antt =====
-- What a bulk delete and the dialog of a transfer leave (frontend/app/transactions/page.tsx).
use pfv.Common.{ℕ, ◌≡◌, refl, ap, arith, true, false, List, [], ◌∷◌, if◌then◌else◌, ◌==◌, length}
use pfv.Common.Text.{Text}
use pfv.Auth.Provider.{Outcome, fulfilled, failed}
use pfv.Transactions.Rows.{Transaction}
use pfv.Transactions.Listing.{Listing, loaded}
use pfv.Transactions.Selection.{Ids}
use pfv.Transactions.Adding.{message_of}
use pfv.Transactions.Acting.{
  View, BulkResult, ViewRequest, bulk_delete, get_list, skipped_message, report_skipped, end_bulk,
  handle_bulk_delete,
}

-- A selection, a list, a message and the requests that were made.
abbrev pub End : Type 0
End = Ids × Listing × Text × List ViewRequest

abbrev pub end_of : View → List ViewRequest → End
end_of v requests = (v.selected_ids, v.listing, v.error, requests)

-- What a bulk delete leaves.
abbrev pub outcome_of : (ℕ → Text) → Outcome BulkResult → Outcome (List Transaction) → View → End
outcome_of decimal (failed e) list v =
    (v.selected_ids, v.listing, message_of e, bulk_delete v.selected_ids ∷ [])
outcome_of decimal (fulfilled r) (failed e) v =
    ([], v.listing, message_of e, bulk_delete v.selected_ids ∷ get_list ∷ [])
outcome_of decimal (fulfilled r) (fulfilled rows) v = (
  [],
  loaded rows v.listing,
  if length r.skipped_ids == 0 then [] else skipped_message decimal r,
  bulk_delete v.selected_ids ∷ get_list ∷ [],
)

report_skipped_lem :
    (decimal : ℕ → Text) (r : BulkResult) (ids : Ids) (requests : List ViewRequest) (v : View)
    → v.error ≡ []
    → let next = end_bulk (report_skipped decimal r ids v) in
      (end_of next requests
        ≡ end_of
            (record v { error = if length ids == 0 then [] else skipped_message decimal r })
            requests)
      × (next.bulk_deleting ≡ false)
      × (next.confirm_bulk_delete ≡ v.confirm_bulk_delete)
report_skipped_lem decimal r [] requests v e =
    (ap (λ message. end_of (record v { error = message }) requests) e, refl, refl)
report_skipped_lem decimal r (id ∷ ids) requests v e = (ground arith, refl, refl)

-- A bulk delete asks for exactly the selected rows. Where it fails the selection stays, where it
-- succeeds the selection is empty, and rows that were gone already are reported once the list is
-- loaded again; in every case the page is ready for the next one.
pub handle_bulk_delete_lem :
    (decimal : ℕ → Text) (deleted : Outcome BulkResult) (list : Outcome (List Transaction))
    (v : View)
    → let (next, requests) = handle_bulk_delete decimal deleted list v in
      (end_of next requests ≡ outcome_of decimal deleted list v)
      × (next.bulk_deleting ≡ false)
      × (next.confirm_bulk_delete ≡ false)
unfolding handle_bulk_delete
handle_bulk_delete_lem decimal (failed e) list v = (refl, refl, refl)
handle_bulk_delete_lem decimal (fulfilled r) (failed e) v = (refl, refl, refl)
handle_bulk_delete_lem decimal (fulfilled r) (fulfilled rows) v =
    report_skipped_lem decimal r r.skipped_ids (bulk_delete v.selected_ids ∷ get_list ∷ [])
      (record v {
        listing = loaded rows v.listing;
        selected_ids = [];
        confirm_bulk_delete = false;
        error = [];
        bulk_deleting = true;
      })
      refl
