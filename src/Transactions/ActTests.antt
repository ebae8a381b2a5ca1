-- ===== src/Transactions/ActTests.antt =====
-- The buttons and the opening of the edit form of the transactions page at concrete inputs
-- (frontend/app/transactions/page.tsx).
use pfv.Common.{◌≡◌, refl, true, false, none, some, [], ◌∷◌, if◌then◌else◌}
use pfv.Common.Text.{codes, trim, text_ltb}
use pfv.Auth.Provider.{Outcome, fulfilled}
use pfv.Transactions.Rows.{Transaction, Account, find_transaction}
use pfv.Transactions.Adding.{Form}
use pfv.Transactions.Editing.{
  asks_for_partner, begin_edit, end_edit_start, start_edit, put_transaction, put_tags, get_list,
  save_request, refusal, handle_save_edit,
}
use pfv.Transactions.Editing.Starts.{
  has_partner, kept_settled_date, handle_save_edit-start_edit, save_request-late_partner,
}
use pfv.Transactions.Acting.{View, BulkResult}
use pfv.Transactions.FormTests.{rent, form, edit_page, listing, save_replies}

abbrev view : View
view = record {
  listing = listing;
  selected_ids = 3 ∷ 4 ∷ [];
  confirm_delete_id = none;
  confirm_bulk_delete = true;
  bulk_deleting = false;
  unpair_modal_legs = none;
  error = [];
}

abbrev one_gone : Outcome BulkResult
one_gone = fulfilled (record { requested_count = 2; deleted_count = 1; skipped_ids = 4 ∷ [] })

abbrev checking : Account
checking = record {
  id = 2;
  account_type_slug = none;
  currency = codes "EUR";
  is_active = true;
  is_default = true;
}

abbrev into_checking : Form
into_checking = record form { form_account_id = some 1; form_to_account_id = some 2 }

-- Half of a transfer whose other half is on another page.
abbrev half : Transaction
half = record rent { id = 5; linked_transaction_id = some 6 }

abbrev other_half : Transaction
other_half = record rent { id = 6; linked_transaction_id = some 5 }

handle_save_edit-start_edit_example :
    (handle_save_edit
      (codes "2025-01-15")
      save_replies
      (start_edit (λ s. s) [] (fulfilled (some other_half)) half edit_page)).1
    ≡ put_transaction 5 half.description half.amount half.status half.date
        (some 1)
        (some 1)
        (if has_partner edit_page.listing.transactions (fulfilled (some other_half)) half
          then none
          else some half.type)
        (kept_settled_date half)
      ∷ put_tags 5 half.tags
      ∷ get_list
      ∷ []
unfolding refusal start_edit begin_edit end_edit_start find_transaction trim text_ltb
handle_save_edit-start_edit_example =
    handle_save_edit-start_edit (λ s. s) (codes "2025-01-15") [] (fulfilled (some other_half)) half
      edit_page save_replies refl refl refl

save_request-late_partner_example :
    let opened = begin_edit (λ s. s) [] rent (begin_edit (λ s. s) [] half edit_page) in
    let late =
      end_edit_start
        (asks_for_partner edit_page.listing.transactions half.linked_transaction_id)
        (fulfilled (some other_half))
        opened in
    (late.edit.editing_id ≡ some 3)
    × (opened.edit.edit_partner ≡ none)
    × (late.edit.edit_partner ≡ some other_half)
    × (save_request 3 late.edit
        ≡ put_transaction 3 rent.description rent.amount rent.status rent.date
            (some 1)
            (some 1)
            none
            (kept_settled_date rent))
save_request-late_partner_example =
    save_request-late_partner (λ s. s) [] half rent other_half edit_page
      (unfold find_transaction in refl) refl
