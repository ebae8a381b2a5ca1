-- ===== src/Transactions/FormTests.antt =====
-- The two forms of the transactions page at concrete inputs (frontend/app/transactions/page.tsx).
use pfv.Common.{
  All, length, ◌+◌, ◌≡◌, refl, true, false, none, some, [], ◌∷◌, if◌then◌else◌, sum_by,
}
use pfv.Common.Text.{Text, codes, text_ltb, trim}
use pfv.Api.Errors.{api_timeout_error}
use pfv.Auth.Provider.{fulfilled, failed}
use pfv.Transactions.Rows.{expense, settled, Transaction, find_transaction}
use pfv.Transactions.Listing.{Listing}
use pfv.Transactions.Adding.{transaction, Form, Page, Replies, handle_add}
use pfv.Transactions.Adding.Submits.{
  creates, is_blocked, handle_add-creates, handle_add-creates_twice,
}
use pfv.Transactions.Editing.{Edit, EditPage, SaveReplies, refusal, handle_save_edit}
use pfv.Transactions.Editing.Saves.{IsAllowed, handle_save_edit-IsAllowed}

abbrev pub rent : Transaction
rent = record {
  id = 3;
  account_id = 1;
  account_name = [];
  category_id = 1;
  category_name = [];
  description = codes "Rent";
  amount = codes "12.50";
  type = expense;
  status = settled;
  linked_transaction_id = none;
  recurring_id = none;
  date = codes "2025-01-10";
  settled_date = none;
  is_manual_adjustment = false;
  tags = [];
}

abbrev pub listing : Listing
listing = record { transactions = rent ∷ []; has_more = false; fetching = false }

abbrev today : Text
today = codes "2025-01-15"

-- A new rent that is to recur.
abbrev pub form : Form
form = record {
  form_mode = transaction;
  form_account_id = some 1;
  form_to_account_id = none;
  form_transfer_cat_id = none;
  form_category_id = some 1;
  form_description = codes "Rent";
  form_amount = codes "12.50";
  form_type = expense;
  form_status = settled;
  form_date = codes "2025-01-10";
  form_settled_date = [];
  form_tags = codes "home" ∷ [];
  form_recurring = true;
  form_frequency = codes "monthly";
  form_auto_settle = false;
}

abbrev page : Page
page = record { form = form; show_form = true; error = []; listing = listing }

abbrev replies : Replies
replies = record {
  transferred = fulfilled tt;
  created = fulfilled (some 4);
  tagged = failed api_timeout_error;
  promoted = fulfilled tt;
  list = fulfilled [];
}

abbrev unpromoted : Replies
unpromoted = record replies { promoted = failed api_timeout_error }

handle_add-creates_example :
    sum_by creates (handle_add today replies page).1 ≡ (if is_blocked page.form then 0 else 1)
handle_add-creates_example = handle_add-creates today replies page

handle_add-creates_twice_example :
    let (next, sent) = handle_add today unpromoted page in
    (next.form ≡ page.form)
    × (next.show_form ≡ page.show_form)
    × (sum_by creates sent + sum_by creates (handle_add today replies next).1 ≡ 2)
handle_add-creates_twice_example =
    handle_add-creates_twice today unpromoted replies page 3 api_timeout_error refl refl refl refl
      refl

abbrev edit : Edit
edit = record {
  editing_id = some 3;
  edit_desc = codes "Rent";
  edit_amount = codes "13.00";
  edit_type = expense;
  edit_status = settled;
  edit_date = codes "2025-01-10";
  edit_settled_date = [];
  edit_account_id = some 1;
  edit_category_id = some 1;
  edit_tags = [];
  edit_promote_recurring = true;
  edit_rec_frequency = codes "monthly";
  edit_rec_next_due = codes "2025-02-10";
  edit_partner = none;
}

abbrev pub edit_page : EditPage
edit_page = record { edit = edit; error = []; listing = listing }

abbrev pub save_replies : SaveReplies
save_replies = record {
  saved = fulfilled tt;
  tagged = fulfilled tt;
  promoted = fulfilled (some 5);
  list = failed api_timeout_error;
}

-- The row is saved and promoted, and the list is loaded again.
saved_and_promoted : length (handle_save_edit today save_replies edit_page).1 ≡ 4
unfolding handle_save_edit refusal text_ltb trim find_transaction
saved_and_promoted = refl

handle_save_edit-IsAllowed_example :
    All (IsAllowed today 3 edit_page) (handle_save_edit today save_replies edit_page).1
handle_save_edit-IsAllowed_example = handle_save_edit-IsAllowed today save_replies edit_page 3 refl
