-- ===== src/Transactions/Editing.antt =====
-- startEdit, closeEdit and handleSaveEdit of frontend/app/transactions/page.tsx: a row is put into the
-- edit form and saved by two or three requests, with every way in which one can fail.
pub mod Saves
pub mod Starts
use pfv.Common.{
  ℕ, Bool, true, false, ◌&&◌, not, Option, none, some, List, [], ◌∷◌, ◌++◌, if◌then◌else◌, ◌==◌,
  map, is_some,
}
use pfv.Common.Text.{Text, codes, text_ltb, trim}
use pfv.Api.Errors.{Thrown}
use pfv.Auth.Provider.{Outcome, fulfilled, failed}
use pfv.Transactions.Rows.{
  Transaction, TransactionType, expense, Status, settled, pending, is_pending, find_transaction,
}
use pfv.Transactions.Listing.{Listing, loaded}
use pfv.Transactions.Adding.{message_of, settles_before, bad_settled_date, settled_date_key}

pub record Edit : Type 0 where
  pub editing_id : Option ℕ
  pub edit_desc : Text
  pub edit_amount : Text
  pub edit_type : TransactionType
  pub edit_status : Status
  pub edit_date : Text
  pub edit_settled_date : Text
  pub edit_account_id : Option ℕ
  pub edit_category_id : Option ℕ
  pub edit_tags : List Text
  pub edit_promote_recurring : Bool
  pub edit_rec_frequency : Text
  pub edit_rec_next_due : Text
  pub edit_partner : Option Transaction

pub record EditPage : Type 0 where
  pub edit : Edit
  pub error : Text
  pub listing : Listing

-- `tx.status === "pending" && tx.settled_date ? tx.settled_date : ""`
abbrev pub shown_settled_date : Status → Option Text → Text
shown_settled_date pending (some d) = d
shown_settled_date _ _ = []

-- The other half of a transfer where it is in the list. Where it has to be fetched, the half that was
-- there `before` stays until the answer is there.
abbrev pub partner_now : Option Transaction → List Transaction → Option ℕ → Option Transaction
partner_now before rows none = none
partner_now before rows (some linked) =
    if linked == 0
    then none
    else elim (find_transaction linked rows) [ some partner ↦ some partner | none ↦ before ]

abbrev pub asks_for_partner : List Transaction → Option ℕ → Bool
asks_for_partner rows none = false
asks_for_partner rows (some linked) =
    not (linked == 0) && not (is_some (find_transaction linked rows))

-- startEdit up to its `await`. `to_edit_amount` is toEditAmount of frontend/lib/format.ts, and
-- `next_due` today in thirty days.
unfoldable pub begin_edit : (Text → Text) → (next_due : Text) → Transaction → EditPage → EditPage
unfolding find_transaction
begin_edit to_edit_amount next_due tx p = record p {
  edit = record {
    editing_id = some tx.id;
    edit_desc = tx.description;
    edit_amount = to_edit_amount tx.amount;
    edit_type = tx.type;
    edit_status = tx.status;
    edit_date = tx.date;
    edit_settled_date = shown_settled_date tx.status tx.settled_date;
    edit_account_id = some tx.account_id;
    edit_category_id = some tx.category_id;
    edit_tags = tx.tags;
    edit_promote_recurring = false;
    edit_rec_frequency = codes "monthly";
    edit_rec_next_due = next_due;
    edit_partner = partner_now p.edit.edit_partner p.listing.transactions tx.linked_transaction_id;
  };
}

-- The rest of startEdit, where a partner was asked for: a failed fetch gives none.
unfoldable pub end_edit_start : Bool → Outcome (Option Transaction) → EditPage → EditPage
end_edit_start false answer p = p
end_edit_start true (fulfilled partner) p = record p {
  edit = record p.edit { edit_partner = partner };
}
end_edit_start true (failed e) p = record p { edit = record p.edit { edit_partner = none } }

-- startEdit, where nothing else happens during its fetch.
unfoldable pub start_edit :
    (Text → Text)
    → (next_due : Text) → Outcome (Option Transaction)
    → Transaction
    → EditPage
    → EditPage
unfolding find_transaction
start_edit to_edit_amount next_due answer tx p =
    end_edit_start (asks_for_partner p.listing.transactions tx.linked_transaction_id) answer
      (begin_edit to_edit_amount next_due tx p)

unfoldable pub close_edit : EditPage → EditPage
close_edit p = record p {
  edit = record p.edit {
    editing_id = none;
    edit_partner = none;
    edit_promote_recurring = false;
    edit_tags = [];
  };
}

-- The requests of a save. A key that the body leaves out is `none`; `settled_date` may be sent as null.
pub data SaveRequest : Type 0 where
  put_transaction :
      (id : ℕ)
      → (description amount : Text) → (status : Status) → (date : Text)
      → (account_id category_id : Option ℕ) → (type : Option TransactionType)
      → (settled_date : Option (Option Text)) → SaveRequest
  put_tags : (id : ℕ) → (tag_names : List Text) → SaveRequest
  promote : (id : ℕ) → (frequency next_due_date : Text) → SaveRequest
  get_list : SaveRequest

-- How they come out; a promotion may answer without a recurring id.
pub record SaveReplies : Type 0 where
  pub saved : Outcome (Unit {0})
  pub tagged : Outcome (Unit {0})
  pub promoted : Outcome (Option ℕ)
  pub list : Outcome (List Transaction)

-- `editSettledDate || null`, on a pending row alone
abbrev pub sent_settled_date : Status → Text → Option (Option Text)
sent_settled_date settled d = none
sent_settled_date pending [] = some none
sent_settled_date pending (c ∷ s) = some (some (c ∷ s))

abbrev pub save_request : ℕ → Edit → SaveRequest
save_request id e =
    put_transaction id e.edit_desc e.edit_amount e.edit_status e.edit_date e.edit_account_id
      e.edit_category_id (if is_some e.edit_partner then none else some e.edit_type)
      (sent_settled_date e.edit_status e.edit_settled_date)

-- A row that is neither half of a transfer nor recurring.
abbrev pub is_promotable : Option Transaction → Bool
is_promotable none = false
is_promotable (some t) = not (is_some t.linked_transaction_id) && not (is_some t.recurring_id)

abbrev pub with_error : Text → EditPage → EditPage
with_error message p = record p { error = message }

abbrev pub after_load : Outcome (List Transaction) → EditPage → EditPage
after_load (fulfilled rows) p = record p { listing = loaded rows p.listing }
after_load (failed e) p = with_error (message_of e) p

abbrev pub close_and_load : SaveReplies → List SaveRequest → EditPage → EditPage × List SaveRequest
close_and_load r requests p = (after_load r.list (close_edit p), requests ++ get_list ∷ [])

-- `prev.map((t) => t.id === editingId ? { ...t, recurring_id } : t)`
unfoldable pub set_recurring : ℕ → ℕ → List Transaction → List Transaction
set_recurring id recurring [] = []
set_recurring id recurring (t ∷ ts) =
    (if t.id == id then record t { recurring_id = some recurring } else t)
    ∷ set_recurring id recurring ts

abbrev pub with_recurring : ℕ → Option ℕ → EditPage → EditPage
with_recurring id none p = p
with_recurring id (some recurring) p = record p {
  listing = record p.listing { transactions = set_recurring id recurring p.listing.transactions };
}

abbrev pub promote_failed : Thrown → Text
promote_failed e =
    codes "Transaction updated, but promote-to-recurring failed: "
    ++ (message_of e ++ codes ". The transaction still reflects your edits.")

abbrev pub after_promote :
    ℕ → SaveReplies → Outcome (Option ℕ) → List SaveRequest → EditPage → EditPage × List SaveRequest
after_promote id r (failed e) requests p =
    close_and_load r requests (with_error (promote_failed e) p)
after_promote id r (fulfilled recurring) requests p =
    close_and_load r requests (with_recurring id recurring p)

abbrev pub promote_request : ℕ → Edit → SaveRequest
promote_request id e = promote id e.edit_rec_frequency e.edit_rec_next_due

abbrev pub after_tags :
    ℕ
    → SaveReplies
    → (wants_promote : Bool) → Outcome (Unit {0})
    → EditPage
    → EditPage × List SaveRequest
after_tags id r wants (failed e) p =
    (with_error (message_of e) p, save_request id p.edit ∷ put_tags id p.edit.edit_tags ∷ [])
after_tags id r false (fulfilled done) p =
    close_and_load r (save_request id p.edit ∷ put_tags id p.edit.edit_tags ∷ []) p
after_tags id r true (fulfilled done) p =
    after_promote id r r.promoted
      (save_request id p.edit ∷ put_tags id p.edit.edit_tags ∷ promote_request id p.edit ∷ []) p

abbrev pub after_save :
    ℕ → SaveReplies → Bool → Outcome (Unit {0}) → EditPage → EditPage × List SaveRequest
after_save id r wants (failed e) p = (with_error (message_of e) p, save_request id p.edit ∷ [])
after_save id r wants (fulfilled done) p = after_tags id r wants r.tagged p

abbrev pub is_empty : Text → Bool
is_empty [] = true
is_empty (c ∷ s) = false

abbrev pub wants_promote : ℕ → EditPage → Bool
wants_promote id p =
    p.edit.edit_promote_recurring && is_promotable (find_transaction id p.listing.transactions)

-- What stops a save before its first request.
unfoldable pub refusal : Text → ℕ → EditPage → Option Text
unfolding text_ltb trim find_transaction
refusal today id p =
    if is_empty (trim p.edit.edit_desc)
    then some (codes "Description is required")
    else if settles_before p.edit.edit_status p.edit.edit_settled_date p.edit.edit_date
    then some bad_settled_date
    else if wants_promote id p && is_empty p.edit.edit_rec_next_due
    then some (codes "Pick a next due date")
    else if wants_promote id p && text_ltb p.edit.edit_rec_next_due today
    then some (codes "Date must be today or later")
    else none

abbrev pub save : Text → SaveReplies → Option Text → ℕ → EditPage → EditPage × List SaveRequest
save today r (some message) id p = (with_error message p, [])
save today r none id p = after_save id r (wants_promote id p) r.saved (with_error [] p)

abbrev pub save_editing : Text → SaveReplies → Option ℕ → EditPage → EditPage × List SaveRequest
save_editing today r none p = (p, [])
save_editing today r (some id) p = save today r (refusal today id p) id p

unfoldable pub handle_save_edit : Text → SaveReplies → EditPage → EditPage × List SaveRequest
handle_save_edit today r p = save_editing today r p.edit.editing_id p
