-- ===== src/Transactions/Acting.antt =====
-- What the buttons of frontend/app/transactions/page.tsx do to rows that exist: deleting one or all
-- that are selected, changing a status and opening the dialog that unpairs a transfer; and the choice
-- of an account in the form for a new one. Answers are arguments, requests results.
pub mod Deletes
pub mod Accounts
use pfv.Common.{
  ℕ, Bool, true, false, ◌&&◌, not, Option, none, some, List, [], ◌∷◌, ◌++◌, if◌then◌else◌, ◌==◌,
  length, is_some,
}
use pfv.Common.Text.{Text, codes, text_eq}
use pfv.Api.Errors.{Thrown}
use pfv.Auth.Provider.{Outcome, fulfilled, failed}
use pfv.Transactions.Rows.{
  Transaction, Account, Status, settled, pending, is_expense, find_transaction, find_account,
}
use pfv.Transactions.Selection.{Ids, clear_selection}
use pfv.Transactions.Listing.{Listing, loaded}
use pfv.Transactions.Adding.{Form, message_of}

pub record View : Type 0 where
  pub listing : Listing
  pub selected_ids : Ids
  pub confirm_delete_id : Option ℕ
  pub confirm_bulk_delete : Bool
  pub bulk_deleting : Bool
  pub unpair_modal_legs : Option (Transaction × Transaction)
  pub error : Text

pub record BulkResult : Type 0 where
  pub requested_count : ℕ
  pub deleted_count : ℕ
  pub skipped_ids : Ids

pub data ViewRequest : Type 0 where
  delete_one get_one : (id : ℕ) → ViewRequest
  bulk_delete : (ids : Ids) → ViewRequest
  put_status : (id : ℕ) → (status : Status) → ViewRequest
  get_list : ViewRequest

abbrev pub with_error : Text → View → View
with_error message v = record v { error = message }

abbrev pub after_load : Outcome (List Transaction) → View → View
after_load (fulfilled rows) v = record v { listing = loaded rows v.listing }
after_load (failed e) v = with_error (message_of e) v

-- A request for one row, and the reload that follows where it succeeds.
abbrev pub and_reload :
    ViewRequest → Outcome (Unit {0}) → Outcome (List Transaction) → View → View × List ViewRequest
and_reload request (failed e) list v = (with_error (message_of e) v, request ∷ [])
and_reload request (fulfilled done) list v = (after_load list v, request ∷ get_list ∷ [])

unfoldable pub handle_delete :
    ℕ → Outcome (Unit {0}) → Outcome (List Transaction) → View → View × List ViewRequest
handle_delete id deleted list v =
    and_reload (delete_one id) deleted list (record v { confirm_delete_id = none; error = [] })

abbrev pub other_status : Status → Status
other_status settled = pending
other_status pending = settled

unfoldable pub handle_toggle_status :
    Transaction → Outcome (Unit {0}) → Outcome (List Transaction) → View → View × List ViewRequest
handle_toggle_status t saved list v =
    and_reload (put_status t.id (other_status t.status)) saved list (with_error [] v)

abbrev pub were : ℕ → Text
were n = if n == 1 then codes "was" else codes "were"

abbrev pub skipped_message : (ℕ → Text) → BulkResult → Text
skipped_message decimal r =
    codes "Deleted "
    ++ (decimal r.deleted_count
        ++ (codes " of "
            ++ (decimal r.requested_count
                ++ (codes " transactions. "
                    ++ (decimal (length r.skipped_ids)
                        ++ (codes " "
                            ++ (were (length r.skipped_ids) ++ codes " already gone.")))))))

abbrev pub report_skipped : (ℕ → Text) → BulkResult → Ids → View → View
report_skipped decimal r [] v = v
report_skipped decimal r (id ∷ ids) v = with_error (skipped_message decimal r) v

-- What follows the clearing of the selection: a failed reload hides the report.
abbrev pub after_deletes : (ℕ → Text) → BulkResult → Outcome (List Transaction) → View → View
after_deletes decimal r (failed e) v = with_error (message_of e) v
after_deletes decimal r (fulfilled rows) v =
    report_skipped decimal r r.skipped_ids (record v { listing = loaded rows v.listing })

abbrev pub end_bulk : View → View
end_bulk v = record v { bulk_deleting = false }

abbrev pub after_bulk :
    (ℕ → Text) → Outcome BulkResult → Outcome (List Transaction) → View → View × List ViewRequest
after_bulk decimal (failed e) list v =
    (end_bulk (with_error (message_of e) v), bulk_delete v.selected_ids ∷ [])
after_bulk decimal (fulfilled r) list v = (
  end_bulk (after_deletes decimal r list (record v { selected_ids = clear_selection })),
  bulk_delete v.selected_ids ∷ get_list ∷ [],
)

unfoldable pub handle_bulk_delete :
    (ℕ → Text) → Outcome BulkResult → Outcome (List Transaction) → View → View × List ViewRequest
handle_bulk_delete decimal deleted list v =
    after_bulk decimal deleted list
      (record v { confirm_bulk_delete = false; error = []; bulk_deleting = true })

-- The legs of the dialog, as (expense, income).
abbrev pub legs_of : Transaction → Transaction → Transaction × Transaction
legs_of tx partner =
    (if is_expense tx.type then tx else partner, if is_expense tx.type then partner else tx)

abbrev pub open_legs : Transaction → Option Transaction → View → View
open_legs tx none v = v
open_legs tx (some partner) v = record v { unpair_modal_legs = some (legs_of tx partner) }

abbrev pub after_fetch : Transaction → Outcome (Option Transaction) → View → View
after_fetch tx (fulfilled partner) v = open_legs tx partner v
after_fetch tx (failed e) v = with_error (message_of e) v

abbrev pub open_with :
    Transaction → Option ℕ → Outcome (Option Transaction) → View → View × List ViewRequest
open_with tx none fetched v = (v, [])
open_with tx (some linked) fetched v =
    if linked == 0 then (v, []) else elim (find_transaction linked v.listing.transactions) [
      | some partner ↦ (open_legs tx (some partner) v, [])
      | none ↦ (after_fetch tx fetched v, get_one linked ∷ [])
    ]

unfoldable pub open_unpair_modal :
    Transaction → Outcome (Option Transaction) → View → View × List ViewRequest
unfolding find_transaction
open_unpair_modal tx fetched v = open_with tx tx.linked_transaction_id fetched v

abbrev pub is_slug : Text → Option Text → Bool
is_slug slug none = false
is_slug slug (some s) = text_eq s slug

-- `acct?.account_type_slug === "credit_card"`
abbrev pub is_credit_card : Option Account → Bool
is_credit_card none = false
is_credit_card (some a) = is_slug (codes "credit_card") a.account_type_slug

abbrev pub same_id : Option ℕ → Option ℕ → Bool
same_id none none = true
same_id (some i) (some j) = i == j
same_id _ _ = false

abbrev pub account_of : Option ℕ → List Account → Option Account
account_of none accounts = none
account_of (some id) accounts = find_account id accounts

unfoldable pub handle_account_change : List Account → Option ℕ → Form → Form
unfolding text_eq find_account
handle_account_change accounts id f = record f {
  form_account_id = id;
  form_to_account_id = if same_id f.form_to_account_id id then none else f.form_to_account_id;
  form_status = if is_credit_card (account_of id accounts) then pending else settled;
}

-- `activeAccounts.find((a) => a.is_default)`
unfoldable pub default_account : List Account → Option Account
default_account [] = none
default_account (a ∷ accounts) =
    let rest = default_account accounts in if a.is_active && a.is_default then some a else rest

abbrev pub preselect_account : Option Account → Form → Form
preselect_account none f = f
preselect_account (some a) f = record f {
  form_account_id = some a.id;
  form_status = if is_credit_card (some a) then pending else f.form_status;
}

-- The effect of an open form without an account.
unfoldable pub preselect : List Account → (show_form : Bool) → Form → Form
unfolding text_eq default_account
preselect accounts show_form f =
    if show_form && not (is_some f.form_account_id)
    then preselect_account (default_account accounts) f
    else f
