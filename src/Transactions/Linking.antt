-- ===== src/Transactions/Linking.antt =====
-- evaluateLinkSelection of frontend/app/transactions/page.tsx: whether the two selected rows can be
-- linked as a transfer, and which of them is the expense.
pub mod Pairs
pub mod Offers
use pfv.Common.{
  ℕ, Bool, true, false, ◌&&◌, ◌||◌, not, Option, none, some, List, [], ◌∷◌, if◌then◌else◌, ◌==◌,
  is_some,
}
use pfv.Common.Text.{Text, codes, text_eq}
use pfv.Format.Amounts.{equals_amount}
use pfv.Transactions.Rows.{
  Transaction, Account, is_expense, same_type, find_transaction, find_account,
}

pub record LinkSelection : Type 0 where
  pub visible : Bool
  pub enabled : Bool
  pub reason : Option Text
  pub expense : Option Transaction
  pub income : Option Transaction

abbrev pub no_link : LinkSelection
no_link = record { visible = false; enabled = false; reason = none; expense = none; income = none }

abbrev pub refused : Text → LinkSelection
refused reason = record {
  visible = true;
  enabled = false;
  reason = some reason;
  expense = none;
  income = none;
}

abbrev pub linkable : Transaction → Transaction → LinkSelection
linkable a b = record {
  visible = true;
  enabled = true;
  reason = none;
  expense = some (if is_expense a.type then a else b);
  income = some (if is_expense a.type then b else a);
}

abbrev pub check_currencies :
    Option Account → Option Account → Transaction → Transaction → LinkSelection
check_currencies (some x) (some y) a b =
    if text_eq x.currency y.currency then linkable a b else refused (codes "Different currencies")
check_currencies _ _ a b = refused (codes "Account not found")

-- Two rows that are not linked yet.
unfoldable pub check_rows : List Account → Transaction → Transaction → LinkSelection
check_rows accounts a b =
    if same_type a.type b.type
    then refused (
        if is_expense a.type
        then codes "Both selected rows are expenses"
        else codes "Both selected rows are incomes")
    else if not (equals_amount a.amount b.amount)
    then refused (codes "Amounts differ")
    else if a.account_id == b.account_id
    then refused (codes "Same account")
    else check_currencies (find_account a.account_id accounts) (find_account b.account_id accounts)
        a b

abbrev pub check_found : List Account → Option Transaction → Option Transaction → LinkSelection
check_found accounts (some a) (some b) =
    if is_some a.linked_transaction_id || is_some b.linked_transaction_id
    then no_link
    else check_rows accounts a b
check_found accounts _ _ = no_link

unfoldable pub evaluate_link_selection : List Transaction → List Account → List ℕ → LinkSelection
evaluate_link_selection transactions accounts (i ∷ j ∷ []) =
    check_found accounts (find_transaction i transactions) (find_transaction j transactions)
evaluate_link_selection transactions accounts _ = no_link
