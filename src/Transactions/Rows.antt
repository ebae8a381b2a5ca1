-- ===== src/Transactions/Rows.antt =====
-- The rows of the transactions page and the accounts that they name, as frontend/lib/types.ts has
-- them, with the fields that the page reads.
use pfv.Common.{ℕ, Bool, true, false, Option, none, some, List, [], ◌∷◌, if◌then◌else◌, ◌==◌}
use pfv.Common.Text.{Text}

pub data TransactionType : Type 0 where
  income expense : TransactionType

pub data Status : Type 0 where
  settled pending : Status

-- The amount is the decimal text that the backend sends.
pub record Transaction : Type 0 where
  pub id : ℕ
  pub account_id : ℕ
  pub account_name : Text
  pub category_id : ℕ
  pub category_name : Text
  pub description : Text
  pub amount : Text
  pub type : TransactionType
  pub status : Status
  pub linked_transaction_id : Option ℕ
  pub recurring_id : Option ℕ
  pub date : Text
  pub settled_date : Option Text
  pub is_manual_adjustment : Bool
  pub tags : List Text

pub record Account : Type 0 where
  pub id : ℕ
  pub account_type_slug : Option Text
  pub currency : Text
  pub is_active : Bool
  pub is_default : Bool

abbrev pub is_expense : TransactionType → Bool
is_expense expense = true
is_expense income = false

abbrev pub same_type : TransactionType → TransactionType → Bool
same_type income income = true
same_type expense expense = true
same_type _ _ = false

abbrev pub is_pending : Status → Bool
is_pending pending = true
is_pending settled = false

-- `transactions.find((t) => t.id === id)`
unfoldable pub find_transaction : ℕ → List Transaction → Option Transaction
find_transaction id [] = none
find_transaction id (t ∷ ts) =
    let rest = find_transaction id ts in if t.id == id then some t else rest

-- `accounts.find((a) => a.id === id)`
unfoldable pub find_account : ℕ → List Account → Option Account
find_account id [] = none
find_account id (a ∷ accounts) =
    let rest = find_account id accounts in if a.id == id then some a else rest
