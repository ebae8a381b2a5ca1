-- ===== src/Batch/Entry.antt =====
-- The grid of batch entry (frontend/app/transactions/batch/page.tsx): its rows, its handlers, and
-- the request that it posts. A `""` in an account or a category is `none`.
pub mod Submits
pub mod Runs
pub mod Keys
pub mod Limits
pub mod Answers
pub mod Posts
pub mod Requests
use pfv.Common.{
  ℕ, zero, suc, ◌+◌, Bool, true, false, ◌&&◌, ◌||◌, not, Option, none, some, List, [], ◌∷◌, ◌++◌,
  if◌then◌else◌, ◌==◌, leb, length, all, any, filter_by, is_some,
}
use pfv.Common.Text.{Text, codes, trim}
use pfv.Api.Errors.{extract_error_message}
use pfv.Auth.Provider.{Outcome, fulfilled, failed}
use pfv.Transactions.Rows.{TransactionType, expense, Status, settled}

pub data DraftStatus : Type 0 where
  idle ok error : DraftStatus

pub record DraftRow : Type 0 where
  pub key : ℕ
  pub date : Text
  pub description : Text
  pub amount : Text
  pub type : TransactionType
  pub account_id : Option ℕ
  pub category_id : Option ℕ
  pub tx_status : Status
  pub status : DraftStatus
  pub error_message : Option Text

-- What the browser supplies: the identifier that the n-th call of `crypto.randomUUID()` returns,
-- today's date, and whether `Number(amount)` is a finite number above zero.
pub record Browser : Type 0 where
  pub random_uuid : ℕ → ℕ
  pub today : Text
  pub is_positive : Text → Bool

pub record RowInput : Type 0 where
  pub row_number : ℕ
  pub account_id : Option ℕ
  pub category_id : Option ℕ
  pub description : Text
  pub amount : Text
  pub type : TransactionType
  pub date : Text
  pub status : Status

pub record RowResult : Type 0 where
  pub row_number : ℕ
  pub transaction_id : ℕ

pub record RowError : Type 0 where
  pub row_number : ℕ
  pub message : Text

pub record Response : Type 0 where
  pub imported_count : ℕ
  pub error_count : ℕ
  pub results : List RowResult
  pub errors : List RowError

-- The state of the page. `calls` counts the calls of `crypto.randomUUID()`, `in_flight` has the
-- populated rows that the running `handleSubmit` has captured, and `posted` the requests, the last
-- one first.
pub record Page : Type 0 where
  pub rows : List DraftRow
  pub submitting : Bool
  pub top_error : Text
  pub summary : Option (ℕ × ℕ)
  pub calls : ℕ
  pub in_flight : Option (List DraftRow)
  pub posted : List (List RowInput)

abbrev pub default_row_count : ℕ
default_row_count = 5

abbrev pub max_rows : ℕ
max_rows = 500

abbrev pub blank_row : Browser → ℕ → DraftRow
blank_row b calls = record {
  key = b.random_uuid calls;
  date = b.today;
  description = [];
  amount = [];
  type = expense;
  account_id = none;
  category_id = none;
  tx_status = settled;
  status = idle;
  error_message = none;
}

-- `Array.from({ length: n }, blankRow)`
abbrev pub blank_rows : Browser → ℕ → ℕ → List DraftRow
blank_rows b zero calls = []
blank_rows b (suc n) calls = blank_row b calls ∷ blank_rows b n (suc calls)

abbrev pub is_empty : Text → Bool
is_empty [] = true
is_empty (_ ∷ _) = false

unfoldable pub row_is_blank : DraftRow → Bool
unfolding trim
row_is_blank row =
    is_empty (trim row.description)
    && (is_empty (trim row.amount)
        && (not (is_some row.account_id) && not (is_some row.category_id)))

unfoldable pub row_is_valid : Browser → DraftRow → Bool
unfolding trim
row_is_valid b row =
    not (is_empty row.date)
    && (not (is_empty (trim row.description))
        && (not (is_empty (trim row.amount))
            && (b.is_positive row.amount && (is_some row.account_id && is_some row.category_id))))

unfoldable pub populated_rows : List DraftRow → List DraftRow
unfolding row_is_blank
populated_rows rows = filter_by (λ row. not (row_is_blank row)) rows

abbrev pub is_zero : ℕ → Bool
is_zero n = n == 0

unfoldable pub submit_enabled : Browser → Page → Bool
unfolding populated_rows row_is_valid
submit_enabled b p =
    not p.submitting
    && (not (is_zero (length (populated_rows p.rows)))
        && all (row_is_valid b) (populated_rows p.rows))

-- The patches that the cells of a row pass to `updateRow`.
pub data Patch : Type 0 where
  set_date set_description set_amount : Text → Patch
  pick_suggestion : (description : Text) (category_id : ℕ) → Patch
  set_type : TransactionType → Patch
  set_account set_category : Option ℕ → Patch
  set_tx_status : Status → Patch

abbrev pub patched : Patch → DraftRow → DraftRow
patched (set_date d) row = record row { date = d }
patched (set_description d) row = record row { description = d }
patched (set_amount a) row = record row { amount = a }
patched (pick_suggestion d c) row = record row { description = d; category_id = some c }
patched (set_type t) row = record row { type = t; category_id = none }
patched (set_account a) row = record row { account_id = a }
patched (set_category c) row = record row { category_id = c }
patched (set_tx_status s) row = record row { tx_status = s }

-- `{ ...next[idx], ...patch, status: "idle", errorMessage: undefined }`
unfoldable pub update_row : ℕ → Patch → List DraftRow → List DraftRow
update_row idx patch [] = []
update_row zero patch (row ∷ rows) =
    (record (patched patch row) { status = idle; error_message = none }) ∷ rows
update_row (suc idx) patch (row ∷ rows) = row ∷ update_row idx patch rows

-- `onPick`: a category that the user has chosen is kept, and the row with it.
unfoldable pub pick : ℕ → Text → ℕ → List DraftRow → List DraftRow
pick idx description category_id [] = []
pick zero description category_id (row ∷ rows) =
    if is_some row.category_id
    then row ∷ rows
    else update_row 0 (pick_suggestion description category_id) (row ∷ rows)
pick (suc idx) description category_id (row ∷ rows) = row ∷ pick idx description category_id rows

-- `prev.filter((_, i) => i !== idx)`
unfoldable pub without : ℕ → List DraftRow → List DraftRow
without idx [] = []
without zero (row ∷ rows) = rows
without (suc idx) (row ∷ rows) = row ∷ without idx rows

unfoldable pub add_row : Browser → Page → Page
add_row b p =
    if leb max_rows (length p.rows)
    then p
    else record p { rows = p.rows ++ blank_row b p.calls ∷ []; calls = suc p.calls }

unfoldable pub remove_row : ℕ → Page → Page
unfolding without
remove_row idx p = if leb (length p.rows) 1 then p else record p { rows = without idx p.rows }

-- Enter in the last cell of the last row.
unfoldable pub handle_row_key_down : Browser → (is_enter is_last_cell : Bool) → ℕ → Page → Page
unfolding add_row
handle_row_key_down b is_enter is_last_cell idx p =
    if is_enter && (is_last_cell && suc idx == length p.rows) then add_row b p else p

abbrev pub input_of : ℕ → DraftRow → RowInput
unfolding trim
input_of i row = record {
  row_number = i + 1;
  account_id = row.account_id;
  category_id = row.category_id;
  description = trim row.description;
  amount = row.amount;
  type = row.type;
  date = row.date;
  status = row.tx_status;
}
