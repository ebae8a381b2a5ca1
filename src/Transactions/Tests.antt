-- ===== src/Transactions/Tests.antt =====
-- The transactions page at concrete inputs (frontend/app/transactions/page.tsx).
use pfv.Common.{
  ℕ, ◌≡◌, refl, arith, true, false, Option, none, some, List, [], ◌∷◌, if◌then◌else◌, ltb, length,
}
use pfv.Common.Int.{ℤ, pos, negsuc}
use pfv.Common.Text.{Text, codes, text_eq}
use pfv.Format.Amounts.{equals_amount}
use pfv.Transactions.Rows.{
  TransactionType, income, expense, settled, Transaction, Account, find_transaction, find_account,
}
use pfv.Transactions.Selection.Pages.{Distinct, is_shown, is_shown-row}
use pfv.Transactions.Linking.{check_rows, evaluate_link_selection}
use pfv.Transactions.Linking.Pairs.{IsPair, evaluate_link_selection-pair}
use pfv.Transactions.Linking.Offers.{AreSelected, evaluate_link_selection-IsPair}
use pfv.Transactions.Listing.{Platform, Listing, date, desc, Sort, negated}

abbrev row : ℕ → ℕ → TransactionType → Option ℕ → Transaction
row id account_id type linked = record {
  id = id;
  account_id = account_id;
  account_name = [];
  category_id = 1;
  category_name = [];
  description = codes "Rent";
  amount = codes "12.50";
  type = type;
  status = settled;
  linked_transaction_id = linked;
  recurring_id = none;
  date = codes "2025-01-10";
  settled_date = none;
  is_manual_adjustment = false;
  tags = [];
}

abbrev account : ℕ → Account
account id = record {
  id = id;
  account_type_slug = none;
  currency = codes "EUR";
  is_active = true;
  is_default = false;
}

-- A transfer between the accounts 1 and 2, and a row of its own.
abbrev rows : List Transaction
rows = row 7 1 expense (some 8) ∷ row 8 2 income (some 7) ∷ row 9 1 expense none ∷ []

rows-Distinct : Distinct rows
rows-Distinct = ground arith

-- A half whose partner is on another page is hidden all the same.
lone_half : is_shown (row 8 2 income (some 7) ∷ []) (row 8 2 income (some 7)) ≡ false
lone_half = is_shown-row (row 8 2 income (some 7) ∷ []) 0 (row 8 2 income (some 7)) (tt, tt) refl

abbrev rent_out : Transaction
rent_out = row 3 1 expense none

abbrev rent_in : Transaction
rent_in = row 4 2 income none

abbrev pair : List Transaction
pair = rent_in ∷ rent_out ∷ []

abbrev both : List Account
both = account 1 ∷ account 2 ∷ []

rent_out-IsPair : IsPair both rent_out rent_in
rent_out-IsPair = record {
  is_expense = refl;
  is_income = refl;
  e_free = refl;
  i_free = refl;
  same_amount = unfold equals_amount in refl;
  apart = ground arith;
  account_e = account 1;
  account_i = account 2;
  known_e = unfold find_account in refl;
  known_i = unfold find_account in refl;
  one_currency = refl;
}

offered_pair :
    let there = evaluate_link_selection pair both (3 ∷ 4 ∷ []) in
    let back = evaluate_link_selection pair both (4 ∷ 3 ∷ []) in
    (there ≡ back)
    × (there.enabled ≡ true)
    × (there.expense ≡ some rent_out)
    × (there.income ≡ some rent_in)
offered_pair =
    evaluate_link_selection-pair pair both rent_out rent_in (unfold find_transaction in refl)
      (unfold find_transaction in refl) rent_out-IsPair

evaluate_link_selection-IsPair_example :
    AreSelected pair (3 ∷ 4 ∷ []) rent_out rent_in × IsPair both rent_out rent_in
evaluate_link_selection-IsPair_example =
    evaluate_link_selection-IsPair pair both (3 ∷ 4 ∷ []) rent_out rent_in offered_pair.1
      offered_pair.2 offered_pair.3

-- A manual balance adjustment is offered as a leg like any other row.
adjustment_offered :
    (evaluate_link_selection
      (record rent_out { is_manual_adjustment = true } ∷ rent_in ∷ [])
      both
      (3 ∷ 4 ∷ [])).enabled
    ≡ true
unfolding evaluate_link_selection check_rows find_transaction find_account equals_amount text_eq
adjustment_offered = refl

abbrev empty_list : Listing
empty_list = record { transactions = []; has_more = false; fetching = true }

-- Texts by their lengths.
abbrev by_length : Text → Text → ℤ
by_length x y =
    if ltb (length x) (length y)
    then negsuc 0
    else if ltb (length y) (length x)
    then pos 1
    else pos 0

abbrev platform : Platform
platform = record {
  decimal = λ n. [];
  encode = λ s. s;
  locale_compare = by_length;
  difference = by_length;
}

by_length_swap : (x y : Text) → by_length y x ≡ negated (by_length x y)
by_length_swap x y = ground arith

abbrev newest_first : Sort
newest_first = record { field = date; dir = desc }
