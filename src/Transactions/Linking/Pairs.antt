-- ===== src/Transactions/Linking/Pairs.antt =====
-- Which selections of frontend/app/transactions/page.tsx can be linked as a transfer.
use pfv.Common.{
  ◌≡◌, ◌≢◌, refl, sym, ◌∙◌, arith, true, false, none, some, List, [], ◌∷◌, Option-cases, inl, inr,
  ◌⊎◌, subst,
}
use mathlib.Core.Option.{some-injective}
use pfv.Common.Text.{Text, text_eq, text_eq_iff}
use pfv.Format.Amounts.{normalize_amount, equals_amount}
use pfv.Transactions.Rows.{
  Transaction, TransactionType, income, expense, Account, same_type, find_transaction, find_account,
}
use pfv.Transactions.Linking.{linkable, check_rows, check_found, evaluate_link_selection}

-- An expense and an income that are not linked, of one amount, on two accounts of one currency.
pub record IsPair (accounts : List Account) (e i : Transaction) : Type 0 where
  pub is_expense : e.type ≡ expense
  pub is_income : i.type ≡ income
  pub e_free : e.linked_transaction_id ≡ none
  pub i_free : i.linked_transaction_id ≡ none
  pub same_amount : equals_amount e.amount i.amount ≡ true
  pub apart : e.account_id ≢ i.account_id
  pub account_e : Account
  pub account_i : Account
  pub known_e : find_account e.account_id accounts ≡ some account_e
  pub known_i : find_account i.account_id accounts ≡ some account_i
  pub one_currency : account_e.currency ≡ account_i.currency

equals_amount_comm : (a b : Text) → equals_amount a b ≡ true → equals_amount b a ≡ true
unfolding equals_amount
equals_amount_comm a b h =
    (text_eq_iff (normalize_amount b) (normalize_amount a)).1
      (sym ((text_eq_iff (normalize_amount a) (normalize_amount b)).0 h))

text_eq_of : (s t : Text) → s ≡ t → text_eq s t ≡ true
text_eq_of s t e = (text_eq_iff s t).1 e

check_rows-pair :
    (accounts : List Account) (e i : Transaction)
    → IsPair accounts e i
    → (check_rows accounts e i ≡ linkable e i) × (check_rows accounts i e ≡ linkable i e)
unfolding check_rows
check_rows-pair accounts e i p =
    let there = text_eq_of p.account_e.currency p.account_i.currency p.one_currency in
    let back = text_eq_of p.account_i.currency p.account_e.currency (sym p.one_currency) in
    let amounts = equals_amount_comm e.amount i.amount p.same_amount in
    (
      ground
          (arith, p.is_expense, p.is_income, p.same_amount, p.apart, p.known_e, p.known_i, there),
      ground (arith, p.is_expense, p.is_income, amounts, p.apart, p.known_e, p.known_i, back),
    )

pub check_found-free :
    (accounts : List Account) (a b : Transaction)
    → a.linked_transaction_id ≡ none
    → b.linked_transaction_id ≡ none
    → check_found accounts (some a) (some b) ≡ check_rows accounts a b
check_found-free accounts a b p q = ground (arith, p, q)

legs_of :
    (e i : Transaction)
    → e.type ≡ expense
    → i.type ≡ income
    → (linkable e i ≡ linkable i e)
      × ((linkable e i).enabled ≡ true)
      × ((linkable e i).expense ≡ some e)
      × ((linkable e i).income ≡ some i)
legs_of e i p q = ground (arith, p, q)

-- Where both rows are in the list, an expense and an income that can be paired are offered as a
-- transfer in whichever order they were selected, with the expense as the source and the income as the
-- target.
pub evaluate_link_selection-pair :
    (transactions : List Transaction) (accounts : List Account) (e i : Transaction)
    → find_transaction e.id transactions ≡ some e
    → find_transaction i.id transactions ≡ some i
    → IsPair accounts e i
    → let there = evaluate_link_selection transactions accounts (e.id ∷ i.id ∷ []) in
      let back = evaluate_link_selection transactions accounts (i.id ∷ e.id ∷ []) in
      (there ≡ back) × (there.enabled ≡ true) × (there.expense ≡ some e) × (there.income ≡ some i)
unfolding evaluate_link_selection
evaluate_link_selection-pair transactions accounts e i f g p =
    let (there, back) = check_rows-pair accounts e i p in
    let first = check_found-free accounts e i p.e_free p.i_free ∙ there in
    let second = check_found-free accounts i e p.i_free p.e_free ∙ back in
    rw (f, g, first, second) (legs_of e i p.is_expense p.is_income)

-- The tests that an offered pair has passed.
pub record Passed (accounts : List Account) (a b : Transaction) : Type 0 where
  pub differ : same_type a.type b.type ≡ false
  pub amounts : equals_amount a.amount b.amount ≡ true
  pub apart : a.account_id ≢ b.account_id
  pub account_a : Account
  pub account_b : Account
  pub known_a : find_account a.account_id accounts ≡ some account_a
  pub known_b : find_account b.account_id accounts ≡ some account_b
  pub currencies : account_a.currency ≡ account_b.currency
  pub offered : check_rows accounts a b ≡ linkable a b

pub check_rows-Passed :
    (accounts : List Account) (a b : Transaction)
    → (check_rows accounts a b).enabled ≡ true
    → Passed accounts a b
unfolding check_rows
check_rows-Passed accounts a b h = elim (Option-cases (find_account a.account_id accounts)) [
  | inl unknown ↦ absurd (ground (arith, unknown, h))
  | inr (x, known_x) ↦ elim (Option-cases (find_account b.account_id accounts)) [
    | inl unknown ↦ absurd (ground (arith, unknown, known_x, h))
    | inr (y, known_y) ↦
        let same = text_eq_iff x.currency y.currency in
        record {
          differ = ground (arith, h);
          amounts = ground (arith, h);
          apart = λ e. ground (arith, h, e);
          account_a = x;
          account_b = y;
          known_a = known_x;
          known_b = known_y;
          currencies = same.0 (ground (arith, h, known_x, known_y));
          offered = ground (arith, h, known_x, known_y);
        }
  ]
]

type-cases : (t : TransactionType) → (t ≡ expense) ⊎ (t ≡ income)
type-cases expense = inl refl
type-cases income = inr refl

straight-IsPair :
    (accounts : List Account) (a b : Transaction)
    → a.linked_transaction_id ≡ none
    → b.linked_transaction_id ≡ none
    → a.type ≡ expense
    → Passed accounts a b
    → IsPair accounts a b
straight-IsPair accounts a b p q e t = record {
  is_expense = e;
  is_income = ground (arith, e, t.differ);
  e_free = p;
  i_free = q;
  same_amount = t.amounts;
  apart = t.apart;
  account_e = t.account_a;
  account_i = t.account_b;
  known_e = t.known_a;
  known_i = t.known_b;
  one_currency = t.currencies;
}

crossed-IsPair :
    (accounts : List Account) (a b : Transaction)
    → a.linked_transaction_id ≡ none
    → b.linked_transaction_id ≡ none
    → a.type ≡ income
    → Passed accounts a b
    → IsPair accounts b a
crossed-IsPair accounts a b p q e t = record {
  is_expense = ground (arith, e, t.differ);
  is_income = e;
  e_free = q;
  i_free = p;
  same_amount = equals_amount_comm a.amount b.amount t.amounts;
  apart = λ same. t.apart (sym same);
  account_e = t.account_b;
  account_i = t.account_a;
  known_e = t.known_b;
  known_i = t.known_a;
  one_currency = sym t.currencies;
}

-- The two legs are the two rows, in one order or the other.
abbrev pub AreLegs : Transaction → Transaction → Transaction → Transaction → Type 0
AreLegs a b e i = ((a ≡ e) × (b ≡ i)) ⊎ ((a ≡ i) × (b ≡ e))

pub linkable-AreLegs :
    (a b e i : Transaction)
    → (linkable a b).expense ≡ some e
    → (linkable a b).income ≡ some i
    → AreLegs a b e i
linkable-AreLegs a b e i x y = elim (type-cases a.type) [
  | inl out ↦
      inl (some-injective _ _ (ground (arith, out, x)), some-injective _ _ (ground (arith, out, y)))
  | inr in_ ↦
      inr (some-injective _ _ (ground (arith, in_, y)), some-injective _ _ (ground (arith, in_, x)))
]

pub legs-IsPair :
    (accounts : List Account) (a b e i : Transaction)
    → a.linked_transaction_id ≡ none
    → b.linked_transaction_id ≡ none
    → Passed accounts a b
    → (linkable a b).expense ≡ some e
    → (linkable a b).income ≡ some i
    → IsPair accounts e i
legs-IsPair accounts a b e i p q t x y = elim (type-cases a.type) [
  | inl out ↦
      let a_is_e : a ≡ e = some-injective _ _ (ground (arith, out, x)) in
      let b_is_i : b ≡ i = some-injective _ _ (ground (arith, out, y)) in
      subst (λ u. IsPair accounts u i) a_is_e
        (subst (λ u. IsPair accounts a u) b_is_i (straight-IsPair accounts a b p q out t))
  | inr in_ ↦
      let b_is_e : b ≡ e = some-injective _ _ (ground (arith, in_, x)) in
      let a_is_i : a ≡ i = some-injective _ _ (ground (arith, in_, y)) in
      subst (λ u. IsPair accounts u i) b_is_e
        (subst (λ u. IsPair accounts b u) a_is_i (crossed-IsPair accounts a b p q in_ t))
]
