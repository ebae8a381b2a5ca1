-- ===== src/Transactions/Linking/Offers.antt =====
-- That a link is offered for nothing else (frontend/app/transactions/page.tsx).
use pfv.Common.{
  ℕ, ◌≡◌, ◌⊎◌, refl, sym, ap, subst, ◌∙◌, arith, true, Option, none, some, List, [], ◌∷◌,
  Option-cases, inl, inr,
}
use pfv.Transactions.Rows.{Transaction, Account, find_transaction}
use pfv.Transactions.Linking.{LinkSelection, check_rows, check_found, evaluate_link_selection}
use pfv.Transactions.Linking.Pairs.{
  IsPair, AreLegs, linkable-AreLegs, check_rows-Passed, check_found-free, legs-IsPair,
}

-- The link that two rows are offered.
abbrev Offers : LinkSelection → Transaction → Transaction → Type 0
Offers link e i = (link.enabled ≡ true) × (link.expense ≡ some e) × (link.income ≡ some i)

rows-IsPair :
    (accounts : List Account) (a b e i : Transaction)
    → a.linked_transaction_id ≡ none
    → b.linked_transaction_id ≡ none
    → Offers (check_rows accounts a b) e i
    → IsPair accounts e i × AreLegs a b e i
rows-IsPair accounts a b e i p q (h, x, y) =
    let passed = check_rows-Passed accounts a b h in
    let out = sym (ap (λ l. l.expense) passed.offered) ∙ x in
    let in_ = sym (ap (λ l. l.income) passed.offered) ∙ y in
    (legs-IsPair accounts a b e i p q passed out in_, linkable-AreLegs a b e i out in_)

-- The two legs are the two rows that were found.
abbrev pub AreFound : Option Transaction → Option Transaction → Transaction → Transaction → Type 0
AreFound a b e i = ((a ≡ some e) × (b ≡ some i)) ⊎ ((a ≡ some i) × (b ≡ some e))

legs-AreFound : (a b e i : Transaction) → AreLegs a b e i → AreFound (some a) (some b) e i
legs-AreFound a b e i (inl (p, q)) = inl (ap some p, ap some q)
legs-AreFound a b e i (inr (p, q)) = inr (ap some p, ap some q)

found-IsPair :
    (accounts : List Account) (e i : Transaction) (a b : Option Transaction)
    → Offers (check_found accounts a b) e i
    → IsPair accounts e i × AreFound a b e i
found-IsPair accounts e i none b (h, x, y) = cc
found-IsPair accounts e i (some a) none (h, x, y) = cc
found-IsPair accounts e i (some a) (some b) o = elim (Option-cases a.linked_transaction_id) [
  | inr (k, linked) ↦ absurd (ground (arith, linked, o))
  | inl p ↦ elim (Option-cases b.linked_transaction_id) [
    | inr (k, linked) ↦ absurd (ground (arith, linked, o))
    | inl q ↦
        let (pair, legs) =
          rows-IsPair accounts a b e i p q
            (subst (λ link. Offers link e i) (check_found-free accounts a b p q) o) in
        (pair, legs-AreFound a b e i legs)
  ]
]

-- Exactly two rows are selected, and the legs are those of the list with their ids.
abbrev pub AreSelected : List Transaction → List ℕ → Transaction → Transaction → Type 0
AreSelected transactions selected e i =
    (m : ℕ) × (n : ℕ) × (selected ≡ m ∷ n ∷ [])
    × AreFound (find_transaction m transactions) (find_transaction n transactions) e i

-- Whatever is selected, the page offers a link only where exactly two rows of the list are, and these
-- are its legs: an expense and an income of one amount, neither linked yet, on two known accounts of
-- one currency.
pub evaluate_link_selection-IsPair :
    (transactions : List Transaction) (accounts : List Account) (selected : List ℕ)
    (e i : Transaction)
    → (evaluate_link_selection transactions accounts selected).enabled ≡ true
    → (evaluate_link_selection transactions accounts selected).expense ≡ some e
    → (evaluate_link_selection transactions accounts selected).income ≡ some i
    → AreSelected transactions selected e i × IsPair accounts e i
unfolding evaluate_link_selection
evaluate_link_selection-IsPair transactions accounts [] e i h x y = cc
evaluate_link_selection-IsPair transactions accounts (m ∷ []) e i h x y = cc
evaluate_link_selection-IsPair transactions accounts (m ∷ n ∷ k ∷ ids) e i h x y = cc
evaluate_link_selection-IsPair transactions accounts (m ∷ n ∷ []) e i h x y =
    let (pair, legs) =
      found-IsPair accounts e i (find_transaction m transactions) (find_transaction n transactions)
        (h, x, y) in
    ((m, n, refl, legs), pair)
