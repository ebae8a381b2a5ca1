-- ===== src/Transactions/Selection/Pages.antt =====
-- What the checkboxes of frontend/app/transactions/page.tsx do to the selection, and which half of a
-- transfer the page shows.
use pfv.Common.{
  ℕ, zero, suc, get_elem?, ◌<◌, ◌≡◌, ◌≢◌, refl, ap, subst, arith, Bool, true, false, ◌&&◌, ◌||◌,
  not, some, List, [], ◌∷◌, ◌++◌, if◌then◌else◌, ◌==◌, any, Bool-cases, inl, inr, All,
  All-get_elem?,
}
use mathlib.Core.Option.{some-injective}
use pfv.Transactions.Rows.{Transaction}
use pfv.Transactions.Selection.{
  Ids, has, add, delete, is_hidden_half, hide_from, selection_hidden_ids, selectable_txs,
  all_page_selected, toggle_one, delete_all, add_all, toggle_page,
}

has-append : (id : ℕ) (xs ys : Ids) → has id (xs ++ ys) ≡ (has id xs || has id ys)
unfolding has
has-append id [] ys = refl
has-append id (x ∷ xs) ys = ground (arith, has-append id xs ys)

has-eq : (id x : ℕ) (ids : Ids) → x == id ≡ true → has x ids ≡ has id ids
has-eq id x ids h = ap (λ n. has n ids) (ground arith)

has-add : (id x : ℕ) (ids : Ids) → has id (add x ids) ≡ (x == id || has id ids)
unfolding add has
has-add id x ids = ground (arith, has-append id ids (x ∷ []), has-eq id x ids)

has-delete : (id x : ℕ) (ids : Ids) → has id (delete x ids) ≡ (not (x == id) && has id ids)
unfolding delete has
has-delete id x [] = ground arith
has-delete id x (y ∷ ids) = ground (arith, has-delete id x ids)

-- The ids of the rows that can be selected.
abbrev pub on_page : ℕ → List Transaction → Bool
on_page id ts = any (λ t. t.id == id) ts

has-add_all :
    (id : ℕ) (ts : List Transaction) (ids : Ids)
    → has id (add_all ts ids) ≡ (on_page id ts || has id ids)
unfolding add_all
has-add_all id [] ids = refl
has-add_all id (t ∷ ts) ids = ground (arith, has-add_all id ts (add t.id ids), has-add id t.id ids)

has-delete_all :
    (id : ℕ) (ts : List Transaction) (ids : Ids)
    → has id (delete_all ts ids) ≡ (not (on_page id ts) && has id ids)
unfolding delete_all
has-delete_all id [] ids = refl
has-delete_all id (t ∷ ts) ids =
    ground (arith, has-delete_all id ts (delete t.id ids), has-delete id t.id ids)

-- A click on a row's box changes whether that row is selected, and nothing else.
pub has-toggle_one :
    (id x : ℕ) (selected : Ids)
    → has x (toggle_one id selected) ≡ (if id == x then not (has x selected) else has x selected)
unfolding toggle_one
has-toggle_one id x selected =
    ground (arith, has-add x id selected, has-delete x id selected, has-eq x id selected)

-- A click on the page's box selects every row of the page that can be selected, or none of them where
-- all were, and leaves every other id as it was.
pub has-toggle_page :
    (transactions : List Transaction) (selected : Ids) (x : ℕ)
    → has x (toggle_page transactions selected) ≡ (
        if on_page x (selectable_txs transactions)
        then not (all_page_selected transactions selected)
        else has x selected)
unfolding toggle_page
has-toggle_page transactions selected x = ground (
  arith,
  has-add_all x (selectable_txs transactions) selected,
  has-delete_all x (selectable_txs transactions) selected,
)

-- The ids of the rows are different.
abbrev pub Distinct : List Transaction → Type 0
Distinct [] = Unit {0}
Distinct (t ∷ ts) = All (λ u. u.id ≢ t.id) ts × Distinct ts

abbrev hides : ℕ → Transaction → Bool
hides id t = is_hidden_half t && t.id == id

has-hide_from :
    (id : ℕ) (ts : List Transaction) (ids : Ids)
    → has id (hide_from ts ids) ≡ (any (hides id) ts || has id ids)
unfolding hide_from
has-hide_from id [] ids = refl
has-hide_from id (t ∷ ts) ids = elim (Bool-cases (is_hidden_half t)) [
  | inl half ↦ rw half (ground (arith, has-hide_from id ts (add t.id ids), has-add id t.id ids))
  | inr whole ↦ rw whole (has-hide_from id ts ids)
]

hides_none :
    (t : Transaction) (ts : List Transaction)
    → All (λ u. u.id ≢ t.id) ts
    → any (hides t.id) ts ≡ false
hides_none t [] h = refl
hides_none t (u ∷ ts) (p, h) = ground (arith, p, hides_none t ts h)

hides_self :
    (ts : List Transaction) (i : ℕ) (t : Transaction)
    → get_elem? ts i ≡ some t
    → Distinct ts
    → any (hides t.id) ts ≡ is_hidden_half t
hides_self [] i t e d = cc
hides_self (u ∷ ts) zero t e (p, d) =
    subst (λ v. any (hides v.id) (u ∷ ts) ≡ is_hidden_half v) (some-injective _ _ e)
      (ground (arith, hides_none u ts p))
hides_self (u ∷ ts) (suc i) t e (p, d) =
    let other : t.id ≢ u.id = All-get_elem? (λ v. v.id ≢ u.id) ts i e p in
    ground (arith, other, hides_self ts i t e d)

abbrev pub is_shown : List Transaction → Transaction → Bool
is_shown transactions t = not (has t.id (selection_hidden_ids transactions))

-- Where no two rows have the same id, a row of the page is shown exactly where it is not the half with
-- the greater id of a transfer, whether or not the other half is on the page too.
pub is_shown-row :
    (transactions : List Transaction) (i : ℕ) (t : Transaction)
    → Distinct transactions
    → get_elem? transactions i ≡ some t
    → is_shown transactions t ≡ not (is_hidden_half t)
unfolding selection_hidden_ids has
is_shown-row transactions i t d e =
    ground (arith, has-hide_from t.id transactions [], hides_self transactions i t e d)

-- Where both halves of a transfer are on the page, exactly one of them is shown.
pub is_shown-transfer :
    (transactions : List Transaction) (i j : ℕ) (a b : Transaction)
    → Distinct transactions
    → get_elem? transactions i ≡ some a
    → get_elem? transactions j ≡ some b
    → a.linked_transaction_id ≡ some b.id
    → b.linked_transaction_id ≡ some a.id
    → 0 < a.id
    → 0 < b.id
    → a.id ≢ b.id
    → is_shown transactions a ≡ not (is_shown transactions b)
is_shown-transfer transactions i j a b d e f l m p q n =
    ground (arith, is_shown-row transactions i a d e, is_shown-row transactions j b d f, l, m)
