-- ===== src/Transactions/Selection.antt =====
-- The selection of rows in frontend/app/transactions/page.tsx. A set is a list of its members in the
-- order in which they were added.
pub mod Pages
use pfv.Common.{
  ℕ, Bool, true, false, ◌&&◌, ◌||◌, not, Option, none, some, List, [], ◌∷◌, ◌++◌, if◌then◌else◌,
  ◌==◌, ltb, any, all, filter_by,
}
use pfv.Transactions.Rows.{Transaction}

abbrev pub Ids : Type 0
Ids = List ℕ

-- `ids.has(id)`
unfoldable pub has : ℕ → Ids → Bool
has id [] = false
has id (x ∷ ids) = x == id || has id ids

unfoldable pub add : ℕ → Ids → Ids
unfolding has
add id ids = if has id ids then ids else ids ++ id ∷ []

unfoldable pub delete : ℕ → Ids → Ids
delete id [] = []
delete id (x ∷ ids) = let rest = delete id ids in if x == id then rest else x ∷ rest

-- `t.linked_transaction_id && t.id > t.linked_transaction_id`
abbrev pub is_hidden_half : Transaction → Bool
is_hidden_half t = elim t.linked_transaction_id [
  | none ↦ false
  | some linked ↦ not (linked == 0) && ltb linked t.id
]

unfoldable pub hide_from : List Transaction → Ids → Ids
unfolding add
hide_from [] ids = ids
hide_from (t ∷ ts) ids = hide_from ts (if is_hidden_half t then add t.id ids else ids)

-- `selectionHiddenIds`
unfoldable pub selection_hidden_ids : List Transaction → Ids
unfolding hide_from
selection_hidden_ids transactions = hide_from transactions []

-- `selectableTxs`, and `visibleTxs` of a sorted list
unfoldable pub without_hidden : Ids → List Transaction → List Transaction
unfolding has
without_hidden hidden transactions = filter_by (λ t. not (has t.id hidden)) transactions

unfoldable pub selectable_txs : List Transaction → List Transaction
unfolding selection_hidden_ids without_hidden
selectable_txs transactions = without_hidden (selection_hidden_ids transactions) transactions

abbrev pub is_selected : Ids → Transaction → Bool
is_selected selected t = has t.id selected

abbrev pub is_empty {ℓ} : {A : Type ℓ} → List A → Bool
is_empty [] = true
is_empty (x ∷ xs) = false

unfoldable pub all_page_selected : List Transaction → Ids → Bool
unfolding selectable_txs has
all_page_selected transactions selected =
    not (is_empty (selectable_txs transactions))
    && all (is_selected selected) (selectable_txs transactions)

unfoldable pub some_page_selected : List Transaction → Ids → Bool
unfolding all_page_selected
some_page_selected transactions selected =
    any (is_selected selected) (selectable_txs transactions)
    && not (all_page_selected transactions selected)

unfoldable pub toggle_one : ℕ → Ids → Ids
unfolding has add delete
toggle_one id selected = if has id selected then delete id selected else add id selected

unfoldable pub delete_all : List Transaction → Ids → Ids
unfolding delete
delete_all [] ids = ids
delete_all (t ∷ ts) ids = delete_all ts (delete t.id ids)

unfoldable pub add_all : List Transaction → Ids → Ids
unfolding add
add_all [] ids = ids
add_all (t ∷ ts) ids = add_all ts (add t.id ids)

unfoldable pub toggle_page : List Transaction → Ids → Ids
unfolding all_page_selected add_all delete_all
toggle_page transactions selected =
    if all_page_selected transactions selected
    then delete_all (selectable_txs transactions) selected
    else add_all (selectable_txs transactions) selected

-- The body of the bulk delete, and the selection that is left when it succeeds.
abbrev pub clear_selection : Ids
clear_selection = []
