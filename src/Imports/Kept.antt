-- ===== src/Imports/Kept.antt =====
-- What every run of the import page keeps (frontend/app/import/page.tsx).
use pfv.Common.{
  ℕ, ◌≡◌, ◌∙◌, refl, ap, subst, Bool, true, false, ◌&&◌, ◌||◌, Option, none, some, List, [], ◌∷◌,
  ◌==◌, is_some, or_else, any, map, All, either_of, Bool-cases, inl, inr, ==_iff,
}
use pfv.Common.Text.{Text}
use pfv.Auth.Provider.{Outcome, fulfilled, failed}
use pfv.Transactions.Rows.{TransactionType}
use pfv.Imports.Rows.{PreviewRow, ConfirmRow, TransferUiState, create, default_ui}
use pfv.Imports.Page.{
  PreviewResponse, UiMap, Page, row_state, initial_ui, ui_from, ui_of, missing_types_of, uploaded,
  handle_upload,
}
use pfv.Imports.Page.Confirm.{confirm_with, handle_confirm}
use pfv.Imports.Page.Events.{
  RowPatch, set_skip, set_category, row_patched, update_row, UiPatch, set_panel, set_drop, set_pair,
  choose, skip_pairing, unmark, mark, ui_patched, update_transfer_ui, has_id, is_option, rows_of,
  can_confirm, start_over, Action, picked_file, restarted, picked_account, picked_default,
  uploaded_file, row_updated, ui_updated, confirmed, act, run,
}

-- What the file says of a row, which no choice of the user changes.
abbrev pub Echo : Type 0
Echo = ℕ × Text × Text × Text × TransactionType

abbrev pub echo : ConfirmRow → Echo
echo r = (r.row_number, r.date, r.description, r.amount, r.type)

abbrev pub echo_of : PreviewRow → Echo
echo_of r = (r.row_number, r.date, r.description, r.amount, r.type)

abbrev pub is_id : Option ℕ → ℕ → Bool
is_id none t = false
is_id (some i) t = i == t

-- Some row of the preview with the number has the property.
abbrev pub some_row : List PreviewRow → ℕ → (PreviewRow → Bool) → Bool
some_row rows n q = any (λ r. r.row_number == n && q r) rows

-- The transaction is the match or a candidate that the preview has for the row.
abbrev pub is_match : ℕ → PreviewRow → Bool
is_match t r = is_id r.pair_with_transaction_id t || has_id r.transfer_candidates t

abbrev pub IsMatched : List PreviewRow → ℕ → Option ℕ → Type 0
IsMatched rows n none = Unit
IsMatched rows n (some t) = some_row rows n (is_match t) ≡ true

-- A row as the page keeps it.
abbrev pub IsPlain : ConfirmRow → Type 0
IsPlain r =
    (r.action ≡ create)
    × (r.pair_with_transaction_id ≡ none)
    × (r.duplicate_of_transaction_id ≡ none)
    × (r.partner_account_id ≡ none)

abbrev pub IsChosen : List PreviewRow → ℕ → Option ℕ → Type 0
IsChosen rows n none = Unit
IsChosen rows n (some c) = some_row rows n (λ r. has_id r.transfer_candidates c) ≡ true

abbrev pub IsChoice : List PreviewRow → ℕ × TransferUiState → Type 0
IsChoice rows (n, ui) = IsChosen rows n ui.selected_candidate_id

abbrev pub IsCurrent : Option PreviewResponse → List ConfirmRow → UiMap → Type 0
IsCurrent none row_states ui = Unit
IsCurrent (some d) row_states ui =
    (map echo row_states ≡ map echo_of d.rows) × All IsPlain row_states × All (IsChoice d.rows) ui

abbrev pub IsSound : Page → Type 0
IsSound p = IsCurrent p.shown p.row_states p.transfer_ui

pub cons_eq {ℓ} : {A : Type ℓ} {x y : A} {xs ys : List A} → x ≡ y → xs ≡ ys → (x ∷ xs) ≡ (y ∷ ys)
cons_eq e f = cc

-- A new preview.
echoes-row_state : (rows : List PreviewRow) → map echo (map row_state rows) ≡ map echo_of rows
echoes-row_state [] = refl
echoes-row_state (r ∷ rows) = ap (λ es. echo_of r ∷ es) (echoes-row_state rows)

row_states-IsPlain : (rows : List PreviewRow) → All IsPlain (map row_state rows)
row_states-IsPlain [] = tt
row_states-IsPlain (r ∷ rows) = ((refl, refl, refl, refl), row_states-IsPlain rows)

ui_from-IsChoice :
    (all_rows rows : List PreviewRow) (ui : UiMap)
    → All (IsChoice all_rows) ui
    → All (IsChoice all_rows) (ui_from ui rows)
unfolding ui_from
ui_from-IsChoice all_rows [] ui h = h
ui_from-IsChoice all_rows (r ∷ rows) ui h =
    ui_from-IsChoice all_rows rows ((r.row_number, initial_ui r) ∷ ui) (tt, h)

-- The updates of the table and of the panel.
row_patched-echo :
    (patch : RowPatch) (r : ConfirmRow)
    → (echo (row_patched patch r) ≡ echo r) × (IsPlain r → IsPlain (row_patched patch r))
row_patched-echo (set_skip b) r = (refl, λ h. h)
row_patched-echo (set_category c) r = (refl, λ h. h)

update_row-echo :
    (n : ℕ) (patch : RowPatch) (rows : List ConfirmRow)
    → map echo (update_row n patch rows) ≡ map echo rows
unfolding update_row
update_row-echo n patch [] = refl
update_row-echo n patch (r ∷ rows) =
    cons_eq
      (either_of {A = ConfirmRow} (λ q. echo q ≡ echo r) (r.row_number == n)
        (row_patched-echo patch r).0 refl)
      (update_row-echo n patch rows)

update_row-IsPlain :
    (n : ℕ) (patch : RowPatch) (rows : List ConfirmRow)
    → All IsPlain rows
    → All IsPlain (update_row n patch rows)
unfolding update_row
update_row-IsPlain n patch [] h = tt
update_row-IsPlain n patch (r ∷ rows) (k, h) = (
  either_of IsPlain (r.row_number == n) ((row_patched-echo patch r).1 k) k,
  update_row-IsPlain n patch rows h,
)

module _ (rows : List PreviewRow) where
  pub IsChoice-ui_of :
      (n : ℕ) (ui : UiMap)
      → All (IsChoice rows) ui
      → IsChoice rows (n, or_else (ui_of n ui) default_ui)
  unfolding ui_of
  IsChoice-ui_of n [] h = tt
  IsChoice-ui_of n ((k, u) ∷ ui) (c, h) = elim (Bool-cases (k == n)) [
    | inl e ↦ rw e (subst (λ j. IsChosen rows j u.selected_candidate_id) ((==_iff k n).0 e) c)
    | inr f ↦ rw f (IsChoice-ui_of n ui h)
  ]

  ui_patched-IsChoice :
      (n : ℕ) (patch : UiPatch) (u : TransferUiState)
      → is_option rows n patch ≡ true
      → IsChoice rows (n, u)
      → IsChoice rows (n, ui_patched patch u)
  ui_patched-IsChoice n (set_panel b) u o h = h
  ui_patched-IsChoice n (set_drop b) u o h = h
  ui_patched-IsChoice n (set_pair b) u o h = h
  ui_patched-IsChoice n (choose c) u o h = o
  ui_patched-IsChoice n skip_pairing u o h = tt
  ui_patched-IsChoice n (mark a) u o h = h
  ui_patched-IsChoice n unmark u o h = h

missing-IsSound :
    (o : Option (List Text)) (message : Text) (p : Page)
    → IsSound p
    → IsSound (elim o [
      | some types ↦ record p { missing_types = some types; error_msg = [] }
      | none ↦ record p { error_msg = message }
    ])
missing-IsSound none message p h = h
missing-IsSound (some types) message p h = h

uploaded-IsCurrent :
    (answer : Outcome PreviewResponse) (p : Page) → IsSound p → IsSound (uploaded answer p)
unfolding uploaded
uploaded-IsCurrent (fulfilled d) p h =
    (echoes-row_state d.rows, row_states-IsPlain d.rows, ui_from-IsChoice d.rows d.rows [] tt)
uploaded-IsCurrent (failed e) p h = missing-IsSound (missing_types_of e) _ p h

row_updated-IsCurrent :
    (n : ℕ) (patch : RowPatch) (o : Option PreviewResponse) (states : List ConfirmRow) (ui : UiMap)
    → IsCurrent o states ui
    → IsCurrent o (update_row n patch states) ui
row_updated-IsCurrent n patch none states ui h = tt
row_updated-IsCurrent n patch (some d) states ui (e, plain, choices) =
    (update_row-echo n patch states ∙ e, update_row-IsPlain n patch states plain, choices)

ui_updated-IsCurrent :
    (n : ℕ) (patch : UiPatch) (o : Option PreviewResponse) (states : List ConfirmRow) (ui : UiMap)
    → is_option (rows_of o) n patch ≡ true
    → IsCurrent o states ui
    → IsCurrent o states (update_transfer_ui n patch ui)
unfolding update_transfer_ui
ui_updated-IsCurrent n patch none states ui g h = tt
ui_updated-IsCurrent n patch (some d) states ui g (e, plain, choices) = (
  e,
  plain,
  (
    ui_patched-IsChoice d.rows n patch (or_else (ui_of n ui) default_ui) g
        (IsChoice-ui_of d.rows n ui choices),
    choices,
  ),
)

ui_updated-IsSound :
    (n : ℕ) (patch : UiPatch) (p : Page) → IsSound p → IsSound (act (ui_updated n patch) p)
unfolding act
ui_updated-IsSound n patch p h = elim (Bool-cases (is_option (rows_of p.shown) n patch)) [
  | inl g ↦ rw g (ui_updated-IsCurrent n patch p.shown p.row_states p.transfer_ui g h)
  | inr f ↦ rw f h
]

confirmed-IsSound :
    (answer : Outcome ℕ) (o : Option PreviewResponse) (c : Option ℕ) (p : Page)
    → IsSound p
    → IsSound (confirm_with answer o c p).0
unfolding confirm_with
confirmed-IsSound answer none c p h = h
confirmed-IsSound answer (some d) none p h = h
confirmed-IsSound (fulfilled count) (some d) (some c) p h = h
confirmed-IsSound (failed e) (some d) (some c) p h = h

uploaded-IsSound :
    (answer : Outcome PreviewResponse) (p : Page) → IsSound p → IsSound (handle_upload answer p)
unfolding handle_upload
uploaded-IsSound answer p h =
    either_of IsSound (p.has_file && is_some p.account_id)
      (uploaded-IsCurrent answer (record p { error_msg = []; missing_types = none }) h) h

act-IsSound : (a : Action) (p : Page) → IsSound p → IsSound (act a p)
unfolding act handle_confirm start_over
act-IsSound picked_file p h = h
act-IsSound restarted p h = tt
act-IsSound (picked_account a) p h = h
act-IsSound (picked_default c) p h = h
act-IsSound (uploaded_file answer) p h = uploaded-IsSound answer p h
act-IsSound (row_updated n patch) p h =
    row_updated-IsCurrent n patch p.shown p.row_states p.transfer_ui h
act-IsSound (ui_updated n patch) p h = ui_updated-IsSound n patch p h
act-IsSound (confirmed answer) p h =
    either_of IsSound (can_confirm p) (confirmed-IsSound answer p.shown p.default_category_id p h) h

pub run-IsSound : (actions : List Action) (p : Page) → IsSound p → IsSound (run actions p)
unfolding run
run-IsSound [] p h = h
run-IsSound (a ∷ actions) p h = run-IsSound actions (act a p) (act-IsSound a p h)
