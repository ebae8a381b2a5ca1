-- ===== src/Imports/Agreed.antt =====
-- What a confirmation of an import sends (frontend/app/import/page.tsx), over every run of the page.
use pfv.Common.{
  ℕ, ◌≡◌, ◌∙◌, refl, sym, ap, subst, Option, none, some, List, [], ◌∷◌, or_else, map, All,
}
use mathlib.Core.Option.{some-injective}
use pfv.Imports.Rows.{PreviewRow, ConfirmRow, TransferUiState, default_ui}
use pfv.Imports.Page.{PreviewResponse, UiMap, Page, ui_of}
use pfv.Imports.Page.Confirm.{preview_by_row, payload_with, payload_row, confirm_request}
use pfv.Imports.Page.Events.{start, Action, run}
use pfv.Imports.Kept.{
  echo, echo_of, IsPlain, IsChoice, IsCurrent, IsChoice-ui_of, cons_eq, run-IsSound,
}
use pfv.Imports.Founded.{IsFounded, IsFoundedRow, build-IsFounded}

abbrev choice_of : UiMap → ℕ → TransferUiState
choice_of ui n = or_else (ui_of n ui) default_ui

abbrev pub IsAgreed : List PreviewRow → UiMap → ConfirmRow → Type 0
IsAgreed rows ui r = IsFoundedRow rows r.row_number (choice_of ui r.row_number) r

module _ (rows : List PreviewRow) where
  plain-IsFounded :
      (n : ℕ) (choice : TransferUiState) (r : ConfirmRow) → IsPlain r → IsFoundedRow rows n choice r
  plain-IsFounded n choice r (a, b, c, d) =
      subst
        (λ action.
          IsFounded rows n choice action r.pair_with_transaction_id r.duplicate_of_transaction_id
            r.partner_account_id)
        (sym a) (b, c, d)

  payload-IsFounded :
      (r : ConfirmRow) (pv : Option PreviewRow) (o : Option TransferUiState)
      → IsPlain r
      → preview_by_row r.row_number rows ≡ pv
      → IsChoice rows (r.row_number, or_else o default_ui)
      → IsFoundedRow rows r.row_number (or_else o default_ui) (payload_with r pv o)
        × (echo (payload_with r pv o) ≡ echo r)
  unfolding payload_with
  payload-IsFounded r none o k e h = (plain-IsFounded r.row_number (or_else o default_ui) r k, refl)
  payload-IsFounded r (some pv) o k e h =
      build-IsFounded rows r.row_number r pv (or_else o default_ui) k e h

  -- A row that keeps the number keeps the choice that was made under it.
  renumbered-IsAgreed :
      (ui : UiMap) (r sent : ConfirmRow)
      → echo sent ≡ echo r
      → IsFoundedRow rows r.row_number (choice_of ui r.row_number) sent
      → IsAgreed rows ui sent
  renumbered-IsAgreed ui r sent e h =
      subst (λ n. IsFoundedRow rows n (choice_of ui n) sent) (sym (ap (λ x. x.0) e)) h

  payloads-IsAgreed :
      (ui : UiMap) (states : List ConfirmRow)
      → All IsPlain states
      → All (IsChoice rows) ui
      → All (IsAgreed rows ui) (map (payload_row rows ui) states)
        × (map echo (map (payload_row rows ui) states) ≡ map echo states)
  unfolding payload_row
  payloads-IsAgreed ui [] k h = (tt, refl)
  payloads-IsAgreed ui (r ∷ states) (k, ks) h =
      let (a, b) =
        payload-IsFounded r (preview_by_row r.row_number rows) (ui_of r.row_number ui) k refl
          (IsChoice-ui_of rows r.row_number ui h) in
      let (c, d) = payloads-IsAgreed ui states ks h in
      ((renumbered-IsAgreed ui r (payload_row rows ui r) b a, c), cons_eq b d)

request-IsAgreed :
    (o : Option PreviewResponse) (response : PreviewResponse) (category : ℕ) (p : Page)
    → o ≡ some response
    → IsCurrent o p.row_states p.transfer_ui
    → let request = confirm_request response category p in
      (map echo request.rows ≡ map echo_of response.rows)
      × All (IsAgreed response.rows p.transfer_ui) request.rows
unfolding confirm_request
request-IsAgreed none response category p e h = cc
request-IsAgreed (some d) response category p e h =
    let (same, plain, choices) =
      subst (λ q. IsCurrent (some q) p.row_states p.transfer_ui) (some-injective d response e) h in
    let (agreed, echoed) =
      payloads-IsAgreed response.rows p.transfer_ui p.row_states plain choices in
    (echoed ∙ same, agreed)

-- Whatever was done on the page before, earlier files included: a confirmation of the preview that is
-- shown sends one row for each of its rows, in its order, with its number, date, description, amount
-- and type. A row that pairs names the match, where the user has accepted it, or the candidate that the
-- user has chosen, and no other transaction than a match or a candidate that the preview has under its
-- number; one that is dropped was accepted as a drop, and names the duplicate that the
-- preview has for a row with its number, found to be that of a linked leg; one that makes a transfer
-- names the account that the user has marked for it; and no row carries the transaction, duplicate or
-- account of an action that it does not take.
pub run-IsAgreed :
    (actions : List Action) (response : PreviewResponse) (category : ℕ)
    → let p = run actions start in
      p.shown ≡ some response
      → let request = confirm_request response category p in
        (map echo request.rows ≡ map echo_of response.rows)
        × All (IsAgreed response.rows p.transfer_ui) request.rows
unfolding start
run-IsAgreed actions response category e =
    let p = run actions start in
    request-IsAgreed p.shown response category p e (run-IsSound actions start tt)
