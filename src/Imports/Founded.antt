-- ===== src/Imports/Founded.antt =====
-- What the action of a row of an import rests on (frontend/app/import/page.tsx), for one row.
use pfv.Common.{
  ℕ, ◌≡◌, refl, sym, subst, arith, Bool, true, false, ◌&&◌, ◌||◌, Option, none, some, List, [], ◌∷◌,
  if◌then◌else◌, ◌==◌, is_some, Bool-cases, inl, inr, ==_iff, and_split,
}
use mathlib.Core.Option.{some-injective}
use pfv.Imports.Rows.{
  PreviewRow, ConfirmRow, TransferUiState, MatchAction, no_match, pair_with, suggest_pair,
  choose_candidate, ConfirmAction, create, pair_with_existing, drop_as_duplicate,
  create_transfer_pair, has_pair_choice, partner_id, marked_or_created, build_confirm_row,
}
use pfv.Imports.Page.Confirm.{preview_by_row, last_of}
use pfv.Imports.Page.Events.{has_id}
use pfv.Imports.Kept.{echo, some_row, is_match, IsMatched, IsPlain, IsChosen}

abbrev same_id : Option ℕ → Option ℕ → Bool
same_id none none = true
same_id (some a) (some b) = a == b
same_id _ _ = false

-- The preview has the row as a duplicate of a linked leg, namely of this transaction.
abbrev is_linked_duplicate : Option ℕ → PreviewRow → Bool
is_linked_duplicate duplicate r =
    r.is_duplicate_of_linked_leg && same_id duplicate r.duplicate_candidate

-- The user has accepted the match that the preview has for the row, or chosen a candidate, and that
-- is the transaction.
abbrev is_accepted : MatchAction → TransferUiState → (pair match : Option ℕ) → Bool
is_accepted no_match choice pair match = false
is_accepted pair_with choice pair match = choice.pair_accepted && same_id pair match
is_accepted suggest_pair choice pair match = choice.pair_accepted && same_id pair match
is_accepted choose_candidate choice pair match =
    is_some pair && same_id pair choice.selected_candidate_id

abbrev is_pairing : TransferUiState → Option ℕ → PreviewRow → Bool
is_pairing choice pair r =
    is_accepted r.transfer_match_action choice pair r.pair_with_transaction_id

-- What the action of a row rests on, with the three ids that it may carry: the preview of the row, and
-- what the user has chosen for it.
abbrev pub IsFounded :
    List PreviewRow
    → ℕ
    → TransferUiState
    → ConfirmAction
    → (pair duplicate account : Option ℕ) → Type 0
IsFounded rows n choice create pair duplicate account =
    (pair ≡ none) × (duplicate ≡ none) × (account ≡ none)
IsFounded rows n choice create_transfer_pair pair duplicate account =
    (pair ≡ none)
    × (duplicate ≡ none)
    × (is_some account ≡ true)
    × (account ≡ choice.mark_transfer_dest_account_id)
IsFounded rows n choice pair_with_existing pair duplicate account =
    (duplicate ≡ none)
    × (account ≡ none)
    × (some_row rows n (is_pairing choice pair) ≡ true)
    × IsMatched rows n pair
IsFounded rows n choice drop_as_duplicate pair duplicate account =
    (pair ≡ none)
    × (account ≡ none)
    × (choice.drop_accepted ≡ true)
    × (some_row rows n (is_linked_duplicate duplicate) ≡ true)

abbrev pub IsFoundedRow : List PreviewRow → ℕ → TransferUiState → ConfirmRow → Type 0
IsFoundedRow rows n choice r =
    IsFounded rows n choice r.action r.pair_with_transaction_id r.duplicate_of_transaction_id
      r.partner_account_id

or_right : (x y : Bool) → y ≡ true → (x || y) ≡ true
or_right true y h = refl
or_right false y h = h

absurd_none {ℓ} : {A : Type ℓ} {x : A} {T : Type 0} → (none ≡ some x) → T
absurd_none e = cc

is_id_refl : (t : ℕ) → (t == t) ≡ true
is_id_refl t = (==_iff t t).1 refl

same_id_refl : (o : Option ℕ) → same_id o o ≡ true
same_id_refl none = refl
same_id_refl (some t) = is_id_refl t

partner_id-is_accepted :
    (a : MatchAction) (pv : PreviewRow) (ui : TransferUiState)
    → has_pair_choice a ui ≡ true
    → is_accepted a ui (partner_id a pv ui) pv.pair_with_transaction_id ≡ true
unfolding has_pair_choice partner_id
partner_id-is_accepted no_match pv ui h = h
partner_id-is_accepted pair_with pv ui h = rw (h, same_id_refl pv.pair_with_transaction_id) refl
partner_id-is_accepted suggest_pair pv ui h = rw (h, same_id_refl pv.pair_with_transaction_id) refl
partner_id-is_accepted choose_candidate pv ui h = rw (h, same_id_refl ui.selected_candidate_id) refl

module _ (rows : List PreviewRow) (n : ℕ) where
  some_row-last_of :
      (q : PreviewRow → Bool) (r : PreviewRow) (rs : List PreviewRow) (pv : PreviewRow)
      (o : Option PreviewRow)
      → (o ≡ some pv → some_row rs n q ≡ true)
      → last_of n r o ≡ some pv
      → q pv ≡ true
      → some_row (r ∷ rs) n q ≡ true
  some_row-last_of q r rs pv none rest e h = elim (Bool-cases (r.row_number == n)) [
    | inl t ↦
        let same = some-injective r pv (subst (λ b. (if b then some r else none) ≡ some pv) t e) in
        rw (t, subst (λ x. q x ≡ true) (sym same) h) refl
    | inr f ↦ absurd_none (subst (λ b. (if b then some r else none) ≡ some pv) f e)
  ]
  some_row-last_of q r rs pv (some later) rest e h = or_right _ _ (rest e)

  -- The row that the map has under the number is a row of the preview with it.
  some_row-preview_by_row :
      (q : PreviewRow → Bool) (rs : List PreviewRow) (pv : PreviewRow)
      → preview_by_row n rs ≡ some pv
      → q pv ≡ true
      → some_row rs n q ≡ true
  unfolding preview_by_row
  some_row-preview_by_row q [] pv e h = cc
  some_row-preview_by_row q (r ∷ rs) pv e h =
      some_row-last_of q r rs pv (preview_by_row n rs) (λ f. some_row-preview_by_row q rs pv f h) e
        h

  some_row-imp :
      (f g : PreviewRow → Bool) (rs : List PreviewRow)
      → ((r : PreviewRow) → f r ≡ true → g r ≡ true)
      → some_row rs n f ≡ true
      → some_row rs n g ≡ true
  some_row-imp f g [] imp h = cc
  some_row-imp f g (r ∷ rs) imp h = elim (Bool-cases (f r)) [
    | inl t ↦ ground (arith, t, imp r t, h, some_row-imp f g rs imp)
    | inr e ↦ ground (arith, e, h, some_row-imp f g rs imp)
  ]

  -- The ids that a pairing sends.
  match_of :
      (pv : PreviewRow)
      → preview_by_row n rows ≡ some pv
      → IsMatched rows n pv.pair_with_transaction_id
  match_of pv e = own pv.pair_with_transaction_id refl
    where
      own : (o : Option ℕ) → pv.pair_with_transaction_id ≡ o → IsMatched rows n o
      own none f = tt
      own (some t) f = some_row-preview_by_row (is_match t) rows pv e (rw (f, is_id_refl t) refl)

  candidate_of : (o : Option ℕ) → IsChosen rows n o → IsMatched rows n o
  candidate_of none h = tt
  candidate_of (some c) h =
      some_row-imp (λ r. has_id r.transfer_candidates c) (is_match c) rows (λ r k. or_right _ _ k) h

  partner_id-IsMatched :
      (a : MatchAction) (pv : PreviewRow) (ui : TransferUiState)
      → preview_by_row n rows ≡ some pv
      → IsChosen rows n ui.selected_candidate_id
      → IsMatched rows n (partner_id a pv ui)
  unfolding partner_id
  partner_id-IsMatched no_match pv ui e h = match_of pv e
  partner_id-IsMatched pair_with pv ui e h = match_of pv e
  partner_id-IsMatched suggest_pair pv ui e h = match_of pv e
  partner_id-IsMatched choose_candidate pv ui e h = candidate_of ui.selected_candidate_id h

  marked-IsFounded :
      (row : ConfirmRow) (ui : TransferUiState) (o : Option ℕ)
      → IsPlain row
      → ui.mark_transfer_dest_account_id ≡ o
      → IsFoundedRow rows n ui (marked_or_created row o)
        × (echo (marked_or_created row o) ≡ echo row)
  marked-IsFounded row ui none (a, b, c, d) m = ((refl, refl, d), refl)
  marked-IsFounded row ui (some account) k m = ((refl, refl, refl, sym m), refl)

  -- The duplicate that a drop sends is the one that the preview has.
  duplicate_of :
      (pv : PreviewRow)
      → preview_by_row n rows ≡ some pv
      → pv.is_duplicate_of_linked_leg ≡ true
      → some_row rows n (is_linked_duplicate pv.duplicate_candidate) ≡ true
  duplicate_of pv e h =
      some_row-preview_by_row (is_linked_duplicate pv.duplicate_candidate) rows pv e
        (rw (h, same_id_refl pv.duplicate_candidate) refl)

  -- The transaction that a pairing sends is the one that was accepted.
  pairing_of :
      (pv : PreviewRow) (ui : TransferUiState)
      → preview_by_row n rows ≡ some pv
      → has_pair_choice pv.transfer_match_action ui ≡ true
      → some_row rows n (is_pairing ui (partner_id pv.transfer_match_action pv ui)) ≡ true
  pairing_of pv ui e h =
      some_row-preview_by_row (is_pairing ui (partner_id pv.transfer_match_action pv ui)) rows pv e
        (partner_id-is_accepted pv.transfer_match_action pv ui h)

  pub build-IsFounded :
      (row : ConfirmRow) (pv : PreviewRow) (ui : TransferUiState)
      → IsPlain row
      → preview_by_row n rows ≡ some pv
      → IsChosen rows n ui.selected_candidate_id
      → (IsFoundedRow rows n ui (build_confirm_row row pv ui))
        × (echo (build_confirm_row row pv ui) ≡ echo row)
  unfolding build_confirm_row
  build-IsFounded row pv ui (a, b, c, d) e h =
      elim (Bool-cases (pv.is_duplicate_of_linked_leg && ui.drop_accepted)) [
        | inl t ↦
            let (leg, accepted) = and_split _ _ t in
            rw t ((refl, d, accepted, duplicate_of pv e leg), refl)
        | inr f ↦ elim (Bool-cases (has_pair_choice pv.transfer_match_action ui)) [
          | inl p ↦
              rw (f, p)
                (
                  (
                    refl,
                    d,
                    pairing_of pv ui e p,
                    partner_id-IsMatched pv.transfer_match_action pv ui e h,
                  ),
                  refl,
                )
          | inr g ↦
              rw (f, g) (marked-IsFounded row ui ui.mark_transfer_dest_account_id (a, b, c, d) refl)
        ]
      ]
