-- ===== src/Transactions/Editing/Saves.antt =====
-- When a save of the edit form ends the editing, and what it sends
-- (handleSaveEdit of frontend/app/transactions/page.tsx).
use pfv.Common.{
  ℕ, ◌≡◌, ◌≢◌, refl, sym, ap, subst, All, ◌∙◌, arith, Bool, true, false, ◌&&◌, not, Option, none,
  some, List, [], ◌∷◌, is_some,
}
use pfv.Common.Text.{Text, text_ltb}
use pfv.Auth.Provider.{Outcome, fulfilled, failed}
use pfv.Transactions.Rows.{Transaction, find_transaction}
use pfv.Transactions.Editing.{
  EditPage, close_edit, SaveRequest, get_list, put_tags, promote, SaveReplies, save_request,
  is_promotable, with_error, after_load, close_and_load, with_recurring, promote_failed,
  after_promote, promote_request, after_tags, after_save, wants_promote, refusal, save,
  save_editing, handle_save_edit,
}

abbrev pub is_ok {ℓ} : {A : Type ℓ} → Outcome A → Bool
is_ok (fulfilled a) = true
is_ok (failed e) = false

close_and_load-closed :
    (r : SaveReplies) (requests : List SaveRequest) (p : EditPage)
    → (close_and_load r requests p).0.edit.editing_id ≡ none
unfolding close_edit
close_and_load-closed r requests p = closed r.list
  where
    closed : (o : Outcome (List Transaction)) → (after_load o (close_edit p)).edit.editing_id ≡ none
    closed (fulfilled rows) = refl
    closed (failed e) = refl

after_promote-closed :
    (id : ℕ) (r : SaveReplies) (o : Outcome (Option ℕ)) (requests : List SaveRequest) (p : EditPage)
    → (after_promote id r o requests p).0.edit.editing_id ≡ none
after_promote-closed id r (failed e) requests p =
    close_and_load-closed r requests (with_error (promote_failed e) p)
after_promote-closed id r (fulfilled k) requests p =
    close_and_load-closed r requests (with_recurring id k p)

-- Where an edit with id `id` stands after a save.
abbrev pub edited : Bool → ℕ → Option ℕ
edited true id = none
edited false id = some id

after_tags-edited :
    (id : ℕ) (r : SaveReplies) (wants : Bool) (o : Outcome (Unit {0})) (p : EditPage)
    → p.edit.editing_id ≡ some id
    → (after_tags id r wants o p).0.edit.editing_id ≡ edited (is_ok o) id
after_tags-edited id r wants (failed e) p h = h
after_tags-edited id r false (fulfilled done) p h =
    close_and_load-closed r (save_request id p.edit ∷ put_tags id p.edit.edit_tags ∷ []) p
after_tags-edited id r true (fulfilled done) p h =
    after_promote-closed id r r.promoted
      (save_request id p.edit ∷ put_tags id p.edit.edit_tags ∷ promote_request id p.edit ∷ []) p

after_save-edited :
    (id : ℕ) (r : SaveReplies) (wants : Bool) (o : Outcome (Unit {0})) (p : EditPage)
    → p.edit.editing_id ≡ some id
    → (after_save id r wants o p).0.edit.editing_id ≡ edited (is_ok o && is_ok r.tagged) id
after_save-edited id r wants (failed e) p h = h
after_save-edited id r wants (fulfilled done) p h = after_tags-edited id r wants r.tagged p h

save-edited :
    (today : Text) (r : SaveReplies) (o : Option Text) (id : ℕ) (p : EditPage)
    → p.edit.editing_id ≡ some id
    → (save today r o id p).0.edit.editing_id
      ≡ edited (not (is_some o) && is_ok r.saved && is_ok r.tagged) id
save-edited today r (some message) id p h = h
save-edited today r none id p h =
    after_save-edited id r (wants_promote id p) r.saved (with_error [] p) h

-- A save ends the editing exactly where the form passes its checks and both the transaction and its
-- tags are saved; whether the promotion or the reload then fails makes no difference.
pub handle_save_edit-ends :
    (today : Text) (r : SaveReplies) (p : EditPage) (id : ℕ)
    → p.edit.editing_id ≡ some id
    → (handle_save_edit today r p).0.edit.editing_id
      ≡ edited (not (is_some (refusal today id p)) && is_ok r.saved && is_ok r.tagged) id
unfolding handle_save_edit
handle_save_edit-ends today r p id h =
    ap (λ k. (save_editing today r k p).0.edit.editing_id) h
    ∙ save-edited today r (refusal today id p) id p h

-- A row of the list that is neither half of a transfer nor recurring.
abbrev pub IsFree : Option Transaction → Type 0
IsFree o =
    (t : Transaction) × (o ≡ some t) × (t.linked_transaction_id ≡ none) × (t.recurring_id ≡ none)

-- What a row must be to be promoted, and the due date that is asked for.
abbrev IsPromoted : Text → ℕ → (next_due_date : Text) → EditPage → Type 0
IsPromoted today id next_due_date p =
    IsFree (find_transaction id p.listing.transactions)
    × (p.edit.edit_promote_recurring ≡ true)
    × (next_due_date ≢ [])
    × (text_ltb next_due_date today ≡ false)

-- A request that promotes is for the row that is edited, with the frequency and the date of the form.
abbrev pub IsAllowed : Text → ℕ → EditPage → SaveRequest → Type 0
IsAllowed today id p (promote row frequency next_due_date) =
    (row ≡ id)
    × (frequency ≡ p.edit.edit_rec_frequency)
    × (next_due_date ≡ p.edit.edit_rec_next_due)
    × IsPromoted today id next_due_date p
IsAllowed today id p _ = Unit

is_promotable-IsFree : (o : Option Transaction) → is_promotable o ≡ true → IsFree o
is_promotable-IsFree none h = cc
is_promotable-IsFree (some t) h = (t, refl, ground (arith, h), ground (arith, h))

unrefused-IsPromoted :
    (today : Text) (id : ℕ) (p : EditPage)
    → refusal today id p ≡ none
    → wants_promote id p ≡ true
    → IsPromoted today id p.edit.edit_rec_next_due p
unfolding refusal
unrefused-IsPromoted today id p h w =
    (ground (arith, h, w), ground (arith, h, w), λ e. ground (arith, h, w, e), ground (arith, h, w))

module _ (today : Text) (id : ℕ) (r : SaveReplies) (p : EditPage) where
  after_promote-IsAllowed :
      (o : Outcome (Option ℕ))
      → IsPromoted today id p.edit.edit_rec_next_due p
      → All
          (IsAllowed today id p)
          (after_promote id r o
            (save_request id p.edit ∷ put_tags id p.edit.edit_tags ∷ promote_request id p.edit ∷ [])
            p).1
  after_promote-IsAllowed (failed e) h = (tt, (tt, ((refl, refl, refl, h), (tt, tt))))
  after_promote-IsAllowed (fulfilled k) h = (tt, (tt, ((refl, refl, refl, h), (tt, tt))))

  after_tags-IsAllowed :
      (wants : Bool) (o : Outcome (Unit {0}))
      → (wants ≡ true → IsPromoted today id p.edit.edit_rec_next_due p)
      → All (IsAllowed today id p) (after_tags id r wants o p).1
  after_tags-IsAllowed wants (failed e) h = (tt, (tt, tt))
  after_tags-IsAllowed false (fulfilled done) h = (tt, (tt, (tt, tt)))
  after_tags-IsAllowed true (fulfilled done) h = after_promote-IsAllowed r.promoted (h refl)

  after_save-IsAllowed :
      (wants : Bool) (o : Outcome (Unit {0}))
      → (wants ≡ true → IsPromoted today id p.edit.edit_rec_next_due p)
      → All (IsAllowed today id p) (after_save id r wants o p).1
  after_save-IsAllowed wants (failed e) h = (tt, tt)
  after_save-IsAllowed wants (fulfilled done) h = after_tags-IsAllowed wants r.tagged h

save-IsAllowed :
    (today : Text) (r : SaveReplies) (o : Option Text) (id : ℕ) (p : EditPage)
    → o ≡ refusal today id p
    → All (IsAllowed today id p) (save today r o id p).1
save-IsAllowed today r (some message) id p h = tt
save-IsAllowed today r none id p h =
    after_save-IsAllowed today id r (with_error [] p) (wants_promote id p) r.saved
      (unrefused-IsPromoted today id p (sym h))

-- A save of the edit form asks for a promotion to a recurring row only for the row that is edited, with
-- the frequency and the next due date of the form, and only where the list has that row as one that is
-- neither half of a transfer nor recurring already, the user asked for it, and the date is given and
-- today or later.
pub handle_save_edit-IsAllowed :
    (today : Text) (r : SaveReplies) (p : EditPage) (id : ℕ)
    → p.edit.editing_id ≡ some id
    → All (IsAllowed today id p) (handle_save_edit today r p).1
unfolding handle_save_edit
handle_save_edit-IsAllowed today r p id h =
    subst (λ k. All (IsAllowed today id p) (save_editing today r k p).1) (sym h)
      (save-IsAllowed today r (refusal today id p) id p refl)

-- What a save without a promotion sends where it is neither refused by the page nor by the backend.
pub handle_save_edit-saved :
    (today : Text) (r : SaveReplies) (p : EditPage) (id : ℕ)
    → p.edit.editing_id ≡ some id
    → p.edit.edit_promote_recurring ≡ false
    → refusal today id p ≡ none
    → is_ok r.saved ≡ true
    → is_ok r.tagged ≡ true
    → (handle_save_edit today r p).1
      ≡ save_request id p.edit ∷ put_tags id p.edit.edit_tags ∷ get_list ∷ []
unfolding handle_save_edit
handle_save_edit-saved today r p id e unasked passed saved tagged =
    ap (λ k. (save_editing today r k p).1) e
    ∙ ap (λ o. (save today r o id p).1) passed
    ∙ ap
        (λ b.
          (after_save id r (b && is_promotable (find_transaction id p.listing.transactions)) r.saved
            (with_error [] p)).1)
        unasked
    ∙ sent r.saved r.tagged saved tagged
  where
    sent :
        (o : Outcome (Unit {0})) (u : Outcome (Unit {0}))
        → is_ok o ≡ true
        → is_ok u ≡ true
        → (after_save id (record r { tagged = u }) false o (with_error [] p)).1
          ≡ save_request id p.edit ∷ put_tags id p.edit.edit_tags ∷ get_list ∷ []
    sent (failed x) u h k = cc
    sent (fulfilled done) (failed x) h k = cc
    sent (fulfilled done) (fulfilled also) h k = refl
