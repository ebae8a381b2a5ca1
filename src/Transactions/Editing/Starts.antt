-- ===== src/Transactions/Editing/Starts.antt =====
-- What the edit form holds after startEdit of frontend/app/transactions/page.tsx, and what a save of it
-- then sends.
use pfv.Common.{
  ◌≡◌, ap, ◌∙◌, arith, Bool, true, false, ◌&&◌, not, Option, none, some, List, [], ◌∷◌,
  if◌then◌else◌, ◌==◌, is_some,
}
use pfv.Common.Text.{Text}
use pfv.Auth.Provider.{Outcome, fulfilled, failed}
use pfv.Transactions.Rows.{Transaction, settled, pending, find_transaction}
use pfv.Transactions.Editing.Saves.{is_ok, handle_save_edit-saved}
use pfv.Transactions.Editing.{
  EditPage, asks_for_partner, begin_edit, end_edit_start, start_edit, put_transaction, put_tags,
  get_list, SaveRequest, SaveReplies, refusal, handle_save_edit, save_request,
}

-- Whether the row has a partner that the page can find or fetch.
abbrev pub has_partner : List Transaction → Outcome (Option Transaction) → Transaction → Bool
has_partner rows answer t = elim t.linked_transaction_id [
  | none ↦ false
  | some linked ↦
      not (linked == 0)
      && (if is_some (find_transaction linked rows)
          then true
          else elim answer [ fulfilled partner ↦ is_some partner | failed e ↦ false ])
]

-- `none` for a settled row, whose date a save does not touch.
abbrev pub kept_settled_date : Transaction → Option (Option Text)
kept_settled_date t = elim t.status [
  | settled ↦ none
  | pending ↦
      some
        (elim t.settled_date [ none ↦ none | some d ↦ elim d [ [] ↦ none | c ∷ s ↦ some (c ∷ s) ] ])
]

-- What the form of an opened row holds is the row's.
save_request-start_edit :
    (to_edit_amount : Text → Text) (next_due : Text) (answer : Outcome (Option Transaction))
    (t : Transaction) (p : EditPage)
    → save_request t.id (start_edit to_edit_amount next_due answer t p).edit
      ≡ put_transaction t.id t.description
          (to_edit_amount t.amount)
          t.status
          t.date
          (some t.account_id)
          (some t.category_id)
          (if has_partner p.listing.transactions answer t then none else some t.type)
          (kept_settled_date t)
unfolding start_edit begin_edit end_edit_start
save_request-start_edit to_edit_amount next_due answer t p = ground arith

begin_edit-opens :
    (to_edit_amount : Text → Text) (next_due : Text) (answer : Outcome (Option Transaction))
    (t : Transaction) (p : EditPage)
    → let e = (start_edit to_edit_amount next_due answer t p).edit in
      (e.editing_id ≡ some t.id) × (e.edit_tags ≡ t.tags) × (e.edit_promote_recurring ≡ false)
unfolding start_edit begin_edit end_edit_start
begin_edit-opens to_edit_amount next_due answer t p = ground arith

tagged_alike :
    (q : SaveRequest) (f : List Text → SaveRequest) {xs ys : List Text}
    → xs ≡ ys
    → (q ∷ f xs ∷ get_list ∷ []) ≡ (q ∷ f ys ∷ get_list ∷ [])
tagged_alike q f e = ap (λ zs. q ∷ f zs ∷ get_list ∷ []) e

-- A row that is opened and saved unchanged, where the page's checks let it pass and the backend takes
-- both requests, is sent back under its own id with its own description, status, date, account,
-- category, expected settlement date and tags, with its amount as toEditAmount writes it, and with its
-- type unless it has a partner; then the list is loaded, and nothing else is sent.
pub handle_save_edit-start_edit :
    (to_edit_amount : Text → Text) (today next_due : Text) (answer : Outcome (Option Transaction))
    (t : Transaction) (p : EditPage) (r : SaveReplies)
    → let opened = start_edit to_edit_amount next_due answer t p in
      refusal today t.id opened ≡ none
      → is_ok r.saved ≡ true
      → is_ok r.tagged ≡ true
      → (handle_save_edit today r opened).1
        ≡ put_transaction t.id t.description
            (to_edit_amount t.amount)
            t.status
            t.date
            (some t.account_id)
            (some t.category_id)
            (if has_partner p.listing.transactions answer t then none else some t.type)
            (kept_settled_date t)
          ∷ put_tags t.id t.tags
          ∷ get_list
          ∷ []
handle_save_edit-start_edit to_edit_amount today next_due answer t p r passed saved tagged =
    let opened = start_edit to_edit_amount next_due answer t p in
    let (id, tags, unasked) = begin_edit-opens to_edit_amount next_due answer t p in
    handle_save_edit-saved today r opened t.id id unasked passed saved tagged
    ∙ ap (λ q. q ∷ put_tags t.id opened.edit.edit_tags ∷ get_list ∷ [])
        (save_request-start_edit to_edit_amount next_due answer t p)
    ∙ tagged_alike _ (put_tags t.id) tags

-- Where a row that is in no transfer is opened while the partner of another row is still being
-- fetched, the partner that arrives is taken for that of the open row, whose type a save then leaves
-- out.
pub save_request-late_partner :
    (to_edit_amount : Text → Text) (next_due : Text) (t u partner : Transaction) (p : EditPage)
    → asks_for_partner p.listing.transactions t.linked_transaction_id ≡ true
    → u.linked_transaction_id ≡ none
    → let opened = begin_edit to_edit_amount next_due u (begin_edit to_edit_amount next_due t p) in
      let late =
        end_edit_start
          (asks_for_partner p.listing.transactions t.linked_transaction_id)
          (fulfilled (some partner))
          opened in
      (late.edit.editing_id ≡ some u.id)
      × (opened.edit.edit_partner ≡ none)
      × (late.edit.edit_partner ≡ some partner)
      × (save_request u.id late.edit
          ≡ put_transaction u.id u.description
              (to_edit_amount u.amount)
              u.status
              u.date
              (some u.account_id)
              (some u.category_id)
              none
              (kept_settled_date u))
unfolding begin_edit end_edit_start
save_request-late_partner to_edit_amount next_due t u partner p h k = ground (arith, h, k)
