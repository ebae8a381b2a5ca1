-- ===== src/Categories/Forms/Errors.antt =====
-- What a failure leaves in the forms of frontend/app/categories/page.tsx.
use pfv.Common.{ℕ, ◌≡◌, refl, sym, subst, false, Option, some, List, ◌==◌}
use pfv.Common.Text.{Text, trim}
use pfv.Api.Errors.{Thrown, extract_error_message}
use pfv.Auth.Provider.{Outcome, failed}
use pfv.Categories.Rows.{Category}
use pfv.Categories.Deleting.Events.{is_empty}
use pfv.Categories.Forms.{
  Page, request_failed, restore_failed, add_to, handle_add_sub, handle_edit_cat, handle_delete,
  handle_restore_recommended,
}

-- The text fields and the forms that are open.
abbrev pub Entered : Type 0
Entered = Option ℕ × Text × Text × Option ℕ × Text × Text

abbrev pub entered : Page → Entered
entered p = (
  p.editing_cat_id, p.edit_cat_name, p.edit_cat_desc, p.adding_to_master, p.new_sub_name,
  p.new_sub_desc,
)

-- The page that a refused request leaves.
abbrev pub IsRefused : Text → Thrown → Page → Page → Type 0
IsRefused fallback e p q =
    (q.categories ≡ p.categories)
    × (entered q ≡ entered p)
    × (q.error ≡ extract_error_message e fallback)
    × (q.restoring ≡ p.restoring)

add_to-IsRefused :
    (e : Thrown) (list : Outcome (Option (List Category))) (id : ℕ) (p : Page)
    → (id == 0) ≡ false
    → IsRefused request_failed e p (add_to (some e) list (some id) p).0
unfolding add_to
add_to-IsRefused e list id p h = rw h (refl, refl, refl, refl)

-- Where the server refuses what the page sends, a new subcategory from a form that is open under a
-- master, an edit with a name, a deletion or the recommended categories while nothing is restored: the
-- list stays, what was entered stays in the form that is open, and the page says why.
pub handlers-IsRefused :
    (e : Thrown) (list : Outcome (Option (List Category))) (id master : ℕ) (p : Page)
    → p.adding_to_master ≡ some master
    → (master == 0) ≡ false
    → is_empty (trim p.edit_cat_name) ≡ false
    → p.restoring ≡ false
    → IsRefused request_failed e p (handle_add_sub (some e) list p).0
      × IsRefused request_failed e p (handle_edit_cat (some e) list id p).0
      × IsRefused request_failed e p (handle_delete (some e) list id p).0
      × IsRefused restore_failed e p (handle_restore_recommended (failed e) list p).0
unfolding handle_add_sub handle_edit_cat handle_delete handle_restore_recommended
handlers-IsRefused e list id master p a m h r = (
  subst (λ o. IsRefused request_failed e p (add_to (some e) list o p).0) (sym a)
      (add_to-IsRefused e list master p m),
  rw h (refl, refl, refl, refl),
  (refl, refl, refl, refl),
  (refl, refl, refl, sym r),
)
