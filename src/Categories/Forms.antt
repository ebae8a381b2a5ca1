-- ===== src/Categories/Forms.antt =====
-- The forms of frontend/app/categories/page.tsx: a new subcategory, an edit, a deletion of one
-- category, the recommended categories, and the Escape key.
pub mod Errors
use pfv.Common.{
  ℕ, Bool, true, false, ◌&&◌, ◌||◌, not, Option, none, some, List, [], ◌∷◌, ◌++◌, if◌then◌else◌,
  ◌==◌, is_some, or_else,
}
use pfv.Common.Text.{Text, codes, trim}
use pfv.Api.Errors.{Thrown, extract_error_message}
use pfv.Auth.Provider.{Outcome, fulfilled, failed}
use pfv.Pages.Moves.{CategoryType, expense}
use pfv.Categories.Rows.{Category, find_category}
use pfv.Categories.Deleting.Events.{is_empty}

pub record Page : Type 0 where
  pub categories : List Category
  pub error : Text
  pub editing_cat_id : Option ℕ
  pub edit_cat_name : Text
  pub edit_cat_desc : Text
  pub adding_to_master : Option ℕ
  pub new_sub_name : Text
  pub new_sub_desc : Text
  pub confirm_delete_id : Option ℕ
  pub show_restore_confirm : Bool
  pub restoring : Bool
  pub restore_success : Option ℕ

-- What the handlers send.
pub data Request : Type 0 where
  create : (name : Text) (description : Option Text) (parent_id : ℕ) → CategoryType → Request
  update : (id : ℕ) (name : Text) (description : Option Text) → Request
  remove : (id : ℕ) → Request
  restore : Request

abbrev pub request_failed : Text
request_failed = codes "Failed"

-- `s || null`
abbrev pub or_null : Text → Option Text
or_null [] = none
or_null (c ∷ s) = some (c ∷ s)

-- The `catch` of a handler, with the default of `extractErrorMessage` unless it gives its own.
abbrev pub with_error : Text → Thrown → Page → Page
unfolding extract_error_message
with_error fallback e p = record p { error = extract_error_message e fallback }

-- `await reload()` at the end of a `try`
abbrev pub and_reload : Text → Outcome (Option (List Category)) → Page → Page
unfolding with_error
and_reload fallback (fulfilled list) p = record p { categories = or_else list [] }
and_reload fallback (failed e) p = with_error fallback e p

-- A `try` whose request was refused, or goes on as `next` and loads the list.
abbrev pub attempt :
    Text → Option Thrown → Outcome (Option (List Category)) → (Page → Page) → Page → Page
unfolding with_error and_reload
attempt fallback (some e) list next p = with_error fallback e p
attempt fallback none list next p = and_reload fallback list (next p)

-- The type of the master, `"expense"` where the list does not have it.
abbrev pub type_of : Option Category → CategoryType
type_of none = expense
type_of (some c) = c.type

abbrev pub cleared_sub : Page → Page
cleared_sub p = record p { new_sub_name = []; new_sub_desc = []; adding_to_master = none }

abbrev pub add_to :
    Option Thrown → Outcome (Option (List Category)) → Option ℕ → Page → Page × Option Request
unfolding attempt find_category
add_to refused list none p = (p, none)
add_to refused list (some id) p = if id == 0 then (p, none) else (
  attempt request_failed refused list cleared_sub (record p { error = [] }),
  some
      (create p.new_sub_name (or_null p.new_sub_desc) id (type_of (find_category id p.categories))),
)

unfoldable pub handle_add_sub :
    Option Thrown → Outcome (Option (List Category)) → Page → Page × Option Request
unfolding add_to
handle_add_sub refused list p = add_to refused list p.adding_to_master p

unfoldable pub handle_edit_cat :
    Option Thrown → Outcome (Option (List Category)) → ℕ → Page → Page × Option Request
unfolding attempt trim
handle_edit_cat refused list id p = if is_empty (trim p.edit_cat_name) then (p, none) else (
  attempt request_failed refused list (λ q. record q { editing_cat_id = none })
      (record p { error = [] }),
  some (update id p.edit_cat_name (or_null (trim p.edit_cat_desc))),
)

unfoldable pub handle_delete :
    Option Thrown → Outcome (Option (List Category)) → ℕ → Page → Page × Option Request
unfolding attempt
handle_delete refused list id p = (
  attempt request_failed refused list (λ q. q) (record p { confirm_delete_id = none; error = [] }),
  some (remove id),
)

abbrev pub restore_failed : Text
restore_failed = codes "Failed to restore recommended categories"

-- The count that the server gives, 0 where it gives none.
abbrev pub restored : Outcome (Option ℕ) → Outcome (Option (List Category)) → Page → Page
unfolding attempt
restored (failed e) list p = attempt restore_failed (some e) list (λ q. q) p
restored (fulfilled count) list p =
    attempt restore_failed none list (λ q. record q { restore_success = some (or_else count 0) }) p

unfoldable pub handle_restore_recommended :
    Outcome (Option ℕ) → Outcome (Option (List Category)) → Page → Page × Option Request
unfolding restored
handle_restore_recommended count list p = (
  record (restored count list (record p {
    show_restore_confirm = false;
    restoring = true;
    error = [];
    restore_success = none;
  })) { restoring = false },
  some restore,
)

-- Whether Escape ends the edit mode: no dialog, form or drop is open.
unfoldable pub escape_exits :
    (edit_mode batch_move_open batch_delete_open has_pending_drag : Bool) → Page → Bool
escape_exits edit_mode batch_move_open batch_delete_open has_pending_drag p =
    edit_mode
    && (not (batch_move_open || (batch_delete_open || is_some p.confirm_delete_id))
        && (not (is_some p.editing_cat_id || is_some p.adding_to_master) && not has_pending_drag))
