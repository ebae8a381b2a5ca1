-- ===== src/Categories/Moving/Confirm.antt =====
-- The confirmation of the move dialog (frontend/components/categories/BatchMoveModal.tsx) and what the
-- page does with it (frontend/app/categories/page.tsx).
use pfv.Common.{
  ℕ, Bool, true, false, Option, none, some, List, [], ◌∷◌, ◌++◌, if◌then◌else◌, ◌==◌, is_some,
  length,
}
use pfv.Common.Text.{Text, codes, text_eq}
use pfv.Common.Json.{Json, member, truthy, as_string}
use pfv.Api.Token.{Runtime}
use pfv.Api.Errors.{
  Thrown, api_response_error, not_error, extract_error_message, ApiResponseError, text_of,
}
use pfv.Auth.Provider.{Outcome, fulfilled, failed}
use pfv.Pages.Moves.{message_or, is_code}
use pfv.Categories.Rows.{Category, selected_subs}
use pfv.Categories.Failures.{object_detail}

-- The state of the dialog and the part of the page's state that it reads or writes.
pub record Page : Type 0 where
  pub categories : List Category
  pub edit_mode : Bool
  pub selected_ids : List ℕ
  pub is_open : Bool
  pub target_id : Option ℕ
  pub submitting : Bool
  pub submit_error : Text
  pub refresh_error : Text

-- The body of the one request: each subcategory with the target.
abbrev pub Moves : Type 0
Moves = List (ℕ × ℕ)

abbrev pub moves_to : ℕ → List Category → Moves
moves_to t [] = []
moves_to t (s ∷ subs) = (s.id, t) ∷ moves_to t subs

-- The counts of the income and expense rows that depend on the subcategory, as the backend sends them.
abbrev breakdown : Runtime → Option Json → Text
breakdown rt none = []
breakdown rt (some b) =
    codes " ("
    ++ (counted (member (codes "income") b)
        ++ (codes " income, " ++ (counted (member (codes "expense") b) ++ codes " expense)")))
  where
    counted : Option Json → Text
    counted none = codes "undefined"
    counted (some v) = text_of rt v

abbrev collision : Runtime → Json → Text
collision rt child =
    codes "Target master already has a subcategory named \""
    ++ (text_of rt child ++ codes "\". Rename one before moving.")

abbrev mismatch : Runtime → Json → Text
mismatch rt d =
    codes "Type mismatch"
    ++ (breakdown rt (truthy (member (codes "dependent_breakdown") d))
        ++ codes ". Pick a target compatible with the selected subcategories.")

-- `err.message || …`
abbrev move_failed : (ℕ → Text) → List Category → Text
move_failed decimal subs =
    codes "Move failed for "
    ++ (decimal (length subs)
        ++ (codes " subcategor"
            ++ ((if length subs == 1 then codes "y" else codes "ies") ++ codes ".")))

abbrev explained : Runtime → Text → Option Text → Option Json → Json → Text
explained rt fallback code (some child) d =
    if is_code (codes "name_collision") code
    then collision rt child
    else if is_code (codes "type_mismatch") code
    then mismatch rt d
    else fallback
explained rt fallback code none d =
    if is_code (codes "type_mismatch") code then mismatch rt d else fallback

abbrev batch_message : Runtime → Text → Option Json → Text
batch_message rt fallback none = fallback
batch_message rt fallback (some d) =
    explained rt fallback (as_string (member (codes "detail") d))
      (truthy (member (codes "conflicting_child_name") d)) d

unfoldable pub build_batch_error_message :
    Runtime → (ℕ → Text) → ApiResponseError → List Category → Text
unfolding member truthy text_eq
build_batch_error_message rt decimal e subs =
    batch_message rt (message_or e.message (move_failed decimal subs)) (object_detail e.detail)

-- `err instanceof ApiResponseError && err.detail`
unfoldable pub submit_message : Runtime → (ℕ → Text) → Thrown → List Category → Text
unfolding build_batch_error_message truthy extract_error_message
submit_message rt decimal (api_response_error e) subs =
    if is_some (truthy e.detail)
    then build_batch_error_message rt decimal e subs
    else extract_error_message (api_response_error e) (codes "Move failed")
submit_message rt decimal e subs = extract_error_message e (codes "Move failed")

abbrev pub refresh_failed : Thrown → Text
unfolding extract_error_message
refresh_failed not_error = codes "Move succeeded but the page failed to refresh."
refresh_failed e =
    codes "Move succeeded but the page failed to refresh: " ++ extract_error_message e []

-- `runRefresh`: the reload, the end of the edit mode, and the reset of the dialog that it closes.
unfoldable pub run_refresh : Outcome (List Category) → Page → Page
unfolding refresh_failed
run_refresh (fulfilled categories) p = record {
  categories = categories;
  edit_mode = false;
  selected_ids = [];
  is_open = false;
  target_id = none;
  submitting = false;
  submit_error = [];
  refresh_error = [];
}
run_refresh (failed e) p = record p { refresh_error = refresh_failed e }

abbrev pub confirmed : Runtime → (ℕ → Text) → Option Thrown → Outcome (List Category) → Page → Page
unfolding run_refresh submit_message selected_subs
confirmed rt decimal none list p = run_refresh list p
confirmed rt decimal (some e) list p = record p {
  submit_error = submit_message rt decimal e (selected_subs p.categories p.selected_ids);
}

abbrev pub confirm_to :
    Runtime
    → (ℕ → Text)
    → Option Thrown
    → Outcome (List Category)
    → Option ℕ
    → Page
    → Page × Option Moves
unfolding confirmed selected_subs
confirm_to rt decimal refused list none p = (p, none)
confirm_to rt decimal refused list (some t) p = (
  record (confirmed rt decimal refused list
      (record p { submitting = true; submit_error = []; refresh_error = [] })) {
        submitting = false;
      },
  some (moves_to t (selected_subs p.categories p.selected_ids)),
)

-- `handleConfirm`, with what the POST and the reload come to.
unfoldable pub handle_confirm :
    Runtime → (ℕ → Text) → Option Thrown → Outcome (List Category) → Page → Page × Option Moves
unfolding confirm_to
handle_confirm rt decimal refused list p = confirm_to rt decimal refused list p.target_id p
