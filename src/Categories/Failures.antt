-- ===== src/Categories/Failures.antt =====
-- Why a subcategory could not be deleted or moved: `buildFailure` in
-- frontend/components/categories/BatchDeleteModal.tsx and `buildBatchErrorMessage` in
-- frontend/components/categories/BatchMoveModal.tsx.
use pfv.Common.{
  ℕ, either_of, ◌≡◌, refl, Option, none, some, List, [], ◌∷◌, ◌++◌, if◌then◌else◌, length,
}
use pfv.Common.Text.{Text, codes, text_eq}
use pfv.Common.Json.{Json, null, arr, items, member, as_string, obj}
use pfv.Api.Token.{Runtime}
use pfv.Api.Errors.{
  text_of, Thrown, api_timeout_error, api_response_error, error, not_error, extract_error_message,
}
use pfv.Pages.Moves.{message_or, is_code}
use pfv.Categories.Rows.{Category}

pub record FailureRow : Type 0 where
  pub category_id : ℕ
  pub category_name : Text
  pub reason : Text
  pub reason_code : Option Text

abbrev pub failure : Category → Text → Option Text → FailureRow
failure sub reason code = record {
  category_id = sub.id;
  category_name = sub.name;
  reason = reason;
  reason_code = code;
}

abbrev pub delete_failed : Text
delete_failed = codes "Delete failed"

-- `${value ?? fallback}`
abbrev pub shown : Runtime → Option Json → Text → Text
shown rt none fallback = fallback
shown rt (some null) fallback = fallback
shown rt (some v) fallback = text_of rt v

-- The names of the children; the backend sends an array, or leaves the field out.
abbrev child_names : Json → List Json
child_names d = elim (member (codes "child_names") d) [
  | none ↦ []
  | some v ↦ elim v [ arr xs ↦ items xs | _ ↦ [] ]
]

-- `detail.child_names?.[0] ?? "subcategory"`
abbrev sample : Runtime → List Json → Text
sample rt [] = codes "subcategory"
sample rt (v ∷ vs) = shown rt (some v) (codes "subcategory")

-- ` and ${more} other(s)`, where more than one child is named
abbrev and_others : (ℕ → Text) → List Json → Text
and_others decimal [] = []
and_others decimal (v ∷ []) = []
and_others decimal (v ∷ w ∷ []) = codes " and 1 other"
and_others decimal (v ∷ w ∷ x ∷ vs) =
    codes " and " ++ (decimal (length (w ∷ x ∷ vs)) ++ codes " others")

abbrev last_reason : Runtime → Json → Text
last_reason rt d =
    codes "Cannot delete the only "
    ++ (shown rt (member (codes "type") d) []
        ++ (codes " " ++ (shown rt (member (codes "scope") d) (codes "subcategory") ++ codes ".")))

abbrev children_reason : Runtime → (ℕ → Text) → List Json → Text
children_reason rt decimal children =
    codes "Has subcategories. Move or delete \""
    ++ (sample rt children ++ (codes "\"" ++ (and_others decimal children ++ codes " first.")))

abbrev mismatch_reason : Runtime → Json → Text
mismatch_reason rt d =
    codes "Migration target type "
    ++ (shown rt (member (codes "target_type") d) []
        ++ (codes " is not compatible with "
            ++ (shown rt (member (codes "source_type") d) (codes "source") ++ codes ".")))

abbrev collision_reason : Runtime → Category → Json → Text
collision_reason rt sub d =
    codes "Name collision: \""
    ++ (shown rt (member (codes "conflicting_child_name") d) sub.name
        ++ codes "\" already exists on the target.")

-- `typeof detail === "object" && detail !== null`
abbrev pub object_detail : Option Json → Option Json
object_detail none = none
object_detail (some v) = elim v [ obj fs ↦ some (obj fs) | arr xs ↦ some (arr xs) | _ ↦ none ]

-- What the structured detail says; `code` is its `detail`.
abbrev pub explained : Runtime → (ℕ → Text) → Category → Text → Option Text → Json → FailureRow
unfolding member
explained rt decimal sub fallback code d =
    if is_code (codes "last_in_type") code
    then failure sub (last_reason rt d) (some (codes "last_in_type"))
    else if is_code (codes "has_children") code
    then failure sub (children_reason rt decimal (child_names d)) (some (codes "has_children"))
    else if is_code (codes "type_mismatch") code
    then failure sub (mismatch_reason rt d) (some (codes "type_mismatch"))
    else if is_code (codes "name_collision") code
    then failure sub (collision_reason rt sub d) (some (codes "name_collision"))
    else if is_code (codes "migration_target_required") code
    then failure sub (codes "Migration target required.") (some (codes "migration_target_required"))
    else failure sub fallback none

abbrev described : Runtime → (ℕ → Text) → Category → Text → Option Json → FailureRow
unfolding explained
described rt decimal sub fallback none = failure sub fallback none
described rt decimal sub fallback (some d) =
    explained rt decimal sub fallback (as_string (member (codes "detail") d)) d

unfoldable pub build_failure : Runtime → (ℕ → Text) → Category → Thrown → FailureRow
unfolding described text_eq extract_error_message
build_failure rt decimal sub (api_response_error e) =
    described rt decimal sub (message_or e.message delete_failed) (object_detail e.detail)
build_failure rt decimal sub e = failure sub (extract_error_message e delete_failed) none

explained-category_id :
    (rt : Runtime) (decimal : ℕ → Text) (sub : Category) (fallback : Text) (code : Option Text)
    (d : Json)
    → (explained rt decimal sub fallback code d).category_id ≡ sub.id
unfolding explained
explained-category_id rt decimal sub fallback code d =
    let P : FailureRow → Type 0 = λ f. f.category_id ≡ sub.id in
    either_of P (is_code (codes "last_in_type") code) refl (
      either_of P (is_code (codes "has_children") code) refl (
        either_of P (is_code (codes "type_mismatch") code) refl (
          either_of P (is_code (codes "name_collision") code) refl
            (either_of P (is_code (codes "migration_target_required") code) refl refl))))

described-category_id :
    (rt : Runtime) (decimal : ℕ → Text) (sub : Category) (fallback : Text) (o : Option Json)
    → (described rt decimal sub fallback o).category_id ≡ sub.id
unfolding described
described-category_id rt decimal sub fallback none = refl
described-category_id rt decimal sub fallback (some d) =
    explained-category_id rt decimal sub fallback (as_string (member (codes "detail") d)) d

-- The failure names the subcategory.
pub build_failure-category_id :
    (rt : Runtime) (decimal : ℕ → Text) (sub : Category) (e : Thrown)
    → (build_failure rt decimal sub e).category_id ≡ sub.id
unfolding build_failure
build_failure-category_id rt decimal sub api_timeout_error = refl
build_failure-category_id rt decimal sub (error message) = refl
build_failure-category_id rt decimal sub not_error = refl
build_failure-category_id rt decimal sub (api_response_error e) =
    described-category_id rt decimal sub (message_or e.message delete_failed)
      (object_detail e.detail)
