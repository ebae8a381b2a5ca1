-- ===== src/Pages/Moves.antt =====
-- frontend/components/categories/dragMoveHelpers.ts: what a drop of a subcategory on a master category
-- means, read from the untyped data of the drag, and the message when the move fails.
pub mod Drops
use pfv.Common.{
  ℕ, Bool, true, false, ◌||◌, not, Option, none, some, List, [], ◌∷◌, ◌++◌, if◌then◌else◌, ◌==◌,
}
use pfv.Common.Int.{ℤ, pos, negsuc}
use pfv.Common.Text.{Text, codes, text_eq}
use pfv.Common.Json.{Json, null, bool, num, str, arr, obj, member, truthy, as_string, as_number}
use pfv.Api.Token.{Runtime}
use pfv.Api.Errors.{
  text_of, Thrown, api_timeout_error, api_response_error, error, not_error, timed_out,
}

pub data CategoryType : Type 0 where
  income expense both : CategoryType

pub record SubcategoryDragData : Type 0 where
  pub subcategory_id : ℤ
  pub subcategory_name : Text
  pub subcategory_type : CategoryType
  pub parent_id : ℤ

pub record MasterDropData : Type 0 where
  pub master_id : ℤ
  pub master_type : CategoryType

pub data DropClassification : Type 0 where
  valid source_parent cross_type : SubcategoryDragData → MasterDropData → DropClassification
  no_drop wrong_kind : DropClassification

abbrev pub type_named : Text → Option CategoryType
type_named s =
    if text_eq s (codes "income")
    then some income
    else if text_eq s (codes "expense")
    then some expense
    else if text_eq s (codes "both")
    then some both
    else none

-- A field that is one of the three types.
unfoldable pub as_type : Option Json → Option CategoryType
unfolding text_eq
as_type (some (str s)) = type_named s
as_type _ = none

abbrev pub has_kind : Text → Json → Bool
has_kind kind v = elim (as_string (member (codes "kind") v)) [
  | none ↦ false
  | some k ↦ text_eq k kind
]

abbrev subcategory_of :
    Option ℤ → Option Text → Option CategoryType → Option ℤ → Option SubcategoryDragData
subcategory_of (some id) (some name) (some type) (some parent) = some (record {
  subcategory_id = id;
  subcategory_name = name;
  subcategory_type = type;
  parent_id = parent;
})
subcategory_of _ _ _ _ = none

unfoldable pub as_subcategory_data : Json → Option SubcategoryDragData
unfolding member as_type
as_subcategory_data v =
    if has_kind (codes "subcategory") v
    then subcategory_of (as_number (member (codes "subcategoryId") v))
        (as_string (member (codes "subcategoryName") v))
        (as_type (member (codes "subcategoryType") v)) (as_number (member (codes "parentId") v))
    else none

abbrev master_of : Option ℤ → Option CategoryType → Option MasterDropData
master_of (some id) (some type) = some (record { master_id = id; master_type = type })
master_of _ _ = none

unfoldable pub as_master_data : Json → Option MasterDropData
unfolding member as_type
as_master_data v =
    if has_kind (codes "master") v
    then master_of (as_number (member (codes "masterId") v))
        (as_type (member (codes "masterType") v))
    else none

abbrev pub same_id : ℤ → ℤ → Bool
same_id (pos m) (pos n) = m == n
same_id (negsuc m) (negsuc n) = m == n
same_id _ _ = false

abbrev pub same_type : CategoryType → CategoryType → Bool
same_type income income = true
same_type expense expense = true
same_type both both = true
same_type _ _ = false

-- `target.masterId === sub.parentId`, then the types.
abbrev pub classify : Option SubcategoryDragData → Option MasterDropData → DropClassification
classify (some sub) (some target) =
    if same_id target.master_id sub.parent_id
    then source_parent sub target
    else if not (same_type target.master_type sub.subcategory_type)
    then cross_type sub target
    else valid sub target
classify _ _ = wrong_kind

abbrev defined : (Json → Option SubcategoryDragData) → Option Json → Option SubcategoryDragData
defined read none = none
defined read (some v) = read v

-- `undefined` is `none`; `null` below the pointer is no drop either.
unfoldable pub classify_drop : Option Json → Option Json → DropClassification
unfolding as_subcategory_data as_master_data
classify_drop active none = no_drop
classify_drop active (some null) = no_drop
classify_drop active (some over) =
    classify (defined as_subcategory_data active) (as_master_data over)

-- `err.message || …`
abbrev pub message_or : Text → Text → Text
message_or [] fallback = fallback
message_or (c ∷ s) fallback = c ∷ s

abbrev pub move_failed : Text → Text
move_failed sub_name = codes "Move failed for \"" ++ (sub_name ++ codes "\".")

abbrev cannot_move : Text → Text → Text
cannot_move sub_name target_name =
    codes "Cannot move \"" ++ (sub_name ++ (codes "\" to \"" ++ (target_name ++ codes "\": ")))

abbrev collision : Text → Text → Text → Text
collision sub_name target_name child =
    cannot_move sub_name target_name
    ++ (codes "a subcategory named \""
        ++ (child ++ codes "\" already exists there. Rename one before moving."))

abbrev mismatch : Text → Text → Text
mismatch sub_name target_name = cannot_move sub_name target_name ++ codes "types are incompatible."

-- `detail.detail === code`
abbrev pub is_code : Text → Option Text → Bool
is_code code none = false
is_code code (some d) = text_eq d code

abbrev or_reason : Option Text → Text → Text
or_reason none fallback = fallback
or_reason (some d) fallback = codes "Move failed: " ++ d

-- The structured detail: its code, and the name of the child that is in the way.
abbrev pub explain : Runtime → Text → Text → Option Text → Option Json → Text → Text
explain rt sub_name target_name code (some child) fallback =
    if is_code (codes "name_collision") code
    then collision sub_name target_name (text_of rt child)
    else if is_code (codes "type_mismatch") code
    then mismatch sub_name target_name
    else or_reason code fallback
explain rt sub_name target_name code none fallback =
    if is_code (codes "type_mismatch") code
    then mismatch sub_name target_name
    else or_reason code fallback

-- A detail that is no object, or has no `detail`, leaves the error's own message.
unfoldable pub build_move_error_message : Runtime → Thrown → Text → Text → Text
unfolding member truthy text_eq
build_move_error_message rt api_timeout_error sub_name target_name = timed_out
build_move_error_message rt (error message) sub_name target_name =
    message_or message (move_failed sub_name)
build_move_error_message rt not_error sub_name target_name = move_failed sub_name
build_move_error_message rt (api_response_error e) sub_name target_name =
    let fallback = message_or e.message (move_failed sub_name) in
    elim e.detail [
      | none ↦ fallback
      | some d ↦
          explain rt sub_name target_name (as_string (member (codes "detail") d))
            (truthy (member (codes "conflicting_child_name") d)) fallback
    ]
