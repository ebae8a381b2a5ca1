-- ===== src/Pages/Moves/Drops.antt =====
-- When a drop moves a subcategory (frontend/components/categories/dragMoveHelpers.ts).
use pfv.Common.{
  ap, sym, ◌∙◌, ◌≡◌, ◌≢◌, refl, arith, true, false, Option, none, some, [], ◌∷◌, if◌then◌else◌,
  Bool-cases, inl, inr,
}
use pfv.Common.Int.{ℤ, pos, negsuc}
use pfv.Common.Text.{Text, codes, text_eq}
use pfv.Common.Json.{
  Json, null, bool, num, str, arr, obj, field, end, lookup, member, truthy, as_string,
}
use pfv.Api.Token.{Runtime}
use pfv.Api.Errors.{Thrown, timed_out, api_timeout_error, api_response_error, error, not_error}
use pfv.Pages.Moves.{
  CategoryType, income, expense, both, SubcategoryDragData, MasterDropData, valid, source_parent,
  cross_type, as_type, as_subcategory_data, as_master_data, same_id, same_type, classify,
  classify_drop, explain, message_or, move_failed, build_move_error_message,
}

abbrev pub type_name : CategoryType → Text
type_name income = codes "income"
type_name expense = codes "expense"
type_name both = codes "both"

-- The data that a chip and a master row attach to a drag.
abbrev pub subcategory_json : SubcategoryDragData → Json
subcategory_json s = obj (
    field (codes "kind") (str (codes "subcategory")) (
      field (codes "subcategoryId") (num s.subcategory_id) (
        field (codes "subcategoryName") (str s.subcategory_name) (
          field (codes "subcategoryType") (str (type_name s.subcategory_type))
            (field (codes "parentId") (num s.parent_id) end)))))

abbrev pub master_json : MasterDropData → Json
master_json t = obj (
    field (codes "kind") (str (codes "master")) (
      field (codes "masterId") (num t.master_id)
        (field (codes "masterType") (str (type_name t.master_type)) end)))

as_type-type_name : (t : CategoryType) → as_type (some (str (type_name t))) ≡ some t
unfolding as_type
as_type-type_name income = refl
as_type-type_name expense = refl
as_type-type_name both = refl

as_subcategory_data-subcategory_json :
    (s : SubcategoryDragData) → as_subcategory_data (subcategory_json s) ≡ some s
unfolding as_subcategory_data lookup text_eq
as_subcategory_data-subcategory_json s = rw (as_type-type_name s.subcategory_type) refl

as_master_data-master_json : (t : MasterDropData) → as_master_data (master_json t) ≡ some t
unfolding as_master_data lookup text_eq
as_master_data-master_json t = rw (as_type-type_name t.master_type) refl

same_id_iff : (a b : ℤ) → same_id a b ≡ true → a ≡ b
same_id_iff (pos m) (pos n) h = ground (arith, h)
same_id_iff (negsuc m) (negsuc n) h = ground (arith, h)
same_id_iff (pos m) (negsuc n) h = cc
same_id_iff (negsuc m) (pos n) h = cc

-- Data that a chip and a row attach is read back whole: dropping on the parent it has is no move,
-- dropping on a master of another type is refused, and every other drop is valid.
pub classify_drop-json :
    (s : SubcategoryDragData) (t : MasterDropData)
    → classify_drop (some (subcategory_json s)) (some (master_json t)) ≡ (
        if same_id t.master_id s.parent_id
        then source_parent s t
        else if same_type t.master_type s.subcategory_type
        then valid s t
        else cross_type s t)
unfolding classify_drop
classify_drop-json s t =
    rw (as_subcategory_data-subcategory_json s, as_master_data-master_json t) (ground arith)

same_id_refl : (a : ℤ) → same_id a a ≡ true
same_id_refl (pos n) = ground arith
same_id_refl (negsuc n) = ground arith

same_type_iff : (a b : CategoryType) → same_type a b ≡ true → a ≡ b
same_type_iff a b h = ground arith

other_id : (a b : ℤ) → same_id a b ≡ false → a ≢ b
other_id a b h e = let r = same_id_refl b in cc

-- What a classification as a valid move rests on.
abbrev pub IsMove : Json → Json → SubcategoryDragData → MasterDropData → Type 0
IsMove active over s t =
    (as_subcategory_data active ≡ some s)
    × (as_master_data over ≡ some t)
    × (t.master_id ≢ s.parent_id)
    × (t.master_type ≡ s.subcategory_type)

classify-valid :
    (a : Option SubcategoryDragData) (o : Option MasterDropData) (s : SubcategoryDragData)
    (t : MasterDropData)
    → classify a o ≡ valid s t
    → (a ≡ some s)
      × (o ≡ some t)
      × (t.master_id ≢ s.parent_id)
      × (t.master_type ≡ s.subcategory_type)
classify-valid none o s t h = cc
classify-valid (some a) none s t h = cc
classify-valid (some a) (some o) s t h = elim (Bool-cases (same_id o.master_id a.parent_id)) [
  | inl same ↦ absurd (ground (arith, same))
  | inr other ↦ elim (Bool-cases (same_type o.master_type a.subcategory_type)) [
    | inl equal ↦
        let e : valid a o ≡ valid s t = ground (arith, other, equal) in
        let a_is_s : a ≡ s = cc in
        let o_is_t : o ≡ t = cc in
        (
          cc,
          cc,
          λ i.
              other_id o.master_id a.parent_id other
                (ap (λ u. u.master_id) o_is_t ∙ i ∙ sym (ap (λ u. u.parent_id) a_is_s)),
          sym (ap (λ u. u.master_type) o_is_t)
              ∙ same_type_iff _ _ equal
              ∙ ap (λ u. u.subcategory_type) a_is_s,
        )
    | inr differ ↦ absurd (ground (arith, other, differ))
  ]
]

-- Whatever the data of the drag holds, a drop is a valid move only where both sides read as what they
-- should be, the target is not the parent already, and the types agree.
pub classify_drop-IsMove :
    (active over : Json) (s : SubcategoryDragData) (t : MasterDropData)
    → classify_drop (some active) (some over) ≡ valid s t
    → IsMove active over s t
unfolding classify_drop
classify_drop-IsMove active over s t h = over_IsMove over h
  where
    over_IsMove :
        (over : Json) → classify_drop (some active) (some over) ≡ valid s t → IsMove active over s t
    over_IsMove null h = cc
    over_IsMove (bool b) h =
        classify-valid (as_subcategory_data active) (as_master_data (bool b)) s t h
    over_IsMove (num n) h =
        classify-valid (as_subcategory_data active) (as_master_data (num n)) s t h
    over_IsMove (str x) h =
        classify-valid (as_subcategory_data active) (as_master_data (str x)) s t h
    over_IsMove (arr vs) h =
        classify-valid (as_subcategory_data active) (as_master_data (arr vs)) s t h
    over_IsMove (obj fs) h =
        classify-valid (as_subcategory_data active) (as_master_data (obj fs)) s t h

message_or-shows : (message fallback : Text) → fallback ≢ [] → message_or message fallback ≢ []
message_or-shows [] fallback h = h
message_or-shows (c ∷ s) fallback h = λ e. cc

move_failed-shows : (sub_name : Text) → move_failed sub_name ≢ []
move_failed-shows sub_name h = cc

explain-shows :
    (rt : Runtime) (sub_name target_name : Text) (code : Option Text) (child : Option Json)
    (fallback : Text)
    → fallback ≢ []
    → explain rt sub_name target_name code child fallback ≢ []
explain-shows rt sub_name target_name code child fallback h e = ground (arith, h, e)

-- A failed move always has a message to show, also where the error has an empty one.
pub build_move_error_message-shows :
    (rt : Runtime) (err : Thrown) (sub_name target_name : Text)
    → build_move_error_message rt err sub_name target_name ≢ []
unfolding build_move_error_message
build_move_error_message-shows rt api_timeout_error sub_name target_name =
    unfold timed_out in λ h. cc
build_move_error_message-shows rt (error message) sub_name target_name =
    message_or-shows message _ (move_failed-shows sub_name)
build_move_error_message-shows rt not_error sub_name target_name = λ h. cc
build_move_error_message-shows rt (api_response_error e) sub_name target_name =
    detail_shows e.detail
  where
    own_shows : message_or e.message (move_failed sub_name) ≢ []
    own_shows = message_or-shows e.message (move_failed sub_name) (move_failed-shows sub_name)

    detail_shows :
        (d : Option Json)
        → build_move_error_message rt
            (api_response_error (record e { detail = d }))
            sub_name
            target_name
          ≢ []
    detail_shows none = own_shows
    detail_shows (some d) =
        explain-shows rt sub_name target_name (as_string (member (codes "detail") d))
          (truthy (member (codes "conflicting_child_name") d))
          (message_or e.message (move_failed sub_name)) own_shows
