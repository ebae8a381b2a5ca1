-- ===== src/Categories/Moving.antt =====
-- The dialog that moves the selected subcategories to another master
-- (frontend/components/categories/BatchMoveModal.tsx).
pub mod Candidates
pub mod Confirm
use pfv.Common.{
  ℕ, ◌+◌, Bool, true, false, ◌&&◌, ◌||◌, not, Option, none, some, List, [], ◌∷◌, ◌++◌,
  if◌then◌else◌, ◌==◌, all, any, filter_by, is_some, length,
}
use pfv.Common.Text.{Text, codes, trim, includes}
use pfv.Common.Json.{Json, member, truthy, as_string}
use pfv.Api.Token.{Runtime}
use pfv.Api.Errors.{
  Thrown, api_timeout_error, api_response_error, error, not_error, extract_error_message,
  ApiResponseError, text_of,
}
use pfv.Auth.Provider.{Outcome, fulfilled, failed}
use pfv.Pages.Moves.{CategoryType, income, expense, both, same_type, message_or, is_code}
use pfv.Categories.Rows.{Category, has_id, is_master, selected_subs, ids_of}
use pfv.Categories.Failures.{object_detail, shown}
use pfv.Categories.Deleting.Events.{is_empty}

-- What the dialog is opened with, and its own `filter`. `to_lower_case` is `s.toLowerCase()`.
pub record View : Type 0 where
  pub to_lower_case : Text → Text
  pub categories : List Category
  pub selected_ids : List ℕ
  pub filter : Text

-- `new Set(selectedSubs.map((s) => s.type))`
abbrev pub add_type : CategoryType → List CategoryType → List CategoryType
add_type t ts = if any (same_type t) ts then ts else ts ++ t ∷ []

unfoldable pub types_from : List CategoryType → List Category → List CategoryType
types_from ts [] = ts
types_from ts (s ∷ subs) = types_from (add_type s.type ts) subs

abbrev pub selected_types : List Category → List CategoryType
unfolding types_from
selected_types subs = types_from [] subs

-- The type of a set that has one, `none` where it has none or several.
abbrev pub sole_of : List CategoryType → Option CategoryType
sole_of [] = none
sole_of (t ∷ []) = some t
sole_of (t ∷ u ∷ ts) = none

abbrev pub is_mixed : List CategoryType → Bool
is_mixed [] = false
is_mixed (t ∷ []) = false
is_mixed (t ∷ u ∷ ts) = true

unfoldable pub mixed_selection : View → Bool
unfolding types_from selected_subs
mixed_selection v = is_mixed (selected_types (selected_subs v.categories v.selected_ids))

unfoldable pub sole_type : View → Option CategoryType
unfolding types_from selected_subs
sole_type v = sole_of (selected_types (selected_subs v.categories v.selected_ids))

abbrev pub is_parent_of : ℕ → Category → Bool
is_parent_of id s = elim s.parent_id [ none ↦ false | some p ↦ p == id ]

-- `sourceParentIds.has(id)`
unfoldable pub is_source_parent : View → ℕ → Bool
unfolding selected_subs
is_source_parent v id = any (is_parent_of id) (selected_subs v.categories v.selected_ids)

unfoldable pub matches_filter : View → Category → Bool
unfolding trim includes
matches_filter v m =
    let sq = v.to_lower_case (trim v.filter) in is_empty sq || includes sq (v.to_lower_case m.name)

abbrev pub masters_of_type : List Category → CategoryType → List Category
masters_of_type categories t = filter_by (λ c. same_type c.type t) (filter_by is_master categories)

abbrev pub compat_of : View → Option CategoryType → List Category
unfolding matches_filter
compat_of v none = []
compat_of v (some t) = filter_by (matches_filter v) (masters_of_type v.categories t)

unfoldable pub type_compat_masters : View → List Category
unfolding mixed_selection sole_type compat_of
type_compat_masters v = if mixed_selection v then [] else compat_of v (sole_type v)

unfoldable pub candidate_masters : View → List Category
unfolding type_compat_masters is_source_parent
candidate_masters v = filter_by (λ m. not (is_source_parent v m.id)) (type_compat_masters v)

abbrev pub all_sources : View → List Category → Bool
unfolding is_source_parent
all_sources v [] = false
all_sources v (m ∷ ms) = all (λ c. is_source_parent v c.id) (m ∷ ms)

abbrev pub sources_of : View → Option CategoryType → Bool
unfolding all_sources
sources_of v none = false
sources_of v (some t) = all_sources v (masters_of_type v.categories t)

unfoldable pub all_compat_are_sources : View → Bool
unfolding mixed_selection sole_type sources_of trim
all_compat_are_sources v =
    if mixed_selection v
    then false
    else if not (is_empty (trim v.filter))
    then false
    else sources_of v (sole_type v)

-- The preview of one move, and that of all moves.
pub record MoveResult : Type 0 where
  pub affected_transaction_count : ℕ
  pub affected_recurring_count : ℕ
  pub affected_forecast_item_count : ℕ
  pub budget_actuals_shifted : Bool

pub record PreviewAggregate : Type 0 where
  pub transactions : ℕ
  pub recurring : ℕ
  pub forecast : ℕ
  pub budget_actuals_shifted : Bool

abbrev pub no_preview : PreviewAggregate
no_preview = record {
  transactions = 0;
  recurring = 0;
  forecast = 0;
  budget_actuals_shifted = false;
}

unfoldable pub aggregate : List MoveResult → PreviewAggregate → PreviewAggregate
aggregate [] agg = agg
aggregate (r ∷ rs) agg = aggregate rs (record {
  transactions = agg.transactions + r.affected_transaction_count;
  recurring = agg.recurring + r.affected_recurring_count;
  forecast = agg.forecast + r.affected_forecast_item_count;
  budget_actuals_shifted = agg.budget_actuals_shifted || r.budget_actuals_shifted;
})
