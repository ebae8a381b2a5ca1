-- ===== src/Categories/Listing.antt =====
-- The list of frontend/app/categories/page.tsx: its loading, its masters with their children, and the
-- search.
pub mod Children
use pfv.Common.{
  ℕ, Bool, true, false, ◌&&◌, ◌||◌, not, Option, none, some, List, [], ◌∷◌, ◌++◌, if◌then◌else◌,
  ◌==◌, any, filter_by, is_some, or_else,
}
use pfv.Common.Text.{Text, includes}
use pfv.Auth.Provider.{Outcome, fulfilled, failed}
use pfv.Categories.Rows.{Category, is_master}
use pfv.Categories.Deleting.Events.{is_empty}

pub record Listing : Type 0 where
  pub categories : List Category
  pub fetching : Bool
  pub refresh_error : Bool
  pub refreshing : Bool

-- `reload` with an answer; `data ?? []` has an absent list as `none`.
abbrev pub loaded : Option (List Category) → Listing → Listing
loaded answer l = record l { categories = or_else answer []; fetching = false }

-- The effect that loads the list once the session is there; a failure is not shown.
unfoldable pub first_load :
    (loading has_user : Bool) → Outcome (Option (List Category)) → Listing → Listing
first_load loading has_user (fulfilled answer) l =
    if not loading && has_user then loaded answer l else l
first_load loading has_user (failed e) l =
    if not loading && has_user then record l { fetching = false } else l

abbrev pub refreshed : Outcome (Option (List Category)) → Listing → Listing
refreshed (fulfilled answer) l = record (loaded answer l) {
  refresh_error = false;
  refreshing = false;
}
refreshed (failed e) l = record l { refresh_error = true; refreshing = false }

-- `refreshAfterTransactionAdded`
unfoldable pub refresh_after_transaction_added :
    (loading has_user : Bool) → Outcome (Option (List Category)) → Listing → Listing
refresh_after_transaction_added loading has_user list l =
    if loading || not has_user then l else refreshed list l

-- A `Map` from the id of a master to its children, in the order in which the ids came in.
abbrev pub ChildrenMap : Type 0
ChildrenMap = List (ℕ × List Category)

-- `map.get(id) ?? []`
unfoldable pub get : ℕ → ChildrenMap → List Category
get id [] = []
get id ((k, list) ∷ entries) = let rest = get id entries in if k == id then list else rest

-- `list.push(c); map.set(id, list)`
unfoldable pub push : ℕ → Category → ChildrenMap → ChildrenMap
push id c [] = (id, c ∷ []) ∷ []
push id c ((k, list) ∷ entries) =
    let rest = push id c entries in
    if k == id then (k, list ++ c ∷ []) ∷ entries else (k, list) ∷ rest

abbrev pub grouped : Category → Option ℕ → ChildrenMap → ChildrenMap
unfolding push
grouped c none m = m
grouped c (some p) m = push p c m

-- The loop that fills `childrenMap`.
unfoldable pub group : List Category → ChildrenMap → ChildrenMap
unfolding grouped
group [] m = m
group (c ∷ cs) m = group cs (grouped c c.parent_id m)

unfoldable pub all_masters : List Category → List Category
all_masters categories = filter_by is_master categories

unfoldable pub children_of : List Category → ℕ → List Category
unfolding group get
children_of categories id = get id (group categories [])

-- `masters`; `to_lower_case` is `s.toLowerCase()`.
abbrev pub is_found : (Text → Text) → List Category → Text → Category → Bool
unfolding children_of includes
is_found to_lower_case categories sq m =
    includes sq (to_lower_case m.name)
    || any (λ c. includes sq (to_lower_case c.name)) (children_of categories m.id)

unfoldable pub masters : (Text → Text) → Text → List Category → List Category
unfolding is_found all_masters
masters to_lower_case search categories =
    let sq = to_lower_case search in
    if is_empty sq
    then all_masters categories
    else filter_by (is_found to_lower_case categories sq) (all_masters categories)
