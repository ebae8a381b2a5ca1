-- ===== src/Pages/SortHook.antt =====
-- usePersistedSort of frontend/lib/hooks/use-persisted-sort.ts: the sort of a list, kept in
-- localStorage over frontend/lib/persisted-state.ts. JSON.parse and JSON.stringify are arguments.
pub mod Stored
use pfv.Common.{
  Bool, true, false, ◌&&◌, Option, none, some, List, [], ◌∷◌, if◌then◌else◌, any, is_some,
}
use pfv.Common.Text.{Text, codes, text_eq}
use pfv.Common.Json.{Json, str, obj, end, field, member, as_string}
use pfv.Transactions.Listing.{SortDir, asc, desc}
use pfv.Pages.Persisted.{Browser, read_persisted, write_persisted, clear_persisted}

pub record StoredSort : Type 0 where
  pub sort_field : Text
  pub sort_dir : SortDir

abbrev pub dir_name : SortDir → Text
dir_name asc = codes "asc"
dir_name desc = codes "desc"

-- `v.dir === "asc" || v.dir === "desc"`
unfoldable pub dir_of : Text → Option SortDir
unfolding text_eq
dir_of s =
    if text_eq s (codes "asc")
    then some asc
    else if text_eq s (codes "desc")
    then some desc
    else none

abbrev pub named_dir : Option Text → Option SortDir
named_dir none = none
named_dir (some s) = dir_of s

abbrev pub sort_with : Option Text → Option SortDir → Option StoredSort
sort_with (some name) (some dir) = some (record { sort_field = name; sort_dir = dir })
sort_with _ _ = none

-- The sort that a value holds, where it holds one.
unfoldable pub stored_sort : Json → Option StoredSort
unfolding member dir_of
stored_sort v =
    sort_with (as_string (member (codes "field") v))
      (named_dir (as_string (member (codes "dir") v)))

unfoldable pub is_stored_sort : Json → Bool
unfolding stored_sort
is_stored_sort v = is_some (stored_sort v)

abbrev pub sort_json : StoredSort → Json
sort_json s =
    obj (
      field (codes "field") (str s.sort_field)
        (field (codes "dir") (str (dir_name s.sort_dir)) end))

-- What the hook is called with, and the platform's JSON.
pub record SortOptions : Type 0 where
  pub parse : Text → Option Json
  pub stringify : Json → Option Text
  pub key : Text
  pub default_sort : StoredSort
  pub allowed_fields : Option (List Text)

abbrev pub is_allowed : Option (List Text) → Text → Bool
is_allowed none name = true
is_allowed (some names) name = any (text_eq name) names

abbrev pub sort_or : StoredSort → Option StoredSort → StoredSort
sort_or default none = default
sort_or default (some s) = s

-- A field that is not on the list is dropped with its direction.
abbrev pub allowed_or : SortOptions → StoredSort → StoredSort
allowed_or o s = if is_allowed o.allowed_fields s.sort_field then s else o.default_sort

-- The state of the first render.
unfoldable pub initial_sort : SortOptions → Browser → StoredSort
unfolding stored_sort text_eq
initial_sort o b = allowed_or o (
    sort_or o.default_sort (
      stored_sort
        (read_persisted o.parse o.key (sort_json o.default_sort) (some is_stored_sort) b)))

pub record PersistedSort : Type 0 where
  pub state : StoredSort
  pub browser : Browser

unfoldable pub set_sort : SortOptions → StoredSort → PersistedSort → PersistedSort
unfolding write_persisted
set_sort o s p = record {
  state = s;
  browser = write_persisted o.stringify o.key (sort_json s) p.browser;
}

unfoldable pub reset_sort : SortOptions → PersistedSort → PersistedSort
unfolding clear_persisted
reset_sort o p = record { state = o.default_sort; browser = clear_persisted o.key p.browser }
