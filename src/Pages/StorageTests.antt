-- ===== src/Pages/StorageTests.antt =====
-- Stored preferences at concrete inputs (frontend/lib/persisted-state.ts).
use pfv.Common.{◌≡◌, refl, true, false, some, List, [], ◌∷◌, All, inl, inr}
use pfv.Common.Int.{pos}
use pfv.Common.Json.{Json, str, num, obj, Fields, field, end}
use pfv.Common.Text.{codes, text_eq}
use pfv.Pages.Persisted.{Browser}
use pfv.Transactions.Listing.{asc, desc}
use pfv.Pages.SortHook.{
  StoredSort, sort_json, SortOptions, initial_sort, PersistedSort, set_sort, reset_sort,
}
use pfv.Pages.SortHook.Stored.{initial_sort-set_sort}
use pfv.Pages.FilterHook.{
  FilterOptions, initial_filters, Action, field_set, restored, opened, act_all,
}
use pfv.Pages.FilterHook.Typed.{IsFilters, IsTypedAction, act_all-IsFilters}

-- A storage that holds a text which no parser takes.
abbrev corrupted : Browser
corrupted = record {
  has_window = true;
  get_throws = false;
  set_throws = false;
  remove_throws = false;
  items = (codes "sort", codes "{") ∷ [];
}

abbrev options : SortOptions
options = record {
  parse = λ s. some (sort_json (record { sort_field = codes "amount"; sort_dir = asc }));
  stringify = λ v. some (codes "amount");
  key = codes "sort";
  default_sort = record { sort_field = codes "date"; sort_dir = desc };
  allowed_fields = some (codes "date" ∷ codes "amount" ∷ []);
}

abbrev by_amount : StoredSort
by_amount = record { sort_field = codes "amount"; sort_dir = asc }

abbrev by_date : PersistedSort
by_date = record { state = options.default_sort; browser = corrupted }

initial_sort-set_sort_example :
    let next = set_sort options by_amount by_date in
    (next.state ≡ by_amount)
    × (initial_sort options next.browser ≡ by_amount)
    × ((reset_sort options next).state ≡ options.default_sort)
    × (initial_sort options (reset_sort options next).browser ≡ options.default_sort)
initial_sort-set_sort_example =
    initial_sort-set_sort options by_amount (codes "amount") by_date refl refl refl refl refl refl
      (unfold text_eq in refl)

-- The filters of a list, and a storage with one unknown, one known and one nested value.
abbrev filter_defaults : Fields
filter_defaults = field (codes "account") (str []) (field (codes "status") (str (codes "all")) end)

abbrev stored_filters : Json
stored_filters = obj (
    field (codes "old") (str (codes "x"))
      (field (codes "account") (num (pos 4)) (field (codes "status") (obj end) end)))

abbrev filter_options : FilterOptions
filter_options = record {
  parse = λ s. some stored_filters;
  stringify = λ v. some (codes "json");
  key = codes "filters";
  defaults = filter_defaults;
}

abbrev filter_browser : Browser
filter_browser = record {
  has_window = true;
  get_throws = false;
  set_throws = false;
  remove_throws = false;
  items = (codes "filters", codes "json") ∷ [];
}

filters_shown :
    initial_filters filter_options filter_browser
    ≡ field (codes "account") (num (pos 4)) (field (codes "status") (str (codes "all")) end)
unfolding initial_filters
filters_shown = refl

abbrev filter_actions : List Action
filter_actions =
    field_set (codes "status") (str (codes "pending")) ∷ opened filter_browser ∷ restored ∷ []

filter_actions-IsTyped : All (IsTypedAction filter_defaults) filter_actions
unfolding text_eq
filter_actions-IsTyped = ((inr (inl refl), refl), (tt, (tt, tt)))

act_all-IsFilters_example :
    IsFilters filter_defaults
      (act_all filter_options filter_actions (record {
        filters = initial_filters filter_options filter_browser;
        browser = filter_browser;
      })).filters
act_all-IsFilters_example =
    act_all-IsFilters filter_options filter_browser filter_actions filter_actions-IsTyped
