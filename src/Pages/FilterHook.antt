-- ===== src/Pages/FilterHook.antt =====
-- usePersistedFilters of frontend/lib/hooks/use-persisted-filters.ts: the filters of a list, kept in
-- localStorage over frontend/lib/persisted-state.ts. JSON.parse and JSON.stringify are arguments.
pub mod Typed
use pfv.Common.{Bool, true, false, Option, none, some, List, [], ◌∷◌, if◌then◌else◌}
use pfv.Common.Text.{Text, text_eq}
use pfv.Common.Json.{Json, null, bool, num, str, arr, obj, Fields, end, field, lookup}
use pfv.Pages.Persisted.{Browser, read_persisted, write_persisted, clear_persisted}

-- What the hook is called with, and the platform's JSON.
pub record FilterOptions : Type 0 where
  pub parse : Text → Option Json
  pub stringify : Json → Option Text
  pub key : Text
  pub defaults : Fields

-- `null`, a string, a number or a boolean
abbrev pub is_primitive : Json → Bool
is_primitive (arr vs) = false
is_primitive (obj fs) = false
is_primitive _ = true

-- `incoming`, or the default where it is `undefined`, an object or an array
abbrev pub merged_value : Json → Option Json → Json
merged_value default none = default
merged_value default (some v) = if is_primitive v then v else default

-- The loop over the keys of the defaults.
unfoldable pub merged : Fields → Fields → Fields
unfolding lookup
merged end stored = end
merged (field k default fs) stored =
    field k (merged_value default (lookup k stored)) (merged fs stored)

-- `isPlainObject`, and the merge
abbrev pub merged_from : Fields → Json → Fields
unfolding merged
merged_from defaults (obj stored) = merged defaults stored
merged_from defaults _ = defaults

-- The state of the first render.
unfoldable pub initial_filters : FilterOptions → Browser → Fields
unfolding merged_from read_persisted
initial_filters o b = merged_from o.defaults (read_persisted o.parse o.key (obj o.defaults) none b)

-- `{ ...filters, [name]: value }`
unfoldable pub with_field : Text → Json → Fields → Fields
unfolding text_eq
with_field name value end = field name value end
with_field name value (field k v fs) =
    let rest = with_field name value fs in
    if text_eq k name then field k value fs else field k v rest

-- `{ ...prev, ...patch }`
unfoldable pub with_patch : Fields → Fields → Fields
unfolding with_field
with_patch end filters = filters
with_patch (field name value patch) filters = with_patch patch (with_field name value filters)

pub record PersistedFilters : Type 0 where
  pub filters : Fields
  pub browser : Browser

unfoldable pub set_filters : FilterOptions → Fields → PersistedFilters → PersistedFilters
unfolding with_patch write_persisted
set_filters o patch p =
    let next = with_patch patch p.filters in
    record { filters = next; browser = write_persisted o.stringify o.key (obj next) p.browser }

unfoldable pub set_field : FilterOptions → Text → Json → PersistedFilters → PersistedFilters
unfolding set_filters
set_field o name value p = set_filters o (field name value end) p

unfoldable pub reset_filters : FilterOptions → PersistedFilters → PersistedFilters
unfolding clear_persisted
reset_filters o p = record { filters = o.defaults; browser = clear_persisted o.key p.browser }

-- What happens to the filters: calls of the hook's functions, and a page that is opened anew with
-- whatever its storage holds by then.
pub data Action : Type 0 where
  patched : Fields → Action
  field_set : (name : Text) (value : Json) → Action
  restored : Action
  opened : Browser → Action

unfoldable pub act : FilterOptions → Action → PersistedFilters → PersistedFilters
unfolding set_filters set_field reset_filters initial_filters
act o (patched patch) p = set_filters o patch p
act o (field_set name value) p = set_field o name value p
act o restored p = reset_filters o p
act o (opened b) p = record { filters = initial_filters o b; browser = b }

unfoldable pub act_all : FilterOptions → List Action → PersistedFilters → PersistedFilters
unfolding act
act_all o [] p = p
act_all o (a ∷ actions) p = act_all o actions (act o a p)
