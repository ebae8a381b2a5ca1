-- ===== src/Pages/FilterHook/Typed.antt =====
-- The shape of the filters that frontend/lib/hooks/use-persisted-filters.ts returns.
use pfv.Common.{
  ◌≡◌, refl, ◌⊎◌, inl, inr, true, false, Option, none, some, List, [], ◌∷◌, Bool-cases, All,
}
use pfv.Common.Text.{Text, text_eq}
use pfv.Common.Json.{Json, null, bool, num, str, arr, obj, Fields, end, field, lookup}
use pfv.Pages.Persisted.{Browser, read_persisted}
use pfv.Pages.FilterHook.{
  FilterOptions, is_primitive, merged_value, merged, merged_from, initial_filters, with_field,
  with_patch, PersistedFilters, set_filters, set_field, reset_filters, Action, patched, field_set,
  restored, opened, act, act_all,
}

-- The value is the default or a primitive one.
abbrev pub IsValue : Json → Json → Type 0
IsValue default v = (v ≡ default) ⊎ (is_primitive v ≡ true)

-- The keys of the defaults in their order, each with such a value.
abbrev pub IsFilters : Fields → Fields → Type 0
IsFilters end end = Unit
IsFilters end (field k v fs) = ⊥
IsFilters (field k d ds) end = ⊥
IsFilters (field k d ds) (field j v fs) = (j ≡ k) × IsValue d v × IsFilters ds fs

-- The name is that of a default.
abbrev pub HasKey : Text → Fields → Type 0
HasKey name end = ⊥
HasKey name (field k d ds) = (text_eq k name ≡ true) ⊎ HasKey name ds

-- A patch of known fields with primitive values, as the types of the callers have it.
abbrev pub IsPatch : Fields → Fields → Type 0
IsPatch defaults end = Unit
IsPatch defaults (field name v patch) =
    HasKey name defaults × (is_primitive v ≡ true) × IsPatch defaults patch

abbrev pub IsTypedAction : Fields → Action → Type 0
IsTypedAction defaults (patched patch) = IsPatch defaults patch
IsTypedAction defaults (field_set name v) = HasKey name defaults × (is_primitive v ≡ true)
IsTypedAction defaults restored = Unit
IsTypedAction defaults (opened b) = Unit

defaults-IsFilters : (defaults : Fields) → IsFilters defaults defaults
defaults-IsFilters end = tt
defaults-IsFilters (field k d ds) = (refl, inl refl, defaults-IsFilters ds)

merged_value-IsValue : (d : Json) (o : Option Json) → IsValue d (merged_value d o)
merged_value-IsValue d none = inl refl
merged_value-IsValue d (some v) = elim (Bool-cases (is_primitive v)) [
  | inl t ↦ rw t (inr t)
  | inr f ↦ rw f (inl refl)
]

merged-IsFilters : (defaults stored : Fields) → IsFilters defaults (merged defaults stored)
unfolding merged
merged-IsFilters end stored = tt
merged-IsFilters (field k d ds) stored =
    (refl, merged_value-IsValue d (lookup k stored), merged-IsFilters ds stored)

merged_from-IsFilters : (defaults : Fields) (v : Json) → IsFilters defaults (merged_from defaults v)
unfolding merged_from
merged_from-IsFilters defaults (obj stored) = merged-IsFilters defaults stored
merged_from-IsFilters defaults null = defaults-IsFilters defaults
merged_from-IsFilters defaults (bool b) = defaults-IsFilters defaults
merged_from-IsFilters defaults (num n) = defaults-IsFilters defaults
merged_from-IsFilters defaults (str s) = defaults-IsFilters defaults
merged_from-IsFilters defaults (arr vs) = defaults-IsFilters defaults

with_field-IsFilters :
    (defaults fs : Fields) (name : Text) (v : Json)
    → HasKey name defaults
    → is_primitive v ≡ true
    → IsFilters defaults fs
    → IsFilters defaults (with_field name v fs)
unfolding with_field
with_field-IsFilters end fs name v h p k = absurd h
with_field-IsFilters (field k d ds) end name v h p g = absurd g
with_field-IsFilters (field k d ds) (field j w fs) name v h p (e, q, rest) =
    elim (Bool-cases (text_eq j name)) [
      | inl t ↦ rw t (e, inr p, rest)
      | inr f ↦ rw f (e, q, with_field-IsFilters ds fs name v (other h f) p rest)
    ]
  where
    other : (text_eq k name ≡ true) ⊎ HasKey name ds → text_eq j name ≡ false → HasKey name ds
    other (inl t) f = cc
    other (inr g) f = g

with_patch-IsFilters :
    (defaults patch fs : Fields)
    → IsPatch defaults patch
    → IsFilters defaults fs
    → IsFilters defaults (with_patch patch fs)
unfolding with_patch
with_patch-IsFilters defaults end fs h k = k
with_patch-IsFilters defaults (field name v patch) fs (known, p, h) k =
    with_patch-IsFilters defaults patch (with_field name v fs) h
      (with_field-IsFilters defaults fs name v known p k)

act-IsFilters :
    (o : FilterOptions) (a : Action) (p : PersistedFilters)
    → IsTypedAction o.defaults a
    → IsFilters o.defaults p.filters
    → IsFilters o.defaults (act o a p).filters
unfolding act set_filters set_field reset_filters initial_filters
act-IsFilters o (patched patch) p t h = with_patch-IsFilters o.defaults patch p.filters t h
act-IsFilters o (field_set name v) p (known, q) h =
    with_patch-IsFilters o.defaults (field name v end) p.filters (known, q, tt) h
act-IsFilters o restored p t h = defaults-IsFilters o.defaults
act-IsFilters o (opened b) p t h =
    merged_from-IsFilters o.defaults (read_persisted o.parse o.key (obj o.defaults) none b)

acts-IsFilters :
    (o : FilterOptions) (p : PersistedFilters) (actions : List Action)
    → All (IsTypedAction o.defaults) actions
    → IsFilters o.defaults p.filters
    → IsFilters o.defaults (act_all o actions p).filters
unfolding act_all
acts-IsFilters o p [] t h = h
acts-IsFilters o p (a ∷ actions) (t, ts) h =
    acts-IsFilters o (act o a p) actions ts (act-IsFilters o a p t h)

-- Where the callers set known fields to primitive values only: from a page's opening on, whatever its
-- storage holds or refuses, and through every later call, reset and opening, the filters have exactly
-- the keys of the defaults, in their order, and each is its default or a primitive value.
pub act_all-IsFilters :
    (o : FilterOptions) (b : Browser) (actions : List Action)
    → All (IsTypedAction o.defaults) actions
    → IsFilters o.defaults
        (act_all o actions (record { filters = initial_filters o b; browser = b })).filters
unfolding initial_filters
act_all-IsFilters o b actions t =
    acts-IsFilters o (record { filters = initial_filters o b; browser = b }) actions t
      (merged_from-IsFilters o.defaults (read_persisted o.parse o.key (obj o.defaults) none b))
