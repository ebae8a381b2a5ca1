-- ===== src/Pages/SortHook/Stored.antt =====
-- Which sort a page opens with (frontend/lib/hooks/use-persisted-sort.ts).
use pfv.Common.{
  ◌≡◌, refl, ap, ◌∙◌, Bool, true, false, some, if◌then◌else◌, is_some, Bool-cases, inl, inr,
}
use pfv.Common.Text.{Text, text_eq}
use pfv.Common.Json.{lookup, member}
use pfv.Transactions.Listing.{SortDir, asc, desc}
use pfv.Pages.Persisted.{Browser, read_persisted}
use pfv.Pages.Persisted.Preferences.{read_persisted-write_persisted}
use pfv.Pages.SortHook.{
  StoredSort, dir_of, stored_sort, is_stored_sort, sort_json, SortOptions, is_allowed, sort_or,
  allowed_or, initial_sort, PersistedSort, set_sort, reset_sort,
}

-- Whatever the storage holds, a page opens with a sort by one of the fields that it allows, where its
-- default is one of them.
pub is_allowed-initial_sort :
    (o : SortOptions) (b : Browser)
    → is_allowed o.allowed_fields o.default_sort.sort_field ≡ true
    → is_allowed o.allowed_fields (initial_sort o b).sort_field ≡ true
unfolding initial_sort
is_allowed-initial_sort o b h = allowed (
    sort_or o.default_sort (
      stored_sort
        (read_persisted o.parse o.key (sort_json o.default_sort) (some is_stored_sort) b)))
  where
    allowed : (s : StoredSort) → is_allowed o.allowed_fields (allowed_or o s).sort_field ≡ true
    allowed s = elim (Bool-cases (is_allowed o.allowed_fields s.sort_field)) [
      | inl known ↦ rw known known
      | inr unknown ↦ rw unknown h
    ]

stored_sort-sort_json : (s : StoredSort) → stored_sort (sort_json s) ≡ some s
unfolding stored_sort member lookup text_eq dir_of
stored_sort-sort_json s = read s.sort_dir
  where
    read :
        (dir : SortDir)
        → stored_sort (sort_json (record s { sort_dir = dir })) ≡ some (record s { sort_dir = dir })
    read asc = refl
    read desc = refl

allowed_or_default : (o : SortOptions) → allowed_or o o.default_sort ≡ o.default_sort
allowed_or_default o = same (is_allowed o.allowed_fields o.default_sort.sort_field)
  where
    same : (b : Bool) → (if b then o.default_sort else o.default_sort) ≡ o.default_sort
    same true = refl
    same false = refl

-- A sort by an allowed field is shown at once and is there again after a reload, and a reset brings
-- the default back at once and after a reload, where the storage works and its texts are read back.
pub initial_sort-set_sort :
    (o : SortOptions) (s : StoredSort) (raw : Text) (p : PersistedSort)
    → p.browser.has_window ≡ true
    → p.browser.get_throws ≡ false
    → p.browser.set_throws ≡ false
    → p.browser.remove_throws ≡ false
    → o.stringify (sort_json s) ≡ some raw
    → o.parse raw ≡ some (sort_json s)
    → is_allowed o.allowed_fields s.sort_field ≡ true
    → let next = set_sort o s p in
      (next.state ≡ s)
      × (initial_sort o next.browser ≡ s)
      × ((reset_sort o next).state ≡ o.default_sort)
      × (initial_sort o (reset_sort o next).browser ≡ o.default_sort)
unfolding set_sort reset_sort initial_sort is_stored_sort
initial_sort-set_sort o s raw p w g t r e q h =
    let (kept, gone) =
      read_persisted-write_persisted o.parse o.stringify o.key (sort_json o.default_sort)
        (sort_json s) is_stored_sort raw p.browser w g t r e q
        (ap is_some (stored_sort-sort_json s)) in
    (
      refl,
      ap (λ v. allowed_or o (sort_or o.default_sort (stored_sort v))) kept
          ∙ ap (λ k. allowed_or o (sort_or o.default_sort k)) (stored_sort-sort_json s)
          ∙ rw h refl,
      refl,
      ap (λ v. allowed_or o (sort_or o.default_sort (stored_sort v))) gone
          ∙ ap (λ k. allowed_or o (sort_or o.default_sort k)) (stored_sort-sort_json o.default_sort)
          ∙ allowed_or_default o,
    )
