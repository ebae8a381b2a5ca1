-- ===== src/Categories/Rows.antt =====
-- The categories of frontend/lib/types.ts, with the fields that the page reads, and the selection of
-- subcategories that frontend/app/categories/page.tsx shares with its dialogs.
use pfv.Common.{
  ℕ, Bool, ◌&&◌, not, Option, none, some, List, [], ◌∷◌, ◌++◌, if◌then◌else◌, ◌==◌, any, filter_by,
  is_some,
}
use pfv.Common.Text.{Text}
use pfv.Pages.Moves.{CategoryType}

pub record Category : Type 0 where
  pub id : ℕ
  pub name : Text
  pub type : CategoryType
  pub parent_id : Option ℕ
  pub transaction_count : ℕ

-- `ids.includes(id)`
abbrev pub has_id : List ℕ → ℕ → Bool
has_id ids id = any (λ i. i == id) ids

abbrev pub is_master : Category → Bool
is_master c = not (is_some c.parent_id)

-- `selectedSubs` of both dialogs
unfoldable pub selected_subs : List Category → List ℕ → List Category
selected_subs categories ids = filter_by (λ c. has_id ids c.id && is_some c.parent_id) categories

abbrev pub ids_of : List Category → List ℕ
ids_of [] = []
ids_of (c ∷ cs) = c.id ∷ ids_of cs

-- `toggleSelected`
unfoldable pub toggle_selected : ℕ → List ℕ → List ℕ
toggle_selected id prev =
    if has_id prev id then filter_by (λ x. not (x == id)) prev else prev ++ id ∷ []

-- `categories.find((c) => c.id === id)`
unfoldable pub find_category : ℕ → List Category → Option Category
find_category id [] = none
find_category id (c ∷ cs) = let rest = find_category id cs in if c.id == id then some c else rest
