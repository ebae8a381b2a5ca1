-- ===== src/Categories/Listing/Children.antt =====
-- The children that frontend/app/categories/page.tsx lists under a master.
use pfv.Common.{
  ℕ, ◌≡◌, ◌∙◌, refl, ap, sym, arith, Bool, true, false, Option, none, some, List, [], ◌∷◌, ◌++◌,
  if◌then◌else◌, ◌==◌, filter_by,
}
use mathlib.Core.List.{append_assoc, append-nil}
use pfv.Categories.Rows.{Category}
use pfv.Categories.Listing.{ChildrenMap, get, push, grouped, group, children_of}

abbrev pub is_child_of : ℕ → Category → Bool
is_child_of id c = elim c.parent_id [ none ↦ false | some p ↦ p == id ]

abbrev is_parent : ℕ → Option ℕ → Bool
is_parent id none = false
is_parent id (some p) = p == id

module _ (id : ℕ) where
  get-push :
      (p : ℕ) (c : Category) (m : ChildrenMap)
      → get id (push p c m) ≡ (if p == id then get id m ++ c ∷ [] else get id m)
  unfolding get push
  get-push p c [] = refl
  get-push p c ((k, list) ∷ m) = ground (arith, get-push p c m)

  pushed :
      (b : Bool) (c : Category) (m : ChildrenMap) (rest : List Category)
      → (if b then get id m ++ c ∷ [] else get id m) ++ rest
        ≡ get id m ++ (elim b [ true ↦ c ∷ rest | false ↦ rest ])
  pushed true c m rest = append_assoc (get id m) (c ∷ []) rest
  pushed false c m rest = refl

  get-grouped :
      (c : Category) (o : Option ℕ) (m : ChildrenMap) (rest : List Category)
      → get id (grouped c o m) ++ rest
        ≡ get id m ++ (elim (is_parent id o) [ true ↦ c ∷ rest | false ↦ rest ])
  unfolding grouped
  get-grouped c none m rest = refl
  get-grouped c (some p) m rest = ap (λ xs. xs ++ rest) (get-push p c m) ∙ pushed (p == id) c m rest

  get-group :
      (cs : List Category) (m : ChildrenMap)
      → get id (group cs m) ≡ get id m ++ filter_by (is_child_of id) cs
  unfolding group
  get-group [] m = sym (append-nil (get id m))
  get-group (c ∷ cs) m =
      get-group cs (grouped c c.parent_id m)
      ∙ get-grouped c c.parent_id m (filter_by (is_child_of id) cs)

-- The map that is filled in one pass has under each id exactly the categories whose parent it is, in
-- the order of the list.
pub children_of_lem :
    (categories : List Category) (id : ℕ)
    → children_of categories id ≡ filter_by (is_child_of id) categories
unfolding children_of get
children_of_lem categories id = get-group id categories []
