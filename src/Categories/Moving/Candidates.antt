-- ===== src/Categories/Moving/Candidates.antt =====
-- The masters that the move dialog offers (frontend/components/categories/BatchMoveModal.tsx).
use pfv.Common.{
  not_split, ◌≡◌, ◌∙◌, refl, ap, sym, Bool, true, false, ◌||◌, not, Option, none, some, List, [],
  ◌∷◌, ◌++◌, if◌then◌else◌, any, filter_by, All, All-filter_by, either_of,
}
use mathlib.Core.Option.{some-injective}
use pfv.Pages.Moves.{CategoryType, income, expense, both, same_type}
use pfv.Categories.Rows.{Category, is_master, selected_subs}
use pfv.Categories.Moving.{
  View, add_type, types_from, sole_of, mixed_selection, sole_type, is_parent_of, is_source_parent,
  matches_filter, masters_of_type, compat_of, type_compat_masters, candidate_masters,
}

or_split : (x y : Bool) → (x || y) ≡ false → (x ≡ false) × (y ≡ false)
or_split true y h = cc
or_split false y h = (refl, h)

or_false : (x : Bool) → (x || false) ≡ true → x ≡ true
or_false true h = refl
or_false false h = h

same_type_eq : (s t : CategoryType) → same_type s t ≡ true → s ≡ t
same_type_eq income income h = refl
same_type_eq expense expense h = refl
same_type_eq both both h = refl
same_type_eq income expense h = cc
same_type_eq income both h = cc
same_type_eq expense income h = cc
same_type_eq expense both h = cc
same_type_eq both income h = cc
same_type_eq both expense h = cc

-- A set of types that is left with one type had none before or that one, and only that one came.
abbrev IsOnly : CategoryType → List CategoryType → Type 0
IsOnly t [] = Unit
IsOnly t (u ∷ []) = u ≡ t
IsOnly t (u ∷ w ∷ us) = ⊥

add_if-IsOnly :
    (b : Bool) (u t : CategoryType) (ts : List CategoryType)
    → ((w : CategoryType) → ts ≡ w ∷ [] → b ≡ true → u ≡ w)
    → (ts ≡ [] → b ≡ false)
    → IsOnly t (if b then ts else ts ++ u ∷ [])
    → IsOnly t ts × (u ≡ t)
add_if-IsOnly true u t [] one empty h = cc (empty refl)
add_if-IsOnly true u t (w ∷ []) one empty h = (h, one w refl refl ∙ h)
add_if-IsOnly true u t (w ∷ x ∷ ts) one empty h = absurd h
add_if-IsOnly false u t [] one empty h = (tt, h)
add_if-IsOnly false u t (w ∷ []) one empty h = absurd h
add_if-IsOnly false u t (w ∷ x ∷ ts) one empty h = absurd h

add_type-IsOnly :
    (u t : CategoryType) (ts : List CategoryType) → IsOnly t (add_type u ts) → IsOnly t ts × (u ≡ t)
add_type-IsOnly u t ts =
    add_if-IsOnly (any (same_type u) ts) u t ts
      (λ w e h. same_type_eq u w (or_false (same_type u w) (ap (any (same_type u)) (sym e) ∙ h)))
      (λ e. ap (any (same_type u)) e)

types_from-IsOnly :
    (ts : List CategoryType) (subs : List Category) (t : CategoryType)
    → sole_of (types_from ts subs) ≡ some t
    → IsOnly t ts × All (λ s. s.type ≡ t) subs
unfolding types_from
types_from-IsOnly [] [] t h = cc
types_from-IsOnly (u ∷ []) [] t h = (some-injective u t h, tt)
types_from-IsOnly (u ∷ w ∷ ts) [] t h = cc
types_from-IsOnly ts (s ∷ subs) t h =
    let (only, rest) = types_from-IsOnly (add_type s.type ts) subs t h in
    let (before, e) = add_type-IsOnly s.type t ts only in (before, (e, rest))

module _ {ℓ} {A : Type ℓ} where
  -- What holds of the entries that a filter keeps.
  All-kept :
      (P Q : A → Type 0) (p : A → Bool) (xs : List A)
      → ((x : A) → P x → p x ≡ true → Q x)
      → All P xs
      → All Q (filter_by p xs)
  All-kept P Q p [] imp h = tt
  All-kept P Q p (x ∷ xs) imp (k, h) = keep (p x) (imp x k) (All-kept P Q p xs imp h)
    where
      keep :
          (b : Bool)
          → (b ≡ true → Q x)
          → All Q (filter_by p xs)
          → All Q (elim b [ true ↦ x ∷ filter_by p xs | false ↦ filter_by p xs ])
      keep true q rest = (q refl, rest)
      keep false q rest = rest

  none_holds : (p : A → Bool) (xs : List A) → any p xs ≡ false → All (λ x. p x ≡ false) xs
  none_holds p [] h = tt
  none_holds p (x ∷ xs) h = let (a, b) = or_split (p x) (any p xs) h in (a, none_holds p xs b)

  All-unit : (xs : List A) → All (λ _. Unit {0}) xs
  All-unit [] = tt
  All-unit (x ∷ xs) = (tt, All-unit xs)

  All-zip : (P Q : A → Type 0) (xs : List A) → All P xs → All Q xs → All (λ x. P x × Q x) xs
  All-zip P Q [] h k = tt
  All-zip P Q (x ∷ xs) (a, h) (b, k) = ((a, b), All-zip P Q xs h k)

-- The move of the subcategory to the master is one that keeps its type and changes its parent.
abbrev pub IsMove : Category → Category → Type 0
IsMove m s = (s.type ≡ m.type) × (is_parent_of m.id s ≡ false)

module _ (v : View) where
  abbrev subs : List Category
  unfolding selected_subs
  subs = selected_subs v.categories v.selected_ids

  compat_of-IsType :
      (o : Option CategoryType)
      → All (λ m. (is_master m ≡ true) × (o ≡ some m.type)) (compat_of v o)
  unfolding compat_of
  compat_of-IsType none = tt
  compat_of-IsType (some t) =
      All-filter_by (λ m. (is_master m ≡ true) × (some t ≡ some m.type)) (matches_filter v)
        (masters_of_type v.categories t)
        (All-kept (λ m. is_master m ≡ true) (λ m. (is_master m ≡ true) × (some t ≡ some m.type))
          (λ c. same_type c.type t) (filter_by is_master v.categories)
          (λ m k h. (k, ap some (sym (same_type_eq m.type t h))))
          (All-kept (λ _. Unit {0}) (λ m. is_master m ≡ true) is_master v.categories (λ m _ h. h)
            (All-unit v.categories)))

  type_compat-IsType :
      All (λ m. (is_master m ≡ true) × (sole_type v ≡ some m.type)) (type_compat_masters v)
  unfolding type_compat_masters
  type_compat-IsType =
      either_of (All (λ m. (is_master m ≡ true) × (sole_type v ≡ some m.type))) (mixed_selection v)
        tt (compat_of-IsType (sole_type v))

-- Every master that the dialog offers is a master category, of the type of each selected
-- subcategory and the parent of none of them; so a selection of several types is offered none, and
-- the backend's rules on the type and on a move to the same parent refuse no move that is offered.
pub candidate_masters-IsMove :
    (v : View)
    → All
        (λ m. (is_master m ≡ true) × All (IsMove m) (selected_subs v.categories v.selected_ids))
        (candidate_masters v)
unfolding candidate_masters sole_type is_source_parent
candidate_masters-IsMove v =
    All-kept (λ m. (is_master m ≡ true) × (sole_type v ≡ some m.type))
      (λ m. (is_master m ≡ true) × All (IsMove m) (selected_subs v.categories v.selected_ids))
      (λ m. not (is_source_parent v m.id)) (type_compat_masters v)
      (λ m (master, sole) h. (
        master,
        All-zip (λ s. s.type ≡ m.type) (λ s. is_parent_of m.id s ≡ false)
            (selected_subs v.categories v.selected_ids)
            (types_from-IsOnly [] (selected_subs v.categories v.selected_ids) m.type sole).1
            (none_holds (is_parent_of m.id) (selected_subs v.categories v.selected_ids)
              (not_split _ h)),
      ))
      (type_compat-IsType v)
