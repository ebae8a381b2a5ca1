-- ===== src/Transactions/Listing/Slices.antt =====
-- Paging and ordering of the list in frontend/app/transactions/page.tsx.
use pfv.Common.{
  ℕ, zero, suc, ◌+◌, ◌*◌, ◌≡◌, refl, ap, ◌∙◌, arith, true, false, List, [], ◌∷◌, if◌then◌else◌, ltb,
  length, take, drop, Bool-cases, inl, inr, sym,
}
use pfv.Common.Text.{Text}
use pfv.Common.Int.{ℤ, pos, negsuc}
use pfv.Transactions.Rows.{Transaction}
use pfv.Transactions.Listing.{
  page_size, Platform, Listing, loaded, Sort, SortField, SortDir, date, description, account_name,
  category_name, status, amount, status_name, toggle_sort, turned, sort_default, same_field,
  compare_by, negated, row_order, asc, desc,
}

module _ {ℓ} {A : Type ℓ} where
  -- One row more than a page tells whether there is another page.
  take-take_more : (n : ℕ) (xs : List A) → take n (take (suc n) xs) ≡ take n xs
  take-take_more zero xs = refl
  take-take_more (suc n) [] = refl
  take-take_more (suc n) (x ∷ xs) = ap (λ ys. x ∷ ys) (take-take_more n xs)

  ltb-length-take : (n : ℕ) (xs : List A) → ltb n (length (take (suc n) xs)) ≡ ltb n (length xs)
  ltb-length-take zero [] = refl
  ltb-length-take zero (x ∷ xs) = ground arith
  ltb-length-take (suc n) [] = refl
  ltb-length-take (suc n) (x ∷ xs) = ground (arith, ltb-length-take n xs)

module _ {ℓ} {A : Type ℓ} where
  ltb-drop : (n m : ℕ) (xs : List A) → ltb m (length (drop n xs)) ≡ ltb (n + m) (length xs)
  ltb-drop zero m xs = ground arith
  ltb-drop (suc n) m [] = ground arith
  ltb-drop (suc n) m (x ∷ xs) = ground (arith, ltb-drop n m xs)

-- Where the endpoint answers the request for a page with one row more than a page from that offset on,
-- the page keeps exactly its slice, and says that there is more exactly where a row follows the slice.
pub loaded-slice :
    (rows : List Transaction) (page : ℕ) (l : Listing)
    → let next = loaded (take (page_size + 1) (drop (page * page_size) rows)) l in
      (next.transactions ≡ take page_size (drop (page * page_size) rows))
      × (next.has_more ≡ ltb (page * page_size + page_size) (length rows))
      × (next.fetching ≡ false)
unfolding loaded
loaded-slice rows page l = (
  take-take_more page_size (drop (page * page_size) rows),
  ltb-length-take page_size (drop (page * page_size) rows) ∙ ends (page * page_size),
  refl,
)
  where
    ends : (n : ℕ) → ltb page_size (length (drop n rows)) ≡ ltb (n + page_size) (length rows)
    ends n = ltb-drop n page_size rows

same_field_iff : (f g : SortField) → same_field f g ≡ true → f ≡ g
same_field_iff f g h = ground arith

negated_twice : (z : ℤ) → negated (negated z) ≡ z
negated_twice (pos zero) = refl
negated_twice (pos (suc n)) = refl
negated_twice (negsuc n) = refl

-- The platform's comparisons change sign with their arguments.
compare_by-swap :
    (p : Platform) (f : SortField) (a b : Transaction)
    → ((x y : Text) → p.locale_compare y x ≡ negated (p.locale_compare x y))
    → ((x y : Text) → p.difference y x ≡ negated (p.difference x y))
    → compare_by p f b a ≡ negated (compare_by p f a b)
compare_by-swap p date a b h k = h a.date b.date
compare_by-swap p description a b h k = h a.description b.description
compare_by-swap p account_name a b h k = h a.account_name b.account_name
compare_by-swap p category_name a b h k = h a.category_name b.category_name
compare_by-swap p status a b h k = h (status_name a.status) (status_name b.status)
compare_by-swap p amount a b h k = k a.amount b.amount

-- The order of any two rows is reversed by a click on the column that the list is sorted by; a click on
-- another column sorts by it in its own first direction.
pub row_order-toggle_sort :
    (p : Platform) (s : Sort) (field : SortField) (a b : Transaction)
    → ((x y : Text) → p.locale_compare y x ≡ negated (p.locale_compare x y))
    → ((x y : Text) → p.difference y x ≡ negated (p.difference x y))
    → row_order p (toggle_sort field s) a b ≡ (
        if same_field s.field field
        then row_order p s b a
        else row_order p (record { field = field; dir = sort_default field }) a b)
unfolding row_order toggle_sort
row_order-toggle_sort p s field a b h k = elim (Bool-cases (same_field s.field field)) [
  | inl same ↦ rw same (
      reversed s.dir
      ∙ sym (
          ap (λ g. row_order p (record { field = g; dir = s.dir }) b a)
            (same_field_iff s.field field same)))
  | inr other ↦ rw other refl
]
  where
    swap : compare_by p field b a ≡ negated (compare_by p field a b)
    swap = compare_by-swap p field a b h k

    reversed :
        (d : SortDir)
        → row_order p (record { field = field; dir = turned d }) a b
          ≡ row_order p (record { field = field; dir = d }) b a
    reversed asc = sym swap
    reversed desc = sym (ap negated swap ∙ negated_twice (compare_by p field a b))
