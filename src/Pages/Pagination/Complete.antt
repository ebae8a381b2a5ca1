-- ===== src/Pages/Pagination/Complete.antt =====
-- What fetchAll returns from an endpoint that serves the pages of a list (frontend/lib/pagination.ts).
use pfv.Common.{
  ℕ, zero, suc, ◌+◌, ◌*◌, ◌≤◌, ◌<◌, ◌≡◌, refl, sym, ap, ◌∙◌, arith, true, List, [], ◌∷◌, ◌++◌, ltb,
  length, take, drop, Bool-cases, inl, inr,
}
use mathlib.Core.List.{append_assoc, append-nil}
use pfv.Common.Text.{Text}
use pfv.Pages.Pagination.{
  Page, rows, AllRows, all_rows, page_url, round, fetch_pages, fetch_all, max_pages,
}

zero_add : (n : ℕ) → 0 + n ≡ n
zero_add n = omega arith

suc_add : (m n : ℕ) → suc m + n ≡ suc (m + n)
suc_add m n = omega arith

zero_mul : (n : ℕ) → 0 * n ≡ 0
zero_mul n = omega arith

suc_mul : (m n : ℕ) → suc m * n ≡ n + m * n
suc_mul m n = omega arith

module _ {ℓ} {A : Type ℓ} where
  drop-nil : (n : ℕ) → drop {A = A} n [] ≡ []
  drop-nil zero = refl
  drop-nil (suc n) = refl

  take-nil : (n : ℕ) → take {A = A} n [] ≡ []
  take-nil zero = refl
  take-nil (suc n) = refl

  take-add : (m n : ℕ) (xs : List A) → take (m + n) xs ≡ take m xs ++ take n (drop m xs)
  take-add zero n xs = rw zero_add refl
  take-add (suc m) n [] = rw (suc_add m n) (sym (take-nil n))
  take-add (suc m) n (x ∷ xs) = rw (suc_add m n) (ap (λ ys. x ∷ ys) (take-add m n xs))

  drop-add : (m n : ℕ) (xs : List A) → drop (m + n) xs ≡ drop n (drop m xs)
  drop-add zero n xs = rw zero_add refl
  drop-add (suc m) n [] = rw (suc_add m n) (sym (drop-nil n))
  drop-add (suc m) n (x ∷ xs) = rw (suc_add m n) (drop-add m n xs)

  take_all : (n : ℕ) (xs : List A) → length xs ≤ n → take n xs ≡ xs
  take_all n [] h = take-nil n
  take_all zero (x ∷ xs) h = absurd (omega (arith, h))
  take_all (suc n) (x ∷ xs) h = ap (λ ys. x ∷ ys) (take_all n xs (omega (arith, h)))

  -- A page shorter than asked for is the rest of the list.
  lt-length_of_take : (n : ℕ) (xs : List A) → length (take n xs) < n → length xs < n
  lt-length_of_take zero xs h = absurd (omega (arith, h))
  lt-length_of_take (suc n) [] h = h
  lt-length_of_take (suc n) (x ∷ xs) h = omega (arith, lt-length_of_take n xs (omega (arith, h)))

  round-take :
      (size n : ℕ) (d result : List A) (more : List A → AllRows A)
      → 0 < size
      → more (result ++ take size d) ≡ all_rows ((result ++ take size d) ++ take n (drop size d))
      → round size more result (rows (take size d)) ≡ all_rows (result ++ take (size + n) d)
  round-take zero n d result more p h = absurd (omega (arith, p))
  round-take (suc k) n [] result more p h = rw take-nil (ap all_rows (sym (append-nil result)))
  round-take (suc k) n (x ∷ xs) result more p h =
      elim (Bool-cases (ltb (length (x ∷ take k xs)) (suc k))) [
        | inl short ↦ rw short (
            ap (λ ys. all_rows (result ++ ys))
              (ap (λ ys. x ∷ ys) (take_all k xs (page_ends short))
                ∙ sym (take_all (suc k + n) (x ∷ xs) (omega (arith, page_ends short)))))
        | inr full ↦ rw full (
            h
            ∙ ap all_rows (
                append_assoc result (take (suc k) (x ∷ xs)) (take n (drop k xs))
                ∙ ap (λ ys. result ++ ys) (sym (take-add (suc k) n (x ∷ xs)))))
      ]
    where
      page_ends : ltb (length (x ∷ take k xs)) (suc k) ≡ true → length xs ≤ k
      page_ends short = omega (arith, lt-length_of_take k xs (ground (arith, short)))

  fetch_pages-take :
      (at_offset : ℕ → Page A) (items : List A) (size : ℕ)
      → 0 < size
      → ((o : ℕ) → at_offset o ≡ rows (take size (drop o items)))
      → (pages offset : ℕ) (result : List A)
      → fetch_pages at_offset size pages offset result
        ≡ all_rows (result ++ take (pages * size) (drop offset items))
  unfolding fetch_pages
  fetch_pages-take at_offset items size p serves zero offset result =
      rw zero_mul (ap all_rows (sym (append-nil result)))
  fetch_pages-take at_offset items size p serves (suc pages) offset result =
      let page = drop offset items in
      rw (suc_mul pages size, serves offset)
        (round-take size (pages * size) page result
          (λ r. fetch_pages at_offset size pages (offset + size) r) p
          (rw⁻¹ (drop-add offset size items) (
            fetch_pages-take at_offset items size p serves pages (offset + size)
              (result ++ take size page))))

  -- From an endpoint that answers the URL of every offset with that page of a list, `fetchAll` returns
  -- the whole list where it has at most a hundred pages, and otherwise exactly its first hundred pages,
  -- without a gap, a repetition or an error, for any page size from one on.
  pub fetch_all-take :
      (decimal : ℕ → Text) (api_fetch : Text → Page A) (base_url : Text) (size : ℕ) (items : List A)
      → 0 < size
      → ((o : ℕ) → api_fetch (page_url decimal base_url size o) ≡ rows (take size (drop o items)))
      → fetch_all decimal api_fetch base_url size ≡ all_rows (take (100 * size) items)
  unfolding fetch_all
  fetch_all-take decimal api_fetch base_url size items p serves =
      fetch_pages-take (λ o. api_fetch (page_url decimal base_url size o)) items size p serves
        max_pages 0 []
