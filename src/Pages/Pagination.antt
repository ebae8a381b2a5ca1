-- ===== src/Pages/Pagination.antt =====
-- fetchAll of frontend/lib/pagination.ts: a list endpoint is read page by page, until a page is
-- shorter than asked for, and for at most a hundred pages. What apiFetch does with a URL is an
-- argument, and so is the decimal form of a number.
pub mod Complete
use pfv.Common.{
  ℕ, zero, suc, ◌+◌, Bool, true, false, ◌||◌, List, [], ◌∷◌, ◌++◌, if◌then◌else◌, ltb, ◌==◌, length,
}
use pfv.Common.Text.{Text, codes, includes}
use pfv.Api.Errors.{Thrown}

abbrev pub max_pages : ℕ
max_pages = 100

abbrev pub default_page_size : ℕ
default_page_size = 200

-- What a request for one page comes to.
pub data Page {ℓ} (A : Type ℓ) : Type ℓ where
  rows : List A → Page A
  not_array : Page A
  failed : Thrown → Page A

-- How `fetchAll` ends.
pub data AllRows {ℓ} (A : Type ℓ) : Type ℓ where
  all_rows : List A → AllRows A
  rejected : Thrown → AllRows A

unfoldable pub separator : Text → Text
separator base_url = if includes (codes "?") base_url then codes "&" else codes "?"

module _ (decimal : ℕ → Text) where
  unfoldable pub page_url : Text → ℕ → ℕ → Text
  unfolding separator
  page_url base_url page_size offset =
      base_url
      ++ (separator base_url
          ++ (codes "limit=" ++ (decimal page_size ++ (codes "&offset=" ++ decimal offset))))

-- One round of the loop: `more` is the rest of it, from the next offset on.
abbrev pub round {ℓ} : {A : Type ℓ} → ℕ → (List A → AllRows A) → List A → Page A → AllRows A
round page_size more result (failed e) = rejected e
round page_size more result not_array = all_rows result
round page_size more result (rows []) = all_rows result
round page_size more result (rows (x ∷ xs)) =
    if ltb (length (x ∷ xs)) page_size then all_rows (result ++ x ∷ xs) else more (result ++ x ∷ xs)

-- `pages` is how many rounds of the loop are left.
unfoldable pub fetch_pages {ℓ} : {A : Type ℓ} → (ℕ → Page A) → ℕ → ℕ → ℕ → List A → AllRows A
fetch_pages at_offset page_size zero offset result = all_rows result
fetch_pages at_offset page_size (suc pages) offset result =
    round page_size (λ r. fetch_pages at_offset page_size pages (offset + page_size) r) result
      (at_offset offset)

unfoldable pub fetch_all {ℓ} : {A : Type ℓ} → (ℕ → Text) → (Text → Page A) → Text → ℕ → AllRows A
unfolding page_url fetch_pages
fetch_all decimal api_fetch base_url page_size =
    fetch_pages (λ offset. api_fetch (page_url decimal base_url page_size offset)) page_size
      max_pages 0 []
