-- ===== src/Transactions/Listing.antt =====
-- The list of frontend/app/transactions/page.tsx: the request for one page of it, what is kept of the
-- answer, and the order of the rows. The decimal form of a number, encodeURIComponent, localeCompare
-- and the comparison of two numbers are the platform's.
pub mod Slices
use pfv.Common.{
  ℕ, zero, suc, ◌+◌, ◌*◌, Bool, true, false, not, Option, none, some, List, [], ◌∷◌, ◌++◌,
  if◌then◌else◌, ◌==◌, ltb, length, take, is_some,
}
use pfv.Common.Int.{ℤ, pos, negsuc}
use pfv.Common.Text.{Text, codes, text_eq}
use pfv.Transactions.Rows.{Transaction, Status, settled, pending}

abbrev pub page_size : ℕ
page_size = 20

pub record Platform : Type 0 where
  pub decimal : ℕ → Text
  pub encode : Text → Text
  pub locale_compare : Text → Text → ℤ
  pub difference : Text → Text → ℤ

pub record BillingPeriod : Type 0 where
  pub id : ℕ
  pub start_date : Text
  pub end_date : Option Text

-- An id that is "" is `none`.
pub record Filters : Type 0 where
  pub filter_account : Option ℕ
  pub filter_category : Option ℕ
  pub filter_type : Text
  pub filter_status : Text
  pub filter_date_from : Text
  pub filter_date_to : Text
  pub filter_search : Text
  pub filter_period : Text

-- `if (v) url += …`
abbrev pub text_param : Text → Text → Text
text_param name [] = []
text_param name (c ∷ s) = name ++ c ∷ s

abbrev pub id_param : Platform → Text → Option ℕ → Text
id_param p name none = []
id_param p name (some id) = if id == 0 then [] else name ++ p.decimal id

-- `periods.find((p) => String(p.id) === filterPeriod)`
unfoldable pub find_period : Platform → Text → List BillingPeriod → Option BillingPeriod
unfolding text_eq
find_period p id [] = none
find_period p id (period ∷ periods) =
    let rest = find_period p id periods in
    if text_eq (p.decimal period.id) id then some period else rest

-- An open period, or one that is not there, gives no dates.
abbrev pub period_params : Option BillingPeriod → Text
period_params none = []
period_params (some period) = elim period.end_date [
  | none ↦ []
  | some end_date ↦ codes "&date_from=" ++ (period.start_date ++ (codes "&date_to=" ++ end_date))
]

-- The period overrides the two dates.
abbrev pub date_params : Platform → Filters → List BillingPeriod → Text → Text
date_params p f periods [] =
    text_param (codes "&date_from=") f.filter_date_from
    ++ text_param (codes "&date_to=") f.filter_date_to
date_params p f periods (c ∷ s) = period_params (find_period p (c ∷ s) periods)

abbrev pub search_param : Platform → Text → Text
search_param p [] = []
search_param p (c ∷ s) = codes "&search=" ++ p.encode (c ∷ s)

unfoldable pub list_url : Platform → Filters → List BillingPeriod → ℕ → Text
unfolding find_period
list_url p f periods page =
    codes "/api/v1/transactions?limit="
    ++ (p.decimal (page_size + 1)
        ++ (codes "&offset="
            ++ (p.decimal (page * page_size)
                ++ (id_param p (codes "&account_id=") f.filter_account
                    ++ (id_param p (codes "&category_id=") f.filter_category
                        ++ (text_param (codes "&type=") f.filter_type
                            ++ (text_param (codes "&status=") f.filter_status
                                ++ (date_params p f periods f.filter_period
                                    ++ search_param p f.filter_search))))))))

-- The part of the page's state that a list request fills.
pub record Listing : Type 0 where
  pub transactions : List Transaction
  pub has_more : Bool
  pub fetching : Bool

unfoldable pub loaded : List Transaction → Listing → Listing
loaded rows l = record l {
  transactions = take page_size rows;
  has_more = ltb page_size (length rows);
  fetching = false;
}

pub data SortField : Type 0 where
  date description account_name category_name status amount : SortField

pub data SortDir : Type 0 where
  asc desc : SortDir

abbrev pub sort_default : SortField → SortDir
sort_default date = desc
sort_default amount = desc
sort_default _ = asc

pub record Sort : Type 0 where
  pub field : SortField
  pub dir : SortDir

abbrev pub same_field : SortField → SortField → Bool
same_field date date = true
same_field description description = true
same_field account_name account_name = true
same_field category_name category_name = true
same_field status status = true
same_field amount amount = true
same_field _ _ = false

abbrev pub turned : SortDir → SortDir
turned asc = desc
turned desc = asc

unfoldable pub toggle_sort : SortField → Sort → Sort
toggle_sort field s =
    if same_field s.field field
    then record { field = field; dir = turned s.dir }
    else record { field = field; dir = sort_default field }

abbrev pub status_name : Status → Text
status_name settled = codes "settled"
status_name pending = codes "pending"

abbrev pub compare_by : Platform → SortField → Transaction → Transaction → ℤ
compare_by p date a b = p.locale_compare a.date b.date
compare_by p description a b = p.locale_compare a.description b.description
compare_by p account_name a b = p.locale_compare a.account_name b.account_name
compare_by p category_name a b = p.locale_compare a.category_name b.category_name
compare_by p status a b = p.locale_compare (status_name a.status) (status_name b.status)
compare_by p amount a b = p.difference a.amount b.amount

-- `-cmp`
abbrev pub negated : ℤ → ℤ
negated (pos zero) = pos zero
negated (pos (suc n)) = negsuc n
negated (negsuc n) = pos (suc n)

unfoldable pub row_order : Platform → Sort → Transaction → Transaction → ℤ
row_order p s a b = elim s.dir [
  | asc ↦ compare_by p s.field a b
  | desc ↦ negated (compare_by p s.field a b)
]
