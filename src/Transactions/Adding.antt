-- ===== src/Transactions/Adding.antt =====
-- handleAdd of frontend/app/transactions/page.tsx: the form for a new transaction or transfer is
-- checked, and its requests are made one after the other. The answers are an argument, and the
-- requests that were made are a result.
pub mod Submits
use pfv.Common.{
  ℕ, Bool, true, false, ◌&&◌, not, Option, none, some, List, [], ◌∷◌, ◌++◌, if◌then◌else◌, ◌==◌,
}
use pfv.Common.Text.{Text, codes, text_ltb}
use pfv.Api.Errors.{Thrown, extract_error_message}
use pfv.Auth.Provider.{Outcome, fulfilled, failed}
use pfv.Transactions.Rows.{
  Transaction, TransactionType, income, expense, Status, settled, pending, is_pending, Account,
}
use pfv.Transactions.Listing.{Listing, loaded}

pub data FormMode : Type 0 where
  transaction transfer : FormMode

-- An id that is "" is `none`.
pub record Form : Type 0 where
  pub form_mode : FormMode
  pub form_account_id : Option ℕ
  pub form_to_account_id : Option ℕ
  pub form_transfer_cat_id : Option ℕ
  pub form_category_id : Option ℕ
  pub form_description : Text
  pub form_amount : Text
  pub form_type : TransactionType
  pub form_status : Status
  pub form_date : Text
  pub form_settled_date : Text
  pub form_tags : List Text
  pub form_recurring : Bool
  pub form_frequency : Text
  pub form_auto_settle : Bool

pub record Page : Type 0 where
  pub form : Form
  pub show_form : Bool
  pub error : Text
  pub listing : Listing

-- The requests of the page, with what their bodies hold. A key that is left out is `none`.
pub data Request : Type 0 where
  post_transfer :
      (from_account_id to_account_id : Option ℕ)
      → (description amount : Text) → (status : Status) → (date : Text) → (category_id : Option ℕ)
      → Request
  post_transaction :
      (account_id category_id : Option ℕ)
      → (description amount : Text) → (type : TransactionType) → (status : Status) → (date : Text)
      → (settled_date : Option Text) → Request
  put_tags : (id : ℕ) → (tag_names : List Text) → Request
  promote : (id : ℕ) → (frequency next_due_date : Text) → (auto_settle : Bool) → Request
  get_list : Request

-- How each request comes out; a created transaction may come back without a body.
pub record Replies : Type 0 where
  pub transferred : Outcome (Unit {0})
  pub created : Outcome (Option ℕ)
  pub tagged : Outcome (Unit {0})
  pub promoted : Outcome (Unit {0})
  pub list : Outcome (List Transaction)

abbrev pub message_of : Thrown → Text
message_of e = extract_error_message e (codes "Failed")

-- `formStatus === "pending" && formSettledDate && formSettledDate < formDate`
abbrev pub settles_before : Status → Text → Text → Bool
settles_before pending (c ∷ s) date = text_ltb (c ∷ s) date
settles_before _ _ date = false

abbrev pub is_transaction : FormMode → Bool
is_transaction transaction = true
is_transaction transfer = false

abbrev pub bad_settled_date : Text
bad_settled_date = codes "Expected settlement date must be on or after the transaction date"

-- `formStatus === "pending" && formSettledDate ? { settled_date } : {}`
abbrev pub settled_date_key : Status → Text → Option Text
settled_date_key pending (c ∷ s) = some (c ∷ s)
settled_date_key _ _ = none

abbrev pub cleared : Text → Form → Form
cleared today f = record f {
  form_description = [];
  form_amount = [];
  form_type = expense;
  form_status = settled;
  form_to_account_id = none;
  form_transfer_cat_id = none;
  form_recurring = false;
  form_auto_settle = false;
  form_date = today;
  form_settled_date = [];
  form_tags = [];
}

abbrev pub with_error : Text → Page → Page
with_error message p = record p { error = message }

-- The reset of the form and the reload, with the requests made before them.
abbrev pub after_load : Outcome (List Transaction) → Page → Page
after_load (fulfilled rows) p = record p { listing = loaded rows p.listing }
after_load (failed e) p = with_error (message_of e) p

abbrev pub finish : Text → Replies → List Request → Page → Page × List Request
finish today r requests p = (
  after_load r.list (record p { form = cleared today p.form; show_form = false }),
  requests ++ get_list ∷ [],
)

abbrev pub tag_warning : Thrown → Text
tag_warning e =
    codes "Transaction saved. Tags couldn't be applied: "
    ++ (message_of e ++ codes ". Edit the transaction to add them.")

-- `created?.id`
abbrev pub id_of : Option ℕ → Option ℕ
id_of none = none
id_of (some id) = if id == 0 then none else some id

abbrev pub tags_request : List Text → Option ℕ → List Request
tags_request (t ∷ ts) (some id) = put_tags id (t ∷ ts) ∷ []
tags_request _ _ = []

-- The warning, where tags were sent and refused.
abbrev pub warning_of : List Text → Option ℕ → Outcome (Unit {0}) → Option Text
warning_of (t ∷ ts) (some id) (failed e) = some (tag_warning e)
warning_of _ _ _ = none

abbrev pub next_due : Text → Text → Text
next_due today date = if text_ltb date today then today else date

abbrev pub promote_request : Text → Form → Option ℕ → List Request
promote_request today f none = []
promote_request today f (some id) =
    if f.form_recurring
    then promote id f.form_frequency (next_due today f.form_date) f.form_auto_settle ∷ []
    else []

-- The warning is shown once nothing more can fail.
abbrev pub with_warning : Option Text → Page → Page
with_warning none p = p
with_warning (some w) p = with_error w p

-- Where a promotion is asked for and fails, the outer catch leaves the form as it is.
abbrev pub after_promote :
    Text
    → Replies
    → List Request
    → Outcome (Unit {0})
    → List Request
    → Page
    → Page
    → Page × List Request
after_promote today r [] answer requests p warned = finish today r requests warned
after_promote today r (q ∷ qs) (failed e) requests p warned =
    (with_error (message_of e) p, requests ++ q ∷ qs)
after_promote today r (q ∷ qs) (fulfilled done) requests p warned =
    finish today r (requests ++ q ∷ qs) warned

abbrev pub create_request : Form → Request
create_request f =
    post_transaction f.form_account_id f.form_category_id f.form_description f.form_amount
      f.form_type f.form_status f.form_date (settled_date_key f.form_status f.form_settled_date)

abbrev pub after_create : Text → Replies → Outcome (Option ℕ) → Page → Page × List Request
after_create today r (failed e) p = (with_error (message_of e) p, create_request p.form ∷ [])
after_create today r (fulfilled created) p =
    after_promote today r (promote_request today p.form (id_of created)) r.promoted
      (create_request p.form ∷ tags_request p.form.form_tags (id_of created)) p
      (with_warning (warning_of p.form.form_tags (id_of created) r.tagged) p)

abbrev pub transfer_request : Form → Request
transfer_request f =
    post_transfer f.form_account_id f.form_to_account_id f.form_description f.form_amount
      f.form_status f.form_date f.form_transfer_cat_id

abbrev pub after_transfer : Text → Replies → Outcome (Unit {0}) → Page → Page × List Request
after_transfer today r (failed e) p = (with_error (message_of e) p, transfer_request p.form ∷ [])
after_transfer today r (fulfilled done) p = finish today r (transfer_request p.form ∷ []) p

abbrev pub submit : Text → Replies → FormMode → Page → Page × List Request
submit today r transfer p = after_transfer today r r.transferred p
submit today r transaction p = after_create today r r.created p

unfoldable pub handle_add : Text → Replies → Page → Page × List Request
unfolding text_ltb loaded
handle_add today r p =
    if is_transaction p.form.form_mode
      && settles_before p.form.form_status p.form.form_settled_date p.form.form_date
    then (with_error bad_settled_date p, [])
    else submit today r p.form.form_mode (with_error [] p)
