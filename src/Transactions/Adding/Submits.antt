-- ===== src/Transactions/Adding/Submits.antt =====
-- What one submit of the new-transaction form does (handleAdd of frontend/app/transactions/page.tsx).
use pfv.Common.{
  ℕ, suc, ◌+◌, ◌≡◌, refl, sym, ap, subst, ◌∙◌, arith, Bool, true, false, ◌&&◌, Option, none, some,
  List, [], ◌∷◌, ◌++◌, if◌then◌else◌, sum_by, sum_by-append,
}
use pfv.Common.Text.{Text}
use pfv.Api.Errors.{Thrown}
use pfv.Auth.Provider.{Outcome, fulfilled, failed}
use pfv.Transactions.Rows.{Transaction}
use pfv.Transactions.Adding.{
  FormMode, transaction, transfer, Form, Page, Request, post_transfer, post_transaction, promote,
  get_list, Replies, message_of, settles_before, is_transaction, bad_settled_date, cleared,
  with_error, after_load, finish, id_of, tags_request, warning_of, promote_request, next_due,
  with_warning, after_promote, create_request, after_create, after_transfer, submit, handle_add,
}

-- Whether a request makes a new transaction or transfer.
abbrev pub creates : Request → ℕ
creates (post_transfer a b c d e f g) = 1
creates (post_transaction a b c d e f g h) = 1
creates _ = 0

abbrev pub is_blocked : Form → Bool
is_blocked f =
    is_transaction f.form_mode && settles_before f.form_status f.form_settled_date f.form_date

creates-finish :
    (today : Text) (r : Replies) (requests : List Request) (p : Page)
    → sum_by creates (finish today r requests p).1 ≡ sum_by creates requests
creates-finish today r requests p = omega (arith, sum_by-append creates requests (get_list ∷ []))

creates-promote_request :
    (today : Text) (f : Form) (id : Option ℕ) → sum_by creates (promote_request today f id) ≡ 0
creates-promote_request today f none = refl
creates-promote_request today f (some id) = ground arith

creates-tags_request :
    (tags : List Text) (id : Option ℕ) → sum_by creates (tags_request tags id) ≡ 0
creates-tags_request [] id = refl
creates-tags_request (t ∷ ts) none = refl
creates-tags_request (t ∷ ts) (some id) = refl

creates-after_promote :
    (today : Text) (r : Replies) (qs : List Request) (answer : Outcome (Unit {0}))
    (requests : List Request) (p warned : Page)
    → sum_by creates qs ≡ 0
    → sum_by creates (after_promote today r qs answer requests p warned).1 ≡ sum_by creates requests
creates-after_promote today r [] answer requests p warned h = creates-finish today r requests warned
creates-after_promote today r (q ∷ qs) (failed e) requests p warned h =
    omega (arith, sum_by-append creates requests (q ∷ qs), h)
creates-after_promote today r (q ∷ qs) (fulfilled done) requests p warned h = omega (
  arith,
  creates-finish today r (requests ++ q ∷ qs) warned,
  sum_by-append creates requests (q ∷ qs),
  h,
)

creates-after_create :
    (today : Text) (r : Replies) (o : Outcome (Option ℕ)) (p : Page)
    → sum_by creates (after_create today r o p).1 ≡ 1
creates-after_create today r (failed e) p = refl
creates-after_create today r (fulfilled created) p = omega (
  arith,
  creates-after_promote today r (promote_request today p.form (id_of created)) r.promoted
      (create_request p.form ∷ tags_request p.form.form_tags (id_of created)) p
      (with_warning (warning_of p.form.form_tags (id_of created) r.tagged) p)
      (creates-promote_request today p.form (id_of created)),
  creates-tags_request p.form.form_tags (id_of created),
)

creates-after_transfer :
    (today : Text) (r : Replies) (o : Outcome (Unit {0})) (p : Page)
    → sum_by creates (after_transfer today r o p).1 ≡ 1
creates-after_transfer today r (failed e) p = refl
creates-after_transfer today r (fulfilled done) p = refl

creates-submit :
    (today : Text) (r : Replies) (m : FormMode) (p : Page)
    → sum_by creates (submit today r m p).1 ≡ 1
creates-submit today r transfer p = creates-after_transfer today r r.transferred p
creates-submit today r transaction p = creates-after_create today r r.created p

-- Whatever the answers, refusals included, a submit sends exactly one request that creates, a
-- transaction or a transfer with its two halves, unless the expected settlement date of a pending
-- transaction is before its date: then it sends none.
pub handle_add-creates :
    (today : Text) (r : Replies) (p : Page)
    → sum_by creates (handle_add today r p).1 ≡ (if is_blocked p.form then 0 else 1)
unfolding handle_add
handle_add-creates today r p =
    ground (arith, creates-submit today r p.form.form_mode (with_error [] p))

-- The form is empty again and closed.
abbrev pub IsCleared : Text → Form → Page → Type 0
IsCleared today f p = (p.form ≡ cleared today f) × (p.show_form ≡ false)

finish-IsCleared :
    (today : Text) (r : Replies) (requests : List Request) (p : Page)
    → IsCleared today p.form (finish today r requests p).0
finish-IsCleared today r requests p = loaded-IsCleared r.list
  where
    loaded-IsCleared :
        (o : Outcome (List Transaction))
        → IsCleared today p.form
            (after_load o (record p { form = cleared today p.form; show_form = false }))
    loaded-IsCleared (fulfilled rows) = (refl, refl)
    loaded-IsCleared (failed e) = (refl, refl)

with_warning-form : (w : Option Text) (p : Page) → (with_warning w p).form ≡ p.form
with_warning-form none p = refl
with_warning-form (some w) p = refl

after_promote-IsCleared :
    (today : Text) (r : Replies) (qs requests : List Request) (p warned : Page)
    → IsCleared today warned.form (after_promote today r qs (fulfilled tt) requests p warned).0
after_promote-IsCleared today r [] requests p warned = finish-IsCleared today r requests warned
after_promote-IsCleared today r (q ∷ qs) requests p warned =
    finish-IsCleared today r (requests ++ q ∷ qs) warned

-- The course of a submit whose transaction is created.
abbrev promoting : Text → Replies → Page → Option ℕ → Outcome (Unit {0}) → Page × List Request
promoting today r p id answer =
    after_promote today r (promote_request today p.form id) answer
      (create_request p.form ∷ tags_request p.form.form_tags id) (with_error [] p)
      (with_warning (warning_of p.form.form_tags id r.tagged) (with_error [] p))

handle_add-promoting :
    (today : Text) (r : Replies) (p : Page) (created : Option ℕ)
    → p.form.form_mode ≡ transaction
    → is_blocked p.form ≡ false
    → r.created ≡ fulfilled created
    → handle_add today r p ≡ promoting today r p (id_of created) r.promoted
unfolding handle_add
handle_add-promoting today r p created m b c =
    ap
      (λ (blocked : Bool).
        if blocked
        then (with_error bad_settled_date p, [])
        else submit today r p.form.form_mode (with_error [] p))
      b
    ∙ ap (λ k. submit today r k (with_error [] p)) m
    ∙ ap (λ o. after_create today r o (with_error [] p)) c

-- Once a transaction is created the form is emptied and closed, whether or not its tags could be
-- applied and the list reloaded, provided that a promotion, if one is asked for, succeeds.
pub handle_add-IsCleared :
    (today : Text) (r : Replies) (p : Page) (created : Option ℕ)
    → p.form.form_mode ≡ transaction
    → is_blocked p.form ≡ false
    → r.created ≡ fulfilled created
    → r.promoted ≡ fulfilled tt
    → IsCleared today p.form (handle_add today r p).0
handle_add-IsCleared today r p created m b c o =
    let id = id_of created in
    let warning = warning_of p.form.form_tags id r.tagged in
    let course =
      handle_add-promoting today r p created m b c
      ∙ ap (λ answer. promoting today r p id answer) o in
    subst (λ x. IsCleared today p.form x.0) (sym course)
      (subst (λ f. IsCleared today f (promoting today r p id (fulfilled tt)).0)
        (with_warning-form warning (with_error [] p))
        (after_promote-IsCleared today r (promote_request today p.form id)
          (create_request p.form ∷ tags_request p.form.form_tags id) (with_error [] p)
          (with_warning warning (with_error [] p))))

id_of-suc : (n : ℕ) → id_of (some (suc n)) ≡ some (suc n)
id_of-suc n = ground arith

promote_request-recurring :
    (today : Text) (f : Form) (id : ℕ)
    → f.form_recurring ≡ true
    → (q : Request) × (promote_request today f (some id) ≡ q ∷ [])
promote_request-recurring today f id h =
    (promote id f.form_frequency (next_due today f.form_date) f.form_auto_settle, ground (arith, h))

-- Where a promotion fails after its transaction was created, the form keeps everything that was
-- entered and stays open, so that another submit of it creates the transaction again.
pub handle_add-creates_twice :
    (today : Text) (r again : Replies) (p : Page) (n : ℕ) (e : Thrown)
    → p.form.form_mode ≡ transaction
    → is_blocked p.form ≡ false
    → p.form.form_recurring ≡ true
    → r.created ≡ fulfilled (some (suc n))
    → r.promoted ≡ failed e
    → let (next, sent) = handle_add today r p in
      (next.form ≡ p.form)
      × (next.show_form ≡ p.show_form)
      × (sum_by creates sent + sum_by creates (handle_add today again next).1 ≡ 2)
handle_add-creates_twice today r again p n e m b q c o =
    let (request, asked) = promote_request-recurring today p.form (suc n) q in
    let course : (handle_add today r p).0 ≡ with_error (message_of e) (with_error [] p) =
      ap (λ x. x.0)
        (handle_add-promoting today r p (some (suc n)) m b c
          ∙ ap (λ id. promoting today r p id r.promoted) (id_of-suc n)
          ∙ ap (λ answer. promoting today r p (some (suc n)) answer) o)
      ∙ ap
          (λ qs.
            (after_promote today r qs (failed e)
              (create_request p.form ∷ tags_request p.form.form_tags (some (suc n)))
              (with_error [] p)
              (with_warning (warning_of p.form.form_tags (some (suc n)) r.tagged)
                (with_error [] p))).0)
          asked in
    (
      ap (λ x. x.form) course,
      ap (λ x. x.show_form) course,
      omega (
        arith,
        handle_add-creates today r p,
        handle_add-creates today again (handle_add today r p).0,
        ap {B = ℕ} (λ (x : Bool). if x then 0 else 1) b,
        ap {B = ℕ} (λ (x : Page). if is_blocked x.form then 0 else 1) course,
      ),
    )
