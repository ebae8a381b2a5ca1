-- ===== src/Api/Errors/Statuses.antt =====
-- What a caller of apiFetch may rely on about the outcome of a response (frontend/lib/api.ts).
use pfv.Common.{
  ℕ, ◌≡◌, ◌≢◌, refl, ◌⊎◌, ◌↔◌, Bool, true, false, Option, none, some, List, [], ◌∷◌, arith, All, ap,
  ◌∙◌,
}
use pfv.Common.Text.{Text, codes, join}
use pfv.Common.Json.{Json, null, bool, num, str, arr, obj, items, member}
use pfv.Api.Token.{Runtime}
use pfv.Api.Refresh.{is_success}
use pfv.Api.Errors.{
  ApiResponseError, api_response_error, Response, Result, returned, threw, describe_entry,
  describe_entries, read_detail, error_body, raise, throw_error, conclude,
}

abbrev pub is_returned : Result → Bool
is_returned (returned v) = true
is_returned (threw e) = false

-- A value is returned exactly when the status is a success and, unless it is 204, the body parses.
pub conclude-returned_iff :
    (rt : Runtime) (res : Response)
    → (is_returned (conclude rt res) ≡ true)
      ↔ ((is_success res.status ≡ true) × ((res.status ≡ 204) ⊎ (res.body ≢ none)))
unfolding conclude
conclude-returned_iff rt res = ground arith

-- No entry of a list of validation errors is `null`.
abbrev pub HasEntries : Option Json → Type 0
HasEntries (some (arr es)) = All (λ e. e ≢ null) (items es)
HasEntries _ = Unit

describe_entry_total :
    (rt : Runtime) (e : Json) → e ≢ null → (w : Text) × (describe_entry rt e ≡ some w)
unfolding describe_entry
describe_entry_total rt null h = absurd (h refl)
describe_entry_total rt (bool b) h = (_, refl)
describe_entry_total rt (num b) h = (_, refl)
describe_entry_total rt (str b) h = (_, refl)
describe_entry_total rt (arr b) h = (_, refl)
describe_entry_total rt (obj b) h = (_, refl)

describe_entries_total :
    (rt : Runtime) (es : List Json)
    → All (λ e. e ≢ null) es
    → (ws : List Text) × (describe_entries rt es ≡ some ws)
unfolding describe_entries
describe_entries_total rt [] h = ([], refl)
describe_entries_total rt (e ∷ es) (p, h) =
    let (w, q) = describe_entry_total rt e p in
    let (ws, r) = describe_entries_total rt es h in (w ∷ ws, rw (q, r))

read_detail_total :
    (rt : Runtime) (d : Option Json)
    → HasEntries d
    → (r : Text × Option Text) × (read_detail rt d ≡ some r)
unfolding read_detail
read_detail_total rt (some (arr es)) h =
    let (ws, q) = describe_entries_total rt (items es) h in
    ((join (codes "; ") ws, none), ground arith)
read_detail_total rt none h = (_, refl)
read_detail_total rt (some null) h = (_, refl)
read_detail_total rt (some (bool b)) h = (_, refl)
read_detail_total rt (some (num n)) h = (_, refl)
read_detail_total rt (some (str s)) h = (_, refl)
read_detail_total rt (some (obj fs)) h = (_, refl)

throw_error-of_body :
    (rt : Runtime) (status : ℕ) (body : Json)
    → body ≢ null
    → throw_error rt status body
      ≡ raise status (member (codes "detail") body) (read_detail rt (member (codes "detail") body))
unfolding throw_error
throw_error-of_body rt status null h = absurd (h refl)
throw_error-of_body rt status (bool b) h = refl
throw_error-of_body rt status (num b) h = refl
throw_error-of_body rt status (str b) h = refl
throw_error-of_body rt status (arr b) h = refl
throw_error-of_body rt status (obj b) h = refl

conclude_of_failure :
    (rt : Runtime) (res : Response)
    → is_success res.status ≡ false
    → conclude rt res ≡ threw (throw_error rt res.status (error_body res))
unfolding conclude
conclude_of_failure rt res h = ground arith

-- A response that is no success becomes an ApiResponseError with its own status and the body's
-- `detail`, whatever the shape of that detail, unless the body or an entry of its list is `null`.
pub conclude-keeps_status :
    (rt : Runtime) (res : Response)
    → is_success res.status ≡ false
    → error_body res ≢ null
    → HasEntries (member (codes "detail") (error_body res))
    → (e : ApiResponseError) × (conclude rt res ≡ threw (api_response_error e))
      × (e.status ≡ res.status)
      × (e.detail ≡ member (codes "detail") (error_body res))
conclude-keeps_status rt res f h k =
    let (r, q) = read_detail_total rt (member (codes "detail") (error_body res)) k in
    (
      _,
      conclude_of_failure rt res f
          ∙ ap threw (throw_error-of_body rt res.status (error_body res) h)
          ∙ ap (λ x. threw (raise res.status (member (codes "detail") (error_body res)) x)) q,
      refl,
      refl,
    )
