-- ===== src/Pages/Tests.antt =====
-- The tour, the heartbeat, paging and the form messages at concrete inputs (frontend/lib and
-- frontend/components/tour).
use pfv.Common.{
  ℕ, zero, suc, ◌*◌, ◌≡◌, refl, ap, ◌∙◌, arith, ◌+◌, ◌==◌, true, false, not, none, some, List, [],
  ◌∷◌, ◌++◌, if◌then◌else◌, take, drop, is_some,
}
use pfv.Common.Int.{pos}
use pfv.Common.Text.{Text, codes, includes, trim}
use pfv.Api.Token.{Runtime}
use pfv.Api.Errors.{ApiResponseError, api_response_error}
use pfv.Pages.Moves.{expense, SubcategoryDragData, MasterDropData}
use pfv.Pages.Tour.{
  active, TourAction, on_start, on_next, on_prev, on_close, microtask, act_all, mounted,
  current_step,
}
use pfv.Pages.Tour.Walk.{presses, act_all-walks}
use pfv.Pages.KeepWarm.{
  Heartbeat, Beat, beat, beat_all, start_keep_warm, hides, shows, visibility_event, unauthenticated,
  tick,
}
use pfv.Pages.KeepWarm.Silence.{beat_all-silent}
use pfv.Pages.Pagination.{Page, rows, all_rows, fetch_all, page_url}
use pfv.Pages.Pagination.Complete.{fetch_all-take}
use pfv.Pages.FormErrors.{validate_billing_cycle_day, map_mfa_setup_error, mfa_setup_message}
use pfv.Pages.FormErrors.BillingDay.{is_day_text, validate_billing_cycle_day-accepts}

abbrev two_steps : List Text
two_steps = codes "accounts" ∷ codes "budget" ∷ []

abbrev there_and_back : List TourAction
there_and_back = on_start two_steps ∷ microtask ∷ on_next ∷ on_prev ∷ on_close ∷ []

act_all-walks_example :
    let s = (act_all (on_start two_steps ∷ presses 1) mounted).state in
    (current_step s ≡ some (codes "budget")) × (s.phase ≡ active)
act_all-walks_example = act_all-walks 1 (codes "accounts") (codes "budget" ∷ []) mounted refl

abbrev away_and_back : List Beat
away_and_back = hides ∷ visibility_event ∷ shows ∷ visibility_event ∷ []

away_pings : (beat_all away_and_back (start_keep_warm false)).pings ≡ 2
unfolding beat_all start_keep_warm
away_pings = refl

beat_all-silent_example :
    let b = beat_all away_and_back (start_keep_warm false) in
    (beat_all (away_and_back ++ tick 1 ∷ []) (beat unauthenticated b)).pings ≡ b.pings
beat_all-silent_example =
    beat_all-silent away_and_back (away_and_back ++ tick 1 ∷ []) false unauthenticated refl

abbrev in_background : Heartbeat
in_background = record {
  timer = some 0;
  stopped_permanently = false;
  listening = true;
  document_hidden = true;
  live = 0 ∷ [];
  handles = 1;
  pings = 1;
}

abbrev paused : Heartbeat
paused = record in_background { timer = none; live = [] }

-- An endpoint of three items in pages of two, for numbers written in unary: the length of the URL
-- tells its offset.
abbrev unary : ℕ → Text
unary zero = []
unary (suc n) = b'1' ∷ unary n

abbrev three : List ℕ
three = 7 ∷ 8 ∷ 9 ∷ []

-- The offset is what follows the last equals sign.
abbrev offset_of : Text → ℕ → ℕ
offset_of [] n = n
offset_of (c ∷ s) n = offset_of s (if c == b'=' then 0 else suc n)

abbrev endpoint : Text → Page ℕ
endpoint url = rows (take 2 (drop (offset_of url 0) three))

offset_of-unary : (o n : ℕ) → offset_of (unary o) n ≡ n + o
offset_of-unary zero n = omega arith
offset_of-unary (suc o) n = offset_of-unary o (suc n) ∙ omega arith

endpoint-page_url :
    (o : ℕ) → endpoint (page_url unary (codes "/x") 2 o) ≡ rows (take 2 (drop o three))
unfolding page_url includes
endpoint-page_url o = ap (λ n. rows (take 2 (drop n three))) (offset_of-unary o 0 ∙ omega arith)

fetch_all-take_example : fetch_all unary endpoint (codes "/x") 2 ≡ all_rows (take (100 * 2) three)
fetch_all-take_example =
    fetch_all-take unary endpoint (codes "/x") 2 three (omega arith) endpoint-page_url

three_pages : fetch_all unary endpoint (codes "/x") 2 ≡ all_rows (7 ∷ 8 ∷ 9 ∷ [])
unfolding fetch_all includes
three_pages = refl

day_rejected :
    validate_billing_cycle_day (codes " 29 ") ≡ some (codes "Pick a whole number between 1 and 28.")
unfolding validate_billing_cycle_day
day_rejected = refl

validate_billing_cycle_day-accepts_example :
    not (is_some (validate_billing_cycle_day (codes " 028"))) ≡ is_day_text (trim (codes " 028"))
validate_billing_cycle_day-accepts_example = validate_billing_cycle_day-accepts (codes " 028")

abbrev wrong_code : ApiResponseError
wrong_code = record {
  status = 400;
  message = codes "Invalid TOTP code";
  code = none;
  detail = none;
}

wrong_code_shown :
    map_mfa_setup_error (api_response_error wrong_code) []
    ≡ codes "That code did not match. Codes refresh every 30 seconds, so use the latest one."
unfolding mfa_setup_message
wrong_code_shown = refl

abbrev rent : SubcategoryDragData
rent = record {
  subcategory_id = pos 4;
  subcategory_name = codes "Rent";
  subcategory_type = expense;
  parent_id = pos 1;
}

abbrev housing : MasterDropData
housing = record { master_id = pos 2; master_type = expense }

abbrev ascii : Runtime
ascii = record {
  has_window = true;
  atob = λ s. none;
  parse = λ s. none;
  show = λ n. [];
  to_string = λ v. [];
}
