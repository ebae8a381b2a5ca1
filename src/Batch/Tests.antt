-- ===== src/Batch/Tests.antt =====
-- Runs of batch entry on small grids.
use pfv.Common.{
  ◌+◌, ◌≡◌, ◌≤◌, refl, arith, Bool, true, false, none, some, List, [], ◌∷◌, map, length, All,
}
use pfv.Common.Text.{Text, codes}
use pfv.Auth.Provider.{fulfilled}
use pfv.Batch.Entry.{
  Browser, Response, Page, set_description, set_amount, set_account, set_category, submit_enabled,
  populated_rows, idle, ok, error,
}
use pfv.Batch.Entry.Submits.{payload_rows}
use pfv.Batch.Entry.Runs.{
  Action, start, run, act, updated, picked, added, submitted, removed, answered,
}
use pfv.Batch.Entry.Keys.{IsUnique, Distinct, keys, sent_keys}
use pfv.Batch.Entry.Limits.{run-start}
use pfv.Batch.Entry.Answers.{settled, end_submit-settled}
use pfv.Batch.Entry.Posts.{act-submitted}
use pfv.Batch.Entry.Requests.{IsRequest, posted-IsRequest}

abbrev is_number : Text → Bool
is_number [] = false
is_number (_ ∷ _) = true

abbrev browser : Browser
browser = record { random_uuid = λ n. n + 100; today = codes "2026-05-13"; is_positive = is_number }

browser-IsUnique : IsUnique browser
browser-IsUnique m n h = omega (arith, h)

-- Two rows are filled, a third is started and emptied by its removal, and the two are posted.
abbrev actions : List Action
actions =
    updated 1 (set_description (codes " tea "))
    ∷ updated 1 (set_amount (codes "3.10"))
    ∷ updated 1 (set_account (some 7))
    ∷ updated 1 (set_category (some 4))
    ∷ picked 3 (codes "bus") 5
    ∷ updated 3 (set_amount (codes "2"))
    ∷ updated 3 (set_account (some 7))
    ∷ added
    ∷ removed 0
    ∷ submitted
    ∷ []

abbrev answer : Response
answer = record {
  imported_count = 1;
  error_count = 1;
  results = record { row_number = 1; transaction_id = 90 } ∷ [];
  errors = record { row_number = 2; message = codes "Account closed" } ∷ [];
}

abbrev page : Page
unfolding run start
page = run browser actions (start browser)

page_posts : (length page.posted ≡ 1) × (length page.rows ≡ 5)
unfolding page
page_posts = (refl, refl)

page_marks :
    map (λ row. row.status) (act browser (answered (fulfilled answer)) page).rows
    ≡ ok ∷ idle ∷ error ∷ idle ∷ idle ∷ []
unfolding page act
page_marks = refl

run-start_example :
    (1 ≤ length page.rows)
    × (length page.rows ≤ 500)
    × Distinct (keys page.rows)
    × Distinct (sent_keys page.in_flight)
unfolding page
run-start_example = run-start browser browser-IsUnique actions

end_submit-settled_example :
    let sent = populated_rows page.rows in
    let q = act browser (answered (fulfilled answer)) page in
    (q.rows ≡ map (settled answer 1 sent) page.rows) × (q.submitting ≡ false) × (q.in_flight ≡ none)
unfolding page populated_rows
end_submit-settled_example =
    end_submit-settled browser browser-IsUnique actions answer (populated_rows page.rows) refl

posted-IsRequest_example : All (IsRequest browser) page.posted
unfolding page
posted-IsRequest_example = posted-IsRequest browser browser-IsUnique actions

-- The grid before its first submit.
abbrev filled : List Action
filled =
    updated 1 (set_description (codes " tea "))
    ∷ updated 1 (set_amount (codes "3.10"))
    ∷ updated 1 (set_account (some 7))
    ∷ updated 1 (set_category (some 4))
    ∷ []

act-submitted_example :
    let p = run browser filled (start browser) in
    let request = payload_rows 0 (populated_rows p.rows) in
    let q = act browser (answered (fulfilled answer)) (act browser submitted p) in
    (submit_enabled browser q ≡ true)
    × ((act browser submitted q).posted ≡ request ∷ request ∷ p.posted)
unfolding run start submit_enabled
act-submitted_example = act-submitted browser answer (run browser filled (start browser)) refl
