-- ===== src/Api/Errors.antt =====
-- What apiFetch does with its last response (frontend/lib/api.ts): the error message and code that
-- it reads from the body, the exception that it throws, and the value that it returns.
pub mod Statuses
use pfv.Common.{
  ℕ, Bool, true, false, ◌&&◌, not, Option, none, some, List, [], ◌∷◌, ◌++◌, if◌then◌else◌, ◌==◌,
}
use pfv.Common.Text.{Text, codes, text_eq, join}
use pfv.Common.Json.{Json, null, bool, num, str, arr, obj, field, end, items, member}
use pfv.Api.Token.{Runtime}
use pfv.Api.Refresh.{is_success}

-- `ApiResponseError`; an absent code or detail is `none`.
pub record ApiResponseError : Type 0 where
  pub status : ℕ
  pub message : Text
  pub code : Option Text
  pub detail : Option Json

-- The values that a rejected call may carry. `error` is any other Error, with its message.
pub data Thrown : Type 0 where
  api_timeout_error : Thrown
  api_response_error : ApiResponseError → Thrown
  error : (message : Text) → Thrown
  not_error : Thrown

-- A response as the code reads it; `body` is `none` where `res.json()` rejects.
pub record Response : Type 0 where
  pub status : ℕ
  pub status_text : Text
  pub body : Option Json

pub data Result : Type 0 where
  returned : Option Json → Result
  threw : Thrown → Result

unfoldable pub timed_out : Text
timed_out = codes "Request timed out. Try again."

unfoldable pub invalid_input : Text
invalid_input = codes "Invalid input"

unfoldable pub request_failed : Text
request_failed = codes "Request failed"

unfoldable pub type_error : Text
type_error = codes "Cannot read properties of null"

unfoldable pub syntax_error : Text
syntax_error = codes "invalid JSON"

-- A value inside a template literal.
abbrev pub text_of : Runtime → Json → Text
text_of rt (str s) = s
text_of rt v = rt.to_string v

-- `loc.filter((p) => p !== "body" && typeof p === "string")`
unfoldable pub location_names : List Json → List Text
location_names [] = []
location_names (str s ∷ ps) =
    let rest = location_names ps in if text_eq s (codes "body") then rest else s ∷ rest
location_names (_ ∷ ps) = location_names ps

-- The string that names the field of an entry, empty where `loc` is no array.
unfoldable pub entry_field : Option Json → Text
unfolding location_names
entry_field (some (arr ps)) = join (codes ".") (location_names (items ps))
entry_field _ = []

-- `e.msg ?? "Invalid input"`
abbrev entry_message : Runtime → Option Json → Text
entry_message rt none = invalid_input
entry_message rt (some null) = invalid_input
entry_message rt (some v) = text_of rt v

abbrev labelled : Text → Text → Text
labelled [] msg = msg
labelled (c ∷ name) msg = (c ∷ name) ++ (codes ": " ++ msg)

-- One entry of a 422 detail; a `null` entry throws.
unfoldable pub describe_entry : Runtime → Json → Option Text
unfolding entry_field member
describe_entry rt null = none
describe_entry rt e =
    some
      (labelled (entry_field (member (codes "loc") e)) (entry_message rt (member (codes "msg") e)))

abbrev cons? : Option Text → Option (List Text) → Option (List Text)
cons? (some w) (some ws) = some (w ∷ ws)
cons? _ _ = none

unfoldable pub describe_entries : Runtime → List Json → Option (List Text)
unfolding describe_entry
describe_entries rt [] = some []
describe_entries rt (e ∷ es) = cons? (describe_entry rt e) (describe_entries rt es)

-- A structured detail has a string `message`, and perhaps a string `code`.
abbrev structured : Option Json → Option Json → Text × Option Text
structured (some (str message)) (some (str code)) = (message, some code)
structured (some (str message)) _ = (message, none)
structured _ _ = (request_failed, none)

-- The message and the code of `body.detail`; `none` is an exception on the way.
unfoldable pub read_detail : Runtime → Option Json → Option (Text × Option Text)
unfolding describe_entries
read_detail rt (some (arr es)) = elim (describe_entries rt (items es)) [
  | none ↦ none
  | some ws ↦ some (join (codes "; ") ws, none)
]
read_detail rt (some (str s)) = some (s, none)
read_detail rt (some (obj fs)) =
    some (structured (member (codes "message") (obj fs)) (member (codes "code") (obj fs)))
read_detail rt _ = some (request_failed, none)

-- `await res.json().catch(() => ({ detail: res.statusText }))`
abbrev pub error_body : Response → Json
error_body res = elim res.body [
  | none ↦ obj (field (codes "detail") (str res.status_text) end)
  | some v ↦ v
]

abbrev raise : ℕ → Option Json → Option (Text × Option Text) → Thrown
raise status detail none = error type_error
raise status detail (some (message, code)) =
    api_response_error (record { status = status; message = message; code = code; detail = detail })

-- `body.detail` of a `null` body throws.
unfoldable pub throw_error : Runtime → ℕ → Json → Thrown
unfolding read_detail member
throw_error rt status null = error type_error
throw_error rt status body =
    raise status (member (codes "detail") body) (read_detail rt (member (codes "detail") body))

-- The end of apiFetch, from `if (!res.ok)`.
unfoldable pub conclude : Runtime → Response → Result
unfolding throw_error
conclude rt res =
    if not (is_success res.status)
    then threw (throw_error rt res.status (error_body res))
    else if res.status == 204
    then returned none
    else elim res.body [ none ↦ threw (error syntax_error) | some v ↦ returned (some v) ]

-- `err instanceof Error ? err.message : fallback`
unfoldable pub extract_error_message : Thrown → Text → Text
extract_error_message api_timeout_error fallback = timed_out
extract_error_message (api_response_error e) fallback = e.message
extract_error_message (error message) fallback = message
extract_error_message not_error fallback = fallback
