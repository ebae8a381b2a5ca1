-- ===== src/Proxy/Requests.antt =====
-- proxy of frontend/proxy.ts: what is answered to a request, and what is logged of it. The random id,
-- the nonce, the clock, toLowerCase and URLSearchParams are the platform's.
pub mod Answers
use pfv.Common.{
  ℕ, Bool, true, false, ◌&&◌, ◌||◌, Option, none, some, List, [], ◌∷◌, ◌++◌, if◌then◌else◌, ◌==◌,
  leb, all, length,
}
use pfv.Common.Text.{Text, codes, text_eq, split, head_or, trim, is_digit}
use pfv.Proxy.Query.{Params, sanitize_query}
use pfv.Proxy.Headers.{
  Build, Headers, get_header, set_header, csp_name, build_csp_directives, apply_security_headers,
}

pub record Platform : Type 0 where
  pub build : Build
  pub lower : Text → Text
  pub parse : Text → Params
  pub show : Params → Text
  pub random_uuid : Text
  pub nonce : Text
  pub timestamp : Text

pub record Request : Type 0 where
  pub method : Text
  pub pathname : Text
  pub search : Text
  pub headers : Headers

abbrev pub request_id_max_len : ℕ
request_id_max_len = 64

-- `[\w.\-]`
abbrev pub is_id_code : ℕ → Bool
is_id_code c =
    is_digit c
    || (leb 65 c && leb c 90)
    || (leb 97 c && leb c 122)
    || c == b'_'
    || c == b'.'
    || c == b'-'

abbrev pub is_request_id : Text → Bool
is_request_id [] = false
is_request_id (c ∷ s) = leb (length (c ∷ s)) request_id_max_len && all is_id_code (c ∷ s)

-- `.replace(/-/g, "")`
unfoldable pub without_dashes : Text → Text
without_dashes [] = []
without_dashes (c ∷ s) = let rest = without_dashes s in if c == b'-' then rest else c ∷ rest

unfoldable pub coerce_request_id : Text → Option Text → Text
unfolding without_dashes
coerce_request_id random_uuid none = without_dashes random_uuid
coerce_request_id random_uuid (some raw) =
    if is_request_id raw then raw else without_dashes random_uuid

-- `|| undefined`
abbrev pub truthy_text : Option Text → Option Text
truthy_text (some (c ∷ s)) = some (c ∷ s)
truthy_text _ = none

abbrev pub or_unknown : Option Text → Text
or_unknown (some (c ∷ s)) = c ∷ s
or_unknown _ = codes "unknown"

-- The first address of x-forwarded-for, or x-real-ip.
abbrev pub forwarded_or : Option Text → Option Text → Text
forwarded_or (some (c ∷ s)) real_ip = trim (head_or [] (split b',' (c ∷ s)))
forwarded_or _ real_ip = or_unknown real_ip

unfoldable pub client_ip : Headers → Text
unfolding get_header split trim
client_ip headers =
    forwarded_or (get_header (codes "x-forwarded-for") headers)
      (get_header (codes "x-real-ip") headers)

-- Keys that are undefined are `none`; they are left out of the line.
pub record LogEntry : Type 0 where
  pub timestamp : Text
  pub request_id : Text
  pub method : Text
  pub path : Text
  pub query : Option Text
  pub remote_addr : Text
  pub user_agent : Option Text
  pub referer : Option Text

unfoldable pub entry_of : Platform → Text → Request → LogEntry
unfolding sanitize_query client_ip get_header
entry_of p request_id request = record {
  timestamp = p.timestamp;
  request_id = request_id;
  method = request.method;
  path = request.pathname;
  query = sanitize_query p.lower p.parse p.show request.search;
  remote_addr = client_ip request.headers;
  user_agent = truthy_text (get_header (codes "user-agent") request.headers);
  referer = truthy_text (get_header (codes "referer") request.headers);
}

-- `headers` are those of the answer; `request_headers` are handed to the renderer.
pub data Answer : Type 0 where
  redirect : (pathname search : Text) → (headers : Headers) → Answer
  next : (request_headers headers : Headers) → LogEntry → Answer

abbrev pub app_host : Text
app_host = codes "app.thebetterdecision.com"

abbrev pub is_host : Option Text → Bool
is_host (some host) = text_eq host app_host
is_host none = false

-- `url.pathname === "/" && host === APP_HOST`
unfoldable pub is_app_root : Request → Bool
unfolding text_eq get_header
is_app_root request =
    text_eq request.pathname (codes "/") && is_host (get_header (codes "host") request.headers)

-- The id and the pack on an answer that has the platform's own `headers`.
abbrev pub stamped : Platform → Text → Headers → Headers
stamped p request_id headers =
    apply_security_headers p.build p.nonce (set_header (codes "x-request-id") request_id headers)

abbrev pub forwarded : Platform → Text → Headers → Headers
forwarded p request_id headers =
    set_header csp_name (build_csp_directives p.build p.nonce)
      (set_header (codes "x-nonce") p.nonce (set_header (codes "x-request-id") request_id headers))

abbrev pub answer_with : Platform → Text → Headers → Request → Answer
answer_with p request_id headers request =
    if is_app_root request
    then redirect (codes "/login") request.search (stamped p request_id headers)
    else next (forwarded p request_id request.headers) (stamped p request_id headers)
        (entry_of p request_id request)

-- `headers` are those that the platform gives a new answer.
unfoldable pub proxy : Platform → Headers → Request → Answer
unfolding coerce_request_id get_header set_header apply_security_headers build_csp_directives
proxy p headers request =
    answer_with p
      (coerce_request_id p.random_uuid (get_header (codes "x-request-id") request.headers)) headers
      request
