-- ===== src/Proxy/Requests/Answers.antt =====
-- What every answer of the proxy carries (frontend/proxy.ts).
use pfv.Common.{
  ℕ, ◌≤◌, ◌≡◌, refl, sym, ◌∙◌, arith, Bool, true, false, ◌&&◌, Option, none, some, [], ◌∷◌, ◌==◌,
  leb, all, length, ◌||◌, ◌⊎◌, All, Bool-cases, inl, inr,
}
use pfv.Common.Text.{Text, codes}
use pfv.Proxy.Headers.{
  same_name, Headers, get_header, set_header, csp_name, build_csp_directives, security_headers,
}
use pfv.Proxy.Headers.Pack.{
  get_header-set_header, apply_security_headers-All, get_header-apply_security_headers_other,
}
use pfv.Proxy.Requests.{
  Platform, Request, request_id_max_len, is_id_code, is_request_id, without_dashes,
  coerce_request_id, entry_of, Answer, redirect, next, is_app_root, stamped, forwarded, proxy,
}

-- A digit, a letter, `_`, `.` or `-`.
abbrev IsHarmless : ℕ → Type 0
IsHarmless c =
    ((48 ≤ c) × (c ≤ 57))
    ⊎ (((65 ≤ c) × (c ≤ 90)) ⊎ (((97 ≤ c) × (c ≤ 122)) ⊎ ((c ≡ 95) ⊎ ((c ≡ 46) ⊎ (c ≡ 45)))))

abbrev pub IsRequestId : Text → Type 0
IsRequestId s = (1 ≤ length s) × (length s ≤ 64) × All IsHarmless s

-- What is documented of `crypto.randomUUID()`, as far as it is used: 36 hexadecimal digits and dashes,
-- the first one a digit.
abbrev is_hex : ℕ → Bool
is_hex c = (leb 48 c && leb c 57) || (leb 97 c && leb c 102)

abbrev pub IsUuid : Text → Type 0
IsUuid [] = length {A = ℕ} [] ≡ 36
IsUuid (c ∷ s) =
    (length (c ∷ s) ≡ 36) × (is_hex c ≡ true) × (all (λ d. is_hex d || d == 45) s ≡ true)

length-without_dashes : (s : Text) → length (without_dashes s) ≤ length s
unfolding without_dashes
length-without_dashes [] = omega arith
length-without_dashes (c ∷ s) = ground (arith, length-without_dashes s)

and_true : (a b : Bool) → (a && b) ≡ true → (a ≡ true) × (b ≡ true)
and_true true b h = (refl, h)
and_true false b h = (h, cc)

is_id_code-IsHarmless : (c : ℕ) → is_id_code c ≡ true → IsHarmless c
is_id_code-IsHarmless c h = ground arith

is_hex-IsHarmless : (c : ℕ) → is_hex c ≡ true → IsHarmless c
is_hex-IsHarmless c h = ground arith

all-IsHarmless : (s : Text) → all is_id_code s ≡ true → All IsHarmless s
all-IsHarmless [] h = tt
all-IsHarmless (c ∷ s) h =
    let (good, rest) = and_true (is_id_code c) (all is_id_code s) h in
    (is_id_code-IsHarmless c good, all-IsHarmless s rest)

without_dashes-IsHarmless :
    (s : Text) → all (λ d. is_hex d || d == 45) s ≡ true → All IsHarmless (without_dashes s)
unfolding without_dashes
without_dashes-IsHarmless [] h = tt
without_dashes-IsHarmless (c ∷ s) h =
    let (good, rest) = and_true (is_hex c || c == 45) (all (λ d. is_hex d || d == 45) s) h in
    elim (Bool-cases (c == b'-')) [
      | inl dash ↦ rw dash (without_dashes-IsHarmless s rest)
      | inr other ↦ rw other (is_hex-IsHarmless c (ground arith), without_dashes-IsHarmless s rest)
    ]

without_dashes-IsRequestId : (s : Text) → IsUuid s → IsRequestId (without_dashes s)
unfolding without_dashes
without_dashes-IsRequestId [] h = absurd (omega (arith, h))
without_dashes-IsRequestId (c ∷ s) (n, hex, rest) = elim (Bool-cases (c == b'-')) [
  | inl dash ↦ absurd (ground arith)
  | inr other ↦ rw other (
    omega arith,
    omega (arith, length-without_dashes s, n),
    (is_hex-IsHarmless c hex, without_dashes-IsHarmless s rest),
  )
]

taken-IsRequestId : (raw : Text) → is_request_id raw ≡ true → IsRequestId raw
taken-IsRequestId [] h = cc
taken-IsRequestId (c ∷ s) h =
    let (short, good) =
      and_true (leb (length (c ∷ s)) request_id_max_len) (all is_id_code (c ∷ s)) h in
    (omega arith, ground (arith, short), all-IsHarmless (c ∷ s) good)

-- Whatever a caller sends, a request id has from 1 to 64 code units, each of them a digit, a letter, a
-- dot, a dash or an underscore, where a random UUID is 36 hexadecimal digits and dashes.
pub coerce_request_id-IsRequestId :
    (random_uuid : Text) (raw : Option Text)
    → IsUuid random_uuid
    → IsRequestId (coerce_request_id random_uuid raw)
unfolding coerce_request_id
coerce_request_id-IsRequestId random_uuid none h = without_dashes-IsRequestId random_uuid h
coerce_request_id-IsRequestId random_uuid (some raw) h = elim (Bool-cases (is_request_id raw)) [
  | inl taken ↦ rw taken (taken-IsRequestId raw taken)
  | inr refused ↦ rw refused (without_dashes-IsRequestId random_uuid h)
]

abbrev pub id_of : Request → Platform → Text
id_of request p =
    coerce_request_id p.random_uuid (get_header (codes "x-request-id") request.headers)

abbrev pub answer_headers : Answer → Headers
answer_headers (redirect pathname search headers) = headers
answer_headers (next request_headers headers entry) = headers

-- What the renderer is given agrees with what the browser is given and with what is logged.
abbrev pub Agrees : Text → Answer → Type 0
Agrees id (redirect pathname search headers) = Unit {0}
Agrees id (next request_headers headers entry) =
    (entry.request_id ≡ id)
    × (get_header (codes "x-request-id") request_headers ≡ some id)
    × (get_header csp_name request_headers ≡ get_header csp_name headers)

stamped-id :
    (p : Platform) (id : Text) (headers : Headers)
    → get_header (codes "x-request-id") (stamped p id headers) ≡ some id
unfolding same_name
stamped-id p id headers =
    get_header-apply_security_headers_other p.build p.nonce (codes "x-request-id")
      (set_header (codes "x-request-id") id headers) (ground arith)
    ∙ get_header-set_header (codes "x-request-id") (codes "x-request-id") id headers

forwarded-id :
    (p : Platform) (id : Text) (headers : Headers)
    → get_header (codes "x-request-id") (forwarded p id headers) ≡ some id
unfolding same_name
forwarded-id p id headers =
    get_header-set_header (codes "x-request-id") csp_name (build_csp_directives p.build p.nonce)
      (set_header (codes "x-nonce") p.nonce (set_header (codes "x-request-id") id headers))
    ∙ get_header-set_header (codes "x-request-id") (codes "x-nonce") p.nonce
        (set_header (codes "x-request-id") id headers)
    ∙ get_header-set_header (codes "x-request-id") (codes "x-request-id") id headers

forwarded-csp :
    (p : Platform) (id : Text) (headers : Headers)
    → get_header csp_name (forwarded p id headers) ≡ some (build_csp_directives p.build p.nonce)
unfolding same_name
forwarded-csp p id headers =
    get_header-set_header csp_name csp_name (build_csp_directives p.build p.nonce)
      (set_header (codes "x-nonce") p.nonce (set_header (codes "x-request-id") id headers))

stamped-All :
    (p : Platform) (id : Text) (headers : Headers)
    → All (λ h. get_header h.0 (stamped p id headers) ≡ some h.1) (security_headers p.build p.nonce)
stamped-All p id headers =
    apply_security_headers-All p.build p.nonce (set_header (codes "x-request-id") id headers)

logged_id : (p : Platform) (id : Text) (request : Request) → (entry_of p id request).request_id ≡ id
unfolding entry_of
logged_id p id request = refl

-- Every answer, the redirect of the app host too, carries the request id and each header of the pack
-- with the nonce of the request; the renderer is given the same id and the same policy, and the id is
-- logged.
pub proxy-Agrees :
    (p : Platform) (headers : Headers) (request : Request)
    → let answer = proxy p headers request in
      (get_header (codes "x-request-id") (answer_headers answer) ≡ some (id_of request p))
      × All
          (λ h. get_header h.0 (answer_headers answer) ≡ some h.1)
          (security_headers p.build p.nonce)
      × Agrees (id_of request p) answer
unfolding proxy
proxy-Agrees p headers request = elim (Bool-cases (is_app_root request)) [
  | inl root ↦
      rw root (stamped-id p (id_of request p) headers, stamped-All p (id_of request p) headers, tt)
  | inr other ↦ rw other (
    stamped-id p (id_of request p) headers,
    stamped-All p (id_of request p) headers,
    (
      logged_id p (id_of request p) request,
      forwarded-id p (id_of request p) request.headers,
      forwarded-csp p (id_of request p) request.headers
          ∙ sym (stamped-All p (id_of request p) headers).0,
    ),
  )
]
