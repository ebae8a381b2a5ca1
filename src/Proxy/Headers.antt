-- ===== src/Proxy/Headers.antt =====
-- The header pack of frontend/lib/security-headers.ts and how frontend/proxy.ts stamps it. The mode of
-- the build and the origin of the API are arguments.
pub mod Pack
use pfv.Common.{
  ℕ, ◌+◌, Bool, true, false, ◌&&◌, Option, none, some, List, [], ◌∷◌, ◌++◌, if◌then◌else◌, leb, map,
}
use pfv.Common.Text.{Text, codes, text_eq, join}

-- Header names are compared without their case.
abbrev pub lower_code : ℕ → ℕ
lower_code c = if leb 65 c && leb c 90 then c + 32 else c

unfoldable pub lower_name : Text → Text
lower_name [] = []
lower_name (c ∷ s) = lower_code c ∷ lower_name s

unfoldable pub same_name : Text → Text → Bool
unfolding lower_name text_eq
same_name a b = text_eq (lower_name a) (lower_name b)

abbrev pub Headers : Type 0
Headers = List (Text × Text)

-- `headers.get(name)`
unfoldable pub get_header : Text → Headers → Option Text
get_header name [] = none
get_header name ((k, v) ∷ headers) =
    let rest = get_header name headers in if same_name k name then some v else rest

-- `headers.set(name, value)`
unfoldable pub set_header : Text → Text → Headers → Headers
set_header name value [] = (name, value) ∷ []
set_header name value ((k, v) ∷ headers) =
    let rest = set_header name value headers in
    if same_name k name then (k, value) ∷ headers else (k, v) ∷ rest

pub record Build : Type 0 where
  pub is_dev : Bool
  pub api_origin : Text

abbrev pub script_src : Bool → Text → Text
script_src is_dev nonce =
    codes "script-src 'self' 'nonce-"
    ++ (nonce
        ++ (codes "' 'strict-dynamic'"
            ++ (if is_dev then codes " 'unsafe-inline' 'unsafe-eval'" else [])))

abbrev pub style_src : Bool → Text → Text
style_src is_dev nonce =
    codes "style-src 'self' 'nonce-"
    ++ (nonce
        ++ (if is_dev
            then codes "' 'unsafe-inline' https://fonts.googleapis.com"
            else codes "' https://fonts.googleapis.com"))

-- `origin ? " " + origin : ""`
abbrev pub spaced : Text → Text
spaced [] = []
spaced (c ∷ s) = b' ' ∷ c ∷ s

abbrev pub connect_src : Build → Text
connect_src build =
    codes "connect-src 'self'"
    ++ (spaced build.api_origin ++ (if build.is_dev then codes " ws: wss:" else []))

unfoldable pub build_csp_directives : Build → Text → Text
unfolding join
build_csp_directives build nonce = join (codes "; ") (
    codes "default-src 'self'"
    ∷ script_src build.is_dev nonce
    ∷ style_src build.is_dev nonce
    ∷ codes "style-src-attr 'unsafe-inline'"
    ∷ codes "img-src 'self' data: blob:"
    ∷ codes "font-src 'self' data: https://fonts.gstatic.com"
    ∷ connect_src build
    ∷ codes "frame-ancestors 'none'"
    ∷ codes "base-uri 'self'"
    ∷ codes "form-action 'self'"
    ∷ codes "object-src 'none'"
    ∷ codes "upgrade-insecure-requests"
    ∷ [])

abbrev pub csp_name : Text
csp_name = codes "Content-Security-Policy"

-- `securityHeadersTuplesWithNonce`
abbrev pub security_headers : Build → Text → Headers
security_headers build nonce =
    (csp_name, build_csp_directives build nonce)
    ∷ (codes "X-Frame-Options", codes "DENY")
    ∷ (codes "X-Content-Type-Options", codes "nosniff")
    ∷ (codes "Referrer-Policy", codes "strict-origin-when-cross-origin")
    ∷ (
      codes "Permissions-Policy",
      codes "camera=(), microphone=(), geolocation=(), interest-cohort=()",
    )
    ∷ (codes "Strict-Transport-Security", codes "max-age=63072000; includeSubDomains; preload")
    ∷ (codes "Cross-Origin-Opener-Policy", codes "same-origin")
    ∷ (codes "Cross-Origin-Resource-Policy", codes "same-origin")
    ∷ []

-- The loop of applySecurityHeaders.
unfoldable pub set_headers : Headers → Headers → Headers
unfolding set_header
set_headers [] headers = headers
set_headers ((k, v) ∷ pack) headers = set_headers pack (set_header k v headers)

unfoldable pub apply_security_headers : Build → Text → Headers → Headers
unfolding set_headers
apply_security_headers build nonce headers = set_headers (security_headers build nonce) headers
