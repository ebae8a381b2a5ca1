-- ===== src/Proxy/Tests.antt =====
-- The request proxy at concrete inputs (frontend/proxy.ts).
use pfv.Common.{◌≡◌, refl, true, false, some, [], ◌∷◌, ◌++◌, All}
use pfv.Common.Text.{Text, codes, text_eq}
use pfv.Proxy.Query.{Params, is_sensitive, set_param, redact_params, sanitize_query}
use pfv.Proxy.Query.Loop.{redacted, redact_params-redacted}
use pfv.Proxy.Query.Secrets.{masked, sanitize_query-hides_values}
use pfv.Proxy.Headers.{get_header, same_name, security_headers}
use pfv.Proxy.Requests.{Platform, Request, coerce_request_id, entry_of, is_app_root, proxy}
use pfv.Proxy.Requests.Answers.{
  IsRequestId, coerce_request_id-IsRequestId, id_of, answer_headers, Agrees, proxy-Agrees,
}

-- The text of one token parameter, and of a name that is not sensitive.
abbrev parse : Text → Params
parse s = (codes "token", s) ∷ (codes "page", codes "2") ∷ (codes "token", codes "old") ∷ []

abbrev show : Params → Text
show [] = []
show ((k, v) ∷ ps) = k ++ (v ++ show ps)

redact_params-redacted_example :
    redact_params (λ s. s) (parse (codes "abc")) ≡ redacted (λ s. s) [] (parse (codes "abc"))
redact_params-redacted_example = redact_params-redacted (λ s. s) (parse (codes "abc"))

one_token :
    redact_params (λ s. s) (parse (codes "abc"))
    ≡ (codes "token", codes "[REDACTED]") ∷ (codes "page", codes "2") ∷ []
unfolding redact_params set_param is_sensitive text_eq
one_token = refl

sanitize_query-hides_values_example :
    sanitize_query (λ s. s) parse show (codes "abc")
    ≡ sanitize_query (λ s. s) parse show (codes "xyz")
sanitize_query-hides_values_example =
    sanitize_query-hides_values (λ s. s) parse show (codes "abc") (codes "xyz") (λ e. cc) (λ e. cc)
      (unfold masked is_sensitive text_eq in refl)

abbrev uuid : Text
uuid = codes "3f2a9c01-77b2-4c1e-9d30-0a1b2c3d4e5f"

coerce_request_id-IsRequestId_example : IsRequestId (coerce_request_id uuid (some (codes "a b")))
coerce_request_id-IsRequestId_example =
    coerce_request_id-IsRequestId uuid (some (codes "a b")) (refl, refl, refl)

abbrev platform : Platform
platform = record {
  build = record { is_dev = false; api_origin = codes "https://api.test" };
  lower = λ s. s;
  parse = parse;
  show = show;
  random_uuid = uuid;
  nonce = codes "bm9uY2U=";
  timestamp = codes "2025-01-01T00:00:00.000Z";
}

abbrev root_request : Request
root_request = record {
  method = codes "GET";
  pathname = codes "/";
  search = [];
  headers = (codes "Host", codes "app.thebetterdecision.com") ∷ [];
}

is_redirected : is_app_root root_request ≡ true
unfolding is_app_root same_name
is_redirected = refl

proxy-Agrees_example :
    let answer = proxy platform [] root_request in
    (get_header (codes "x-request-id") (answer_headers answer) ≡ some (id_of root_request platform))
    × All
        (λ h. get_header h.0 (answer_headers answer) ≡ some h.1)
        (security_headers platform.build platform.nonce)
    × Agrees (id_of root_request platform) answer
proxy-Agrees_example = proxy-Agrees platform [] root_request

-- The query of a page that was left is logged as it came.
referer_kept :
    (entry_of platform uuid (record root_request {
      headers = (codes "referer", codes "https://app.test/reset-password?token=abc") ∷ [];
    })).referer
    ≡ some (codes "https://app.test/reset-password?token=abc")
unfolding entry_of same_name
referer_kept = refl
