-- ===== src/Server/Tests.antt =====
-- Server-side fetches at concrete inputs (frontend/lib/server-fetch.ts, frontend/lib/auth-server.ts).
use pfv.Common.{◌≤◌, ◌≡◌, refl, true, some, ◌∷◌, ◌++◌, length}
use pfv.Common.Text.{Text, codes, is_space}
use pfv.Server.Redaction.{sanitize_error_message}
use pfv.Server.Redaction.Secrets.{length-sanitize_error_message, sanitize_error_message-hides_query}
use pfv.Server.Fetch.{Transport, thrown}
use pfv.Server.Session.{transient, timed_out, get_server_session_result}
use pfv.Server.Session.Triage.{
  is_unauthenticated, is_refusal, get_server_session_result-unauthenticated_iff,
}

leaky :
    sanitize_error_message (codes "bad url/api?token=SECRET here")
    ≡ codes "bad url/api?[REDACTED] here"
unfolding sanitize_error_message is_space
leaky = refl

abbrev hung : Transport
hung = thrown true (codes "AbortError") (codes "aborted a?b")

abbrev cookie : Text
cookie = codes "r1"

hung_is_transient :
    (get_server_session_result (some cookie) (λ path o. hung)).0 ≡ transient timed_out
unfolding get_server_session_result
hung_is_transient = refl

get_server_session_result-unauthenticated_iff_example :
    is_unauthenticated (get_server_session_result (some cookie) (λ path o. hung)).0
    ≡ is_refusal hung
get_server_session_result-unauthenticated_iff_example =
    get_server_session_result-unauthenticated_iff (some cookie) (λ path o. hung)

length-sanitize_error_message_example : length (sanitize_error_message (codes "no url here")) ≤ 514
length-sanitize_error_message_example = length-sanitize_error_message (codes "no url here")

sanitize_error_message-hides_query_example :
    sanitize_error_message (codes "get /x" ++ b'?' ∷ (codes "t=1" ++ codes " failed"))
    ≡ sanitize_error_message (codes "get /x" ++ b'?' ∷ (codes "t=2" ++ codes " failed"))
unfolding is_space
sanitize_error_message-hides_query_example =
    sanitize_error_message-hides_query (codes "get /x") (codes "t=1") (codes "t=2")
      (codes " failed") (refl, (refl, (refl, tt))) (refl, (refl, (refl, tt))) refl
