-- ===== src/Server/Fetch/Warnings.antt =====
-- What the warnings of a server-side fetch may hold, and when there is one (frontend/lib/server-fetch.ts).
use pfv.Common.{
  ℕ, ◌≤◌, ◌≡◌, arith, Bool, true, false, ◌||◌, ◌&&◌, not, Option, none, some, [], ◌∷◌,
  if◌then◌else◌, length, All, Bool-cases, inl, inr,
}
use pfv.Common.Text.{Text, codes, Lacks, before, before-Lacks}
use pfv.Common.Json.{Json}
use pfv.Api.Refresh.{is_success}
use pfv.Server.Redaction.Secrets.{length-sanitize_error_message}
use pfv.Server.Fetch.{
  ServerFetchOptions, Transport, answered, thrown, Warning, server_fetch_non_ok,
  server_fetch_failed, method_of, is_silent, classify_thrown, failed_warning, server_fetch_result,
}

-- The path carries no query string and the message is bounded.
abbrev pub IsBounded : Warning → Type 0
IsBounded (server_fetch_non_ok method path status) = Lacks b'?' path
IsBounded (server_fetch_failed method path name message reason ms) =
    Lacks b'?' path × (length message ≤ 514)

failed_warning-IsBounded :
    (path : Text) (o : ServerFetchOptions) (name m reason : Text)
    → IsBounded (failed_warning path o name m reason)
unfolding failed_warning
failed_warning-IsBounded path o name m reason =
    (before-Lacks b'?' path, length-sanitize_error_message m)

non_ok-IsBounded :
    (path method : Text) (status : ℕ) (silent : Bool)
    → All IsBounded
        (if silent then [] else server_fetch_non_ok method (before b'?' path) status ∷ [])
non_ok-IsBounded path method status true = tt
non_ok-IsBounded path method status false = (before-Lacks b'?' path, tt)

-- Every warning of a request, whatever its path, options and failure, has no query string in its path
-- and an error message of at most 514 code units.
pub server_fetch_result-IsBounded :
    (path : Text) (o : ServerFetchOptions) (t : Transport)
    → All IsBounded (server_fetch_result path o t).1
unfolding server_fetch_result
server_fetch_result-IsBounded path o (answered status body name m) = by_status body
  where
    by_status :
        (b : Option Json) → All IsBounded (server_fetch_result path o (answered status b name m)).1
    by_status none = elim (Bool-cases (is_success status)) [
      | inl good ↦ rw good (failed_warning-IsBounded path o name m (codes "invalid_json"), tt)
      | inr bad ↦
          rw bad (non_ok-IsBounded path (method_of o) status (is_silent o.silent_statuses status))
    ]
    by_status (some v) = elim (Bool-cases (is_success status)) [
      | inl good ↦ rw good tt
      | inr bad ↦
          rw bad (non_ok-IsBounded path (method_of o) status (is_silent o.silent_statuses status))
    ]
server_fetch_result-IsBounded path o (thrown t name m) =
    (failed_warning-IsBounded path o name m (classify_thrown t name).1, tt)

-- The request succeeded, or failed with a status that the caller asked to keep quiet.
abbrev pub is_quiet : ServerFetchOptions → Transport → Bool
is_quiet o (answered status (some v) name m) =
    is_success status || is_silent o.silent_statuses status
is_quiet o (answered status none name m) =
    not (is_success status) && is_silent o.silent_statuses status
is_quiet o (thrown t name m) = false

-- Exactly one warning is logged for every request that is not quiet, and none for one that is: no
-- outage goes unnoticed.
pub server_fetch_result-warns :
    (path : Text) (o : ServerFetchOptions) (t : Transport)
    → length (server_fetch_result path o t).1 ≡ (if is_quiet o t then 0 else 1)
unfolding server_fetch_result
server_fetch_result-warns path o (answered status (some v) name m) = ground arith
server_fetch_result-warns path o (answered status none name m) = ground arith
server_fetch_result-warns path o (thrown t name m) = ground arith
