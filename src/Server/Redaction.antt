-- ===== src/Server/Redaction.antt =====
-- sanitizeErrorMessage of frontend/lib/server-fetch.ts: query strings are cut from the words of an
-- error message before it is logged.
pub mod Secrets
use pfv.Common.{
  ℕ, Bool, true, false, List, [], ◌∷◌, ◌++◌, map, if◌then◌else◌, ◌==◌, ltb, length, take,
}
use pfv.Common.Text.{Text, codes, is_space, join}

abbrev pub max_error_message_len : ℕ
max_error_message_len = 500

abbrev pub push_head : ℕ → List Text → List Text
push_head c [] = (c ∷ []) ∷ []
push_head c (w ∷ ws) = (c ∷ w) ∷ ws

-- `msg.split(/\s+/)`; `gap` is set inside a run of white space, whose start has ended a word.
unfoldable pub words_from : Bool → Text → List Text
words_from gap [] = [] ∷ []
words_from gap (c ∷ s) =
    let in_gap = words_from true s in
    let in_word = words_from false s in
    if is_space c then (if gap then in_gap else [] ∷ in_gap) else push_head c in_word

-- `token.indexOf("?")` and the slice: from the first question mark on the token is replaced.
unfoldable pub redact : Text → Text
redact [] = []
redact (c ∷ s) = let rest = redact s in if c == b'?' then codes "?[REDACTED]" else c ∷ rest

abbrev pub capped : Text → Text
capped joined =
    if ltb max_error_message_len (length joined)
    then take max_error_message_len joined ++ codes "...[truncated]"
    else joined

unfoldable pub sanitize_error_message : Text → Text
unfolding words_from redact join
sanitize_error_message msg = capped (join (codes " ") (map redact (words_from false msg)))
