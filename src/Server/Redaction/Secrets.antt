-- ===== src/Server/Redaction/Secrets.antt =====
-- What the sanitised message can reveal (frontend/lib/server-fetch.ts).
use pfv.Common.{
  ℕ, zero, suc, ◌≤◌, ◌≡◌, refl, sym, ap, ◌∙◌, inl, inr, arith, Bool, true, false, List, [], ◌∷◌,
  ◌++◌, map, if◌then◌else◌, ◌==◌, ltb, length, length-append, take, Bool-cases, All,
}
use pfv.Common.Text.{Text, codes, is_space, join}
use pfv.Server.Redaction.{
  push_head, words_from, redact, capped, sanitize_error_message, max_error_message_len,
}

length-take_le {ℓ} : {A : Type ℓ} (n : ℕ) (xs : List A) → length (take n xs) ≤ n
length-take_le zero xs = omega arith
length-take_le (suc n) [] = omega arith
length-take_le (suc n) (x ∷ xs) = omega (arith, length-take_le n xs)

length-capped : (t : Text) → length (capped t) ≤ 514
length-capped t = elim (Bool-cases (ltb max_error_message_len (length t))) [
  | inl long ↦
      rw long
        (omega (arith, length-append (take 500 t) (codes "...[truncated]"), length-take_le 500 t))
  | inr short ↦ rw short (ground arith)
]

-- A logged message is never longer than 500 code units and the truncation mark.
pub length-sanitize_error_message : (msg : Text) → length (sanitize_error_message msg) ≤ 514
unfolding sanitize_error_message
length-sanitize_error_message msg =
    length-capped (join (codes " ") (map redact (words_from false msg)))

-- The redacted words of a text read from the middle of a message.
abbrev redacted : Bool → Text → List Text
redacted gap s = map redact (words_from gap s)

abbrev glue : ℕ → List Text → List Text
glue c [] = redact (c ∷ []) ∷ []
glue c (w ∷ ws) = (if c == b'?' then codes "?[REDACTED]" else c ∷ w) ∷ ws

redact-push_head : (c : ℕ) (ws : List Text) → map redact (push_head c ws) ≡ glue c (map redact ws)
unfolding redact
redact-push_head c [] = refl
redact-push_head c (w ∷ ws) = refl

-- One more code unit in front acts on the redacted words alone.
redacted-cons :
    (gap : Bool) (c : ℕ) (s : Text)
    → redacted gap (c ∷ s) ≡ (
        if is_space c
        then (if gap then redacted true s else [] ∷ redacted true s)
        else glue c (redacted false s))
unfolding words_from redact
redacted-cons gap c s = elim (Bool-cases (is_space c)) [
  | inl b ↦ rw b (ground arith)
  | inr b ↦ rw b (redact-push_head c (words_from false s))
]

redacted-append :
    (pre s t : Text)
    → ((g : Bool) → redacted g s ≡ redacted g t)
    → (g : Bool) → redacted g (pre ++ s) ≡ redacted g (pre ++ t)
redacted-append [] s t h g = h g
redacted-append (c ∷ pre) s t h g =
    redacted-cons g c (pre ++ s)
    ∙ rw (redacted-append pre s t h true, redacted-append pre s t h false)
        (sym (redacted-cons g c (pre ++ t)))

abbrev pub NoSpace : Text → Type 0
NoSpace = All (λ c. is_space c ≡ false)

-- The text ends here, or goes on with white space.
abbrev pub EndsWord : Text → Type 0
EndsWord [] = Unit
EndsWord (c ∷ s) = is_space c ≡ true

abbrev words_after : Text → List Text
words_after [] = []
words_after (c ∷ s) = words_from true s

words_from-word :
    (q rest : Text)
    → NoSpace q
    → EndsWord rest
    → words_from false (q ++ rest) ≡ q ∷ words_after rest
unfolding words_from
words_from-word [] [] h e = refl
words_from-word [] (c ∷ s) h e = rw e
words_from-word (c ∷ q) rest (p, h) e = rw (p, words_from-word q rest h e)

redacted-query :
    (q rest : Text) (g : Bool)
    → NoSpace q
    → EndsWord rest
    → redacted g (b'?' ∷ (q ++ rest)) ≡ codes "?[REDACTED]" ∷ map redact (words_after rest)
redacted-query q rest g h e =
    redacted-cons g b'?' (q ++ rest) ∙ rw (question_mark, words_from-word q rest h e)
  where
    question_mark : is_space b'?' ≡ false
    question_mark = unfold is_space in refl

-- The log line does not depend on a query string: whatever stands between a question mark and the
-- next white space, or the end of the message, the sanitised message is the same.
pub sanitize_error_message-hides_query :
    (pre q q' rest : Text)
    → NoSpace q
    → NoSpace q'
    → EndsWord rest
    → sanitize_error_message (pre ++ b'?' ∷ (q ++ rest))
      ≡ sanitize_error_message (pre ++ b'?' ∷ (q' ++ rest))
unfolding sanitize_error_message
sanitize_error_message-hides_query pre q q' rest h h' e =
    ap (λ ws. capped (join (codes " ") ws))
      (redacted-append pre _ _
        (λ g. redacted-query q rest g h e ∙ sym (redacted-query q' rest g h' e)) false)
