-- ===== src/Proxy/Query/Secrets.antt =====
-- What is left of the secrets in a query (sanitizeQuery of frontend/proxy.ts).
use pfv.Common.{◌≡◌, ◌≢◌, refl, sym, ap, ◌∙◌, arith, List, [], ◌∷◌, if◌then◌else◌}
use pfv.Common.Text.{Text}
use pfv.Proxy.Query.{Params, is_sensitive, redact_params, unless_empty, sanitize_query}
use pfv.Proxy.Query.Loop.{redacted, redact_params-redacted}

-- Without the values of the sensitive names.
unfoldable pub masked : (Text → Text) → Params → Params
masked lower [] = []
masked lower ((k, v) ∷ ps) =
    let rest = masked lower ps in if is_sensitive lower k then (k, []) ∷ rest else (k, v) ∷ rest

redacted-masked :
    (lower : Text → Text) (seen : List Text) (ps : Params)
    → redacted lower seen (masked lower ps) ≡ redacted lower seen ps
unfolding redacted masked
redacted-masked lower seen [] = refl
redacted-masked lower seen ((k, v) ∷ ps) =
    ground (arith, redacted-masked lower seen ps, redacted-masked lower (k ∷ seen) ps)

-- Two query strings, neither of them empty, that differ only in the values of sensitive parameters are
-- logged alike.
pub sanitize_query-hides_values :
    (lower : Text → Text) (parse : Text → Params) (show : Params → Text) (s t : Text)
    → s ≢ []
    → t ≢ []
    → masked lower (parse s) ≡ masked lower (parse t)
    → sanitize_query lower parse show s ≡ sanitize_query lower parse show t
unfolding sanitize_query
sanitize_query-hides_values lower parse show [] t h k e = absurd (h refl)
sanitize_query-hides_values lower parse show (c ∷ s) [] h k e = absurd (k refl)
sanitize_query-hides_values lower parse show (c ∷ s) (d ∷ t) h k e =
    ap (λ ps. unless_empty (show ps)) (alike (parse (c ∷ s)) (parse (d ∷ t)) e)
  where
    alike :
        (ps qs : Params)
        → masked lower ps ≡ masked lower qs
        → redact_params lower ps ≡ redact_params lower qs
    alike ps qs e =
        redact_params-redacted lower ps
        ∙ sym (redacted-masked lower [] ps)
        ∙ ap (redacted lower []) e
        ∙ redacted-masked lower [] qs
        ∙ sym (redact_params-redacted lower qs)
