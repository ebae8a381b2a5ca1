-- ===== src/Proxy/Query.antt =====
-- sanitizeQuery of frontend/proxy.ts. The parsing and printing of URLSearchParams and toLowerCase are
-- arguments; its pairs are a list, over which `keys()` runs by index while `set` changes it.
pub mod Loop
pub mod Secrets
use pfv.Common.{
  ℕ, zero, suc, ◌+◌, Bool, true, false, Option, none, some, List, [], ◌∷◌, if◌then◌else◌, any,
  length, get_elem?,
}
use pfv.Common.Text.{Text, codes, text_eq}

abbrev pub Params : Type 0
Params = List (Text × Text)

abbrev pub sensitive_params : List Text
sensitive_params =
    codes "token"
    ∷ codes "code"
    ∷ codes "access_token"
    ∷ codes "refresh_token"
    ∷ codes "mfa_token"
    ∷ codes "key"
    ∷ codes "secret"
    ∷ codes "password"
    ∷ []

unfoldable pub is_sensitive : (Text → Text) → Text → Bool
is_sensitive lower key = any (text_eq (lower key)) sensitive_params

abbrev pub redacted_marker : Text
redacted_marker = codes "[REDACTED]"

-- All pairs of a name go.
unfoldable pub drop_name : Text → Params → Params
drop_name key [] = []
drop_name key ((k, v) ∷ ps) =
    let rest = drop_name key ps in if text_eq k key then rest else (k, v) ∷ rest

-- `params.set(key, value)` of a name that is there: the first pair changes, and the others go.
unfoldable pub set_param : Text → Text → Params → Params
unfolding drop_name
set_param key value [] = (key, value) ∷ []
set_param key value ((k, v) ∷ ps) =
    let rest = set_param key value ps in
    if text_eq k key then (k, value) ∷ drop_name key ps else (k, v) ∷ rest

-- The body of the loop at the pair that `keys()` has reached, if there is one.
abbrev pub redact : (Text → Text) → Option (Text × Text) → Params → Params
redact lower none ps = ps
redact lower (some (key, v)) ps =
    if is_sensitive lower key then set_param key redacted_marker ps else ps

-- `for (const key of params.keys())`, from index `i` on; the list does not grow, so that its length is
-- enough fuel.
unfoldable pub redact_from : (Text → Text) → ℕ → ℕ → Params → Params
redact_from lower zero i ps = ps
redact_from lower (suc fuel) i ps =
    redact_from lower fuel (suc i) (redact lower (get_elem? ps i) ps)

unfoldable pub redact_params : (Text → Text) → Params → Params
unfolding redact_from
redact_params lower ps = redact_from lower (length ps) 0 ps

-- `… || undefined`
abbrev pub unless_empty : Text → Option Text
unless_empty [] = none
unless_empty (c ∷ s) = some (c ∷ s)

unfoldable pub sanitize_query :
    (Text → Text) → (Text → Params) → (Params → Text) → Text → Option Text
unfolding redact_params
sanitize_query lower parse show [] = none
sanitize_query lower parse show (c ∷ s) = unless_empty (show (redact_params lower (parse (c ∷ s))))
