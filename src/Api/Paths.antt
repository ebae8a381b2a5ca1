-- ===== src/Api/Paths.antt =====
-- How apiFetch classifies a request path (frontend/lib/api.ts): the recovery paths with their
-- longer time budget, the auth endpoints that skip the preflight refresh, the credential checks
-- whose 401 is final, and the path that is reported in events.
use pfv.Common.{
  ℕ, Bool, true, ◌||◌, Option, ◌≡◌, refl, ◌⊎◌, inl, inr, [], ◌∷◌, arith, or_else, if◌then◌else◌,
}
use pfv.Common.Text.{
  Text, codes, starts_with, includes, before, Lacks, before-Lacks, before-Lacks_other,
  before-prefix,
}

abbrev pub default_timeout_ms : ℕ
default_timeout_ms = 10_000

abbrev pub recovery_timeout_ms : ℕ
recovery_timeout_ms = 45_000

unfoldable pub is_recovery_path : Text → Bool
unfolding includes
is_recovery_path path =
    includes (codes "/auth/refresh") path
    || includes (codes "/auth/me") path
    || includes (codes "/auth/status") path

unfoldable pub timeout_for_path : Text → ℕ
unfolding is_recovery_path
timeout_for_path path = if is_recovery_path path then recovery_timeout_ms else default_timeout_ms

-- `timeoutMs ?? timeoutForPath(path)`
unfoldable pub effective_timeout : Option ℕ → Text → ℕ
unfolding timeout_for_path
effective_timeout timeout_ms path = or_else timeout_ms (timeout_for_path path)

unfoldable pub is_auth_endpoint : Text → Bool
unfolding starts_with
is_auth_endpoint path = starts_with (codes "/api/v1/auth/") path

unfoldable pub is_cred_check : Text → Bool
unfolding starts_with
is_cred_check path =
    starts_with (codes "/api/v1/auth/login") path
    || starts_with (codes "/api/v1/auth/mfa/verify") path

-- `path.split("?")[0].split("#")[0]`
unfoldable pub safe_path : Text → Text
safe_path path = before b'#' (before b'?' path)

-- The reported path holds no query string and no fragment, and is a prefix of the requested path
-- without its query string.
pub safe_path-Lacks :
    (path : Text)
    → Lacks b'?' (safe_path path)
      × Lacks b'#' (safe_path path)
      × (starts_with (safe_path path) (before b'?' path) ≡ true)
      × (starts_with (before b'?' path) path ≡ true)
unfolding safe_path
safe_path-Lacks path = (
  before-Lacks_other b'#' b'?' (before b'?' path) (before-Lacks b'?' path),
  before-Lacks b'#' (before b'?' path),
  before-prefix b'#' (before b'?' path),
  before-prefix b'?' path,
)

-- The common prefix of the auth endpoints.
abbrev auth_prefix : Text
auth_prefix = codes "/api/v1/auth/"

starts_with_longer :
    (p q s : Text) → starts_with p s ≡ true → starts_with q p ≡ true → starts_with q s ≡ true
unfolding starts_with
starts_with_longer p [] s h k = refl
starts_with_longer [] (d ∷ q) s h k = cc
starts_with_longer (c ∷ p) (d ∷ q) [] h k = cc
starts_with_longer (c ∷ p) (d ∷ q) (x ∷ s) h k = ground (arith, starts_with_longer p q s)

or_true : (a b : Bool) → (a || b) ≡ true → (a ≡ true) ⊎ (b ≡ true)
or_true a b h = ground arith

split_cred :
    (path : Text)
    → is_cred_check path ≡ true
    → (starts_with (codes "/api/v1/auth/login") path ≡ true)
      ⊎ (starts_with (codes "/api/v1/auth/mfa/verify") path ≡ true)
unfolding is_cred_check
split_cred path h = or_true _ _ h

-- Every credential check is an auth endpoint, so a request whose 401 is final also skips the
-- preflight refresh: such a request never touches the shared refresh.
pub is_cred_check-is_auth_endpoint :
    (path : Text) → is_cred_check path ≡ true → is_auth_endpoint path ≡ true
is_cred_check-is_auth_endpoint path h = elim (split_cred path h) [
  | inl p ↦
      unfold is_auth_endpoint in
      starts_with_longer (codes "/api/v1/auth/login") auth_prefix path p
        (unfold starts_with in refl)
  | inr p ↦
      unfold is_auth_endpoint in
      starts_with_longer (codes "/api/v1/auth/mfa/verify") auth_prefix path p
        (unfold starts_with in refl)
]
