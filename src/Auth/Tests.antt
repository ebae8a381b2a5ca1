-- ===== src/Auth/Tests.antt =====
-- The session at concrete answers (AuthProvider.tsx, frontend/lib/auth.ts).
use pfv.Common.{zero, suc, ◌≡◌, refl, true, false, ◌&&◌, ◌||◌, not, none, some, [], ◌∷◌}
use pfv.Common.Text.{codes}
use pfv.Api.Errors.{Thrown, api_timeout_error, api_response_error}
use pfv.Auth.Roles.{User, member, is_admin, is_owner, is_superadmin, roles_nested}
use pfv.Auth.Provider.{
  fulfilled, failed, with_auth_retry, Session, mounted, Answers, restore, redirects_to_login,
}
use pfv.Auth.Provider.Restore.{ends_dead, answers_setup, restore-redirects}

abbrev ann : User
ann = record { role = member; is_superadmin = false; permissions = some (codes "audit.view" ∷ []) }

abbrev expired : Thrown
expired =
    api_response_error
      (record { status = 401; message = codes "expired"; code = none; detail = none })

-- A cold start: the first status call times out, and the refresh is refused.
abbrev cold : Answers
cold = record {
  status = λ n. elim n [
    | zero ↦ failed api_timeout_error
    | suc k ↦ elim k [ zero ↦ failed api_timeout_error | suc j ↦ fulfilled false ]
  ];
  refresh = λ n. failed expired;
  me = λ n. fulfilled ann;
}

cold_redirects : redirects_to_login (restore cold mounted) ≡ true
unfolding redirects_to_login restore with_auth_retry
cold_redirects = refl

restore-redirects_example :
    redirects_to_login (restore cold mounted) ≡ (ends_dead cold || answers_setup cold)
restore-redirects_example = restore-redirects cold

abbrev signed : Session
signed = record {
  user = some ann;
  loading = false;
  needs_setup = false;
  access_token = some (codes "t");
}

roles_nested_example :
    ((is_superadmin ann && not (is_owner ann)) ≡ false)
    × ((is_owner ann && not (is_admin ann)) ≡ false)
roles_nested_example = roles_nested ann
