-- ===== src/Pages/FormErrors/Copy.antt =====
-- The copy of the settings forms (frontend/lib/formErrors.ts): which texts a failed request can show.
use pfv.Common.{◌≡◌, refl, Bool, true, false, not, List, [], ◌∷◌, if◌then◌else◌, ◌==◌, All, all}
use pfv.Common.Text.{Text, codes}
use pfv.Api.Errors.{ApiResponseError, api_response_error}
use pfv.Pages.FormErrors.{
  mfa_setup_message, setup_rejected, mfa_disable_message, mfa_regenerate_message,
  billing_cycle_message, period_close_message, map_mfa_setup_error, map_mfa_disable_error,
  map_mfa_regenerate_error, map_billing_cycle_error, map_billing_period_close_error,
}

-- The five requests that have messages of their own.
pub data Form : Type 0 where
  mfa_setup mfa_disable mfa_regenerate billing_cycle period_close : Form

abbrev pub shown : Form → Text → ApiResponseError → Text
shown mfa_setup fallback e = map_mfa_setup_error (api_response_error e) fallback
shown mfa_disable fallback e = map_mfa_disable_error (api_response_error e) fallback
shown mfa_regenerate fallback e = map_mfa_regenerate_error (api_response_error e) fallback
shown billing_cycle fallback e = map_billing_cycle_error (api_response_error e) fallback
shown period_close fallback e = map_billing_period_close_error (api_response_error e) fallback

abbrev pub copy : Form → List Text
copy mfa_setup =
    codes "Two-factor authentication is already on. Refresh the page."
    ∷ codes "That code did not match. Codes refresh every 30 seconds, so use the latest one."
    ∷ codes "We could not start setup. Try again in a moment."
    ∷ codes "That code did not match. Try the next code your app shows."
    ∷ codes "Too many attempts. Wait a minute and try again."
    ∷ codes "Two-factor setup is temporarily unavailable. Try again later."
    ∷ []
copy mfa_disable =
    codes "Two-factor authentication is not on. Refresh the page."
    ∷ codes "That password did not match. Check it and try again."
    ∷ codes "Too many attempts. Wait a minute and try again."
    ∷ []
copy mfa_regenerate =
    codes "Two-factor authentication is not on. Turn it on first."
    ∷ codes "That password did not match. Check it and try again."
    ∷ codes "Too many attempts. Wait a minute and try again."
    ∷ []
copy billing_cycle =
    codes "Pick a whole number between 1 and 28."
    ∷ codes "You do not have permission to change the billing cycle."
    ∷ codes "Too many save attempts. Wait a moment and try again."
    ∷ []
copy period_close =
    codes "This period is already closed. Refresh the page to see the next one."
    ∷ codes "You do not have permission to close the period."
    ∷ codes "Too many attempts. Wait a moment and try again."
    ∷ []

module _ {κ} (P : Text → Type κ) where
  holds_if : (b : Bool) (x y : Text) → P x → P y → P (if b then x else y)
  holds_if true x y p q = p
  holds_if false x y p q = q

  -- What holds of the fallback and of every text in a form's copy holds of whatever the form shows
  -- for a response of the server: the server's own text is never shown.
  pub shown-copy :
      (f : Form) (fallback : Text) (e : ApiResponseError)
      → P fallback
      → All P (copy f)
      → P (shown f fallback e)
  unfolding mfa_setup_message setup_rejected mfa_disable_message mfa_regenerate_message
      billing_cycle_message period_close_message
  shown-copy billing_cycle fallback e p (a, (b, (c, u))) =
      holds_if _ _ _ a (holds_if _ _ _ b (holds_if _ _ _ c p))
  shown-copy period_close fallback e p (a, (b, (c, u))) =
      holds_if _ _ _ (holds_if _ _ _ a p) (holds_if _ _ _ b (holds_if _ _ _ c p))
  shown-copy mfa_disable fallback e p (a, (b, (c, u))) =
      holds_if _ _ _ (holds_if _ _ _ a p) (holds_if _ _ _ b (holds_if _ _ _ c p))
  shown-copy mfa_regenerate fallback e p (a, (b, (c, u))) =
      holds_if _ _ _ (holds_if _ _ _ a p) (holds_if _ _ _ b (holds_if _ _ _ c p))
  shown-copy mfa_setup fallback e p (a, (b, (c, (d, (f, (g, u)))))) =
      holds_if _ _ _ (holds_if _ _ _ a (holds_if _ _ _ b c))
        (holds_if _ _ _ d (holds_if _ _ _ f (holds_if _ _ _ g p)))

-- U+2014
abbrev pub has_no_dash : Text → Bool
has_no_dash = all (λ c. not (c == 8212))

copy-has_no_dash : (f : Form) → All (λ t. has_no_dash t ≡ true) (copy f)
copy-has_no_dash mfa_setup = (refl, (refl, (refl, (refl, (refl, (refl, tt))))))
copy-has_no_dash mfa_disable = (refl, (refl, (refl, tt)))
copy-has_no_dash mfa_regenerate = (refl, (refl, (refl, tt)))
copy-has_no_dash billing_cycle = (refl, (refl, (refl, tt)))
copy-has_no_dash period_close = (refl, (refl, (refl, tt)))

-- With a fallback free of em-dashes, no form shows an em-dash, whatever the server's detail holds.
pub shown-has_no_dash :
    (f : Form) (fallback : Text) (e : ApiResponseError)
    → has_no_dash fallback ≡ true
    → has_no_dash (shown f fallback e) ≡ true
shown-has_no_dash f fallback e p =
    shown-copy (λ t. has_no_dash t ≡ true) f fallback e p (copy-has_no_dash f)
