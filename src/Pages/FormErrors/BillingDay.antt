-- ===== src/Pages/FormErrors/BillingDay.antt =====
-- Which texts validateBillingCycleDay of frontend/lib/formErrors.ts accepts.
use pfv.Common.{
  ℕ, ◌+◌, ◌*◌, ◌-◌, ◌≤◌, ◌≡◌, refl, ap, arith, Bool, true, false, ◌&&◌, ◌||◌, not, [], ◌∷◌,
  if◌then◌else◌, ◌==◌, leb, all, is_some, Bool-cases, inl, inr,
}
use pfv.Common.Text.{Text, trim, is_digit, value_from}
use pfv.Pages.FormErrors.{check_trimmed, validate_billing_cycle_day}

-- A day without leading zeros: `[1-9]|1[0-9]|2[0-8]`.
abbrev one_to_28 : ℕ → Text → Bool
one_to_28 c [] = leb 49 c && leb c 57
one_to_28 c (d ∷ []) = c == 49 && is_digit d || c == 50 && leb 48 d && leb d 56
one_to_28 c (d ∷ e ∷ s) = false

-- `^0*([1-9]|1[0-9]|2[0-8])$`
unfoldable pub is_day_text : Text → Bool
is_day_text [] = false
is_day_text (c ∷ s) = let rest = is_day_text s in if c == 48 then rest else one_to_28 c s

value_grows : (acc : ℕ) (s : Text) → acc ≤ value_from acc s
unfolding value_from
value_grows acc [] = omega arith
value_grows acc (c ∷ s) = omega (arith, value_grows (10 * acc + (c - 48)) s)

abbrev in_range : ℕ → Bool
in_range n = leb 1 n && leb n 28

-- Digits after a number from 1 on.
one_to_28_lem :
    (c : ℕ) (s : Text)
    → c == 48 ≡ false
    → (is_digit c && all is_digit s && in_range (value_from (c - 48) s)) ≡ one_to_28 c s
unfolding value_from
one_to_28_lem c [] h = ground arith
one_to_28_lem c (d ∷ []) h = ground arith
one_to_28_lem c (d ∷ e ∷ s) h =
    ground (arith, value_grows (10 * (10 * (c - 48) + (d - 48)) + (e - 48)) s)

value-head : (c : ℕ) (s : Text) → value_from 0 (c ∷ s) ≡ value_from (c - 48) s
unfolding value_from
value-head c s = ap (λ n. value_from n s) (omega arith)

value-zero : (c : ℕ) (s : Text) → (c == 48) ≡ true → value_from (c - 48) s ≡ value_from 0 s
value-zero c s h = ap (λ n. value_from n s) (ground arith)

digits_lem : (s : Text) → (all is_digit s && in_range (value_from 0 s)) ≡ is_day_text s
unfolding is_day_text
digits_lem [] = unfold value_from in refl
digits_lem (c ∷ s) = elim (Bool-cases (c == 48)) [
  | inl leading ↦ rw (value-head c s, value-zero c s leading) (ground (arith, digits_lem s))
  | inr other ↦ rw (value-head c s) (ground (arith, one_to_28_lem c s other))
]

accepts_iff : (trimmed : Text) → not (is_some (check_trimmed trimmed)) ≡ is_day_text trimmed
accepts_iff [] = unfold is_day_text in refl
accepts_iff (c ∷ s) = rw⁻¹ (digits_lem (c ∷ s)) (ground arith)

-- The day is accepted exactly where the text, without the white space around it, is a decimal from 1
-- to 28 with any number of leading zeros: `^0*([1-9]|1[0-9]|2[0-8])$`.
pub validate_billing_cycle_day-accepts :
    (raw : Text) → not (is_some (validate_billing_cycle_day raw)) ≡ is_day_text (trim raw)
unfolding validate_billing_cycle_day
validate_billing_cycle_day-accepts raw = accepts_iff (trim raw)
