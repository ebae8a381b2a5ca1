-- ===== src/Format/Amounts/Decimals/Figures.antt =====
-- Digit texts: the number that one stands for, and its form without leading or trailing zeros.
use pfv.Common.{
  ℕ, zero, suc, ◌+◌, ◌-◌, ◌*◌, ◌≤◌, ◌<◌, ◌≡◌, refl, sym, ap, ◌∙◌, ◌↔◌, arith, true, false, [], ◌∷◌,
  ◌==◌, leb, length, Bool-cases, inl, inr,
}
use pfv.Common.Text.{Text, value_from}
use pfv.Format.Amounts.{strip_leading, strip_trailing, push_digit}

-- Every code unit is an ASCII digit.
abbrev pub Digits : Text → Type 0
Digits [] = Unit {0}
Digits (c ∷ s) = (48 ≤ c) × (c ≤ 57) × Digits s

-- The `i`-th place after the point; a place that is not written is a zero.
abbrev pub place : Text → ℕ → ℕ
place [] i = 48
place (c ∷ s) zero = c
place (c ∷ s) (suc i) = place s i

place-push_digit : (c : ℕ) (s : Text) (i : ℕ) → place (push_digit c s) i ≡ place (c ∷ s) i
place-push_digit c [] zero = ground arith
place-push_digit c [] (suc i) = ground arith
place-push_digit c (d ∷ s) i = refl

pub place-strip_trailing : (s : Text) (i : ℕ) → place (strip_trailing s) i ≡ place s i
unfolding strip_trailing
place-strip_trailing [] i = refl
place-strip_trailing (c ∷ s) zero = place-push_digit c (strip_trailing s) 0
place-strip_trailing (c ∷ s) (suc i) =
    place-push_digit c (strip_trailing s) (suc i) ∙ place-strip_trailing s i

strip_zeros : (s : Text) → ((i : ℕ) → place s i ≡ 48) → strip_trailing s ≡ []
unfolding strip_trailing
strip_zeros [] h = refl
strip_zeros (c ∷ s) h = rw (strip_zeros s (λ i. h (suc i))) (ground (arith, h 0))

-- Texts with the same places are the same once their trailing zeros are gone.
pub strip_trailing_ext :
    (s t : Text) → ((i : ℕ) → place s i ≡ place t i) → strip_trailing s ≡ strip_trailing t
unfolding strip_trailing
strip_trailing_ext [] t h = sym (strip_zeros t (λ i. sym (h i)))
strip_trailing_ext (c ∷ s) [] h = strip_zeros (c ∷ s) h
strip_trailing_ext (c ∷ s) (d ∷ t) h = rw (h 0, strip_trailing_ext s t (λ i. h (suc i)))

value_lt :
    (s t : Text) (a b : ℕ)
    → Digits s
    → Digits t
    → length s ≡ length t
    → a < b
    → value_from a s < value_from b t
unfolding value_from
value_lt [] [] a b p q e h = h
value_lt [] (d ∷ t) a b p q e h = absurd (omega arith)
value_lt (c ∷ s) [] a b p q e h = absurd (omega arith)
value_lt (c ∷ s) (d ∷ t) a b (c₁, c₂, p) (d₁, d₂, q) e h =
    value_lt s t (10 * a + (c - 48)) (10 * b + (d - 48)) p q (omega arith) (omega arith)

-- A longer text after a digit from one on is a larger number.
value_longer :
    (s t : Text) (a b : ℕ)
    → Digits s
    → Digits t
    → length t < length s
    → 1 ≤ a
    → b ≤ 9
    → value_from b t < value_from a s
unfolding value_from
value_longer [] t a b p q l x y = absurd (omega arith)
value_longer (c ∷ s) t a b (c₁, c₂, p) q l x y = elim (Bool-cases (length t == length s)) [
  | inl same ↦ value_lt t s b (10 * a + (c - 48)) q p (ground arith) (omega arith)
  | inr shorter ↦ value_longer s t (10 * a + (c - 48)) b p q (ground arith) (omega arith) y
]

value_injective :
    (s t : Text) (a b : ℕ)
    → Digits s
    → Digits t
    → length s ≡ length t
    → value_from a s ≡ value_from b t
    → (a ≡ b) × (s ≡ t)
unfolding value_from
value_injective [] [] a b p q e h = (h, refl)
value_injective [] (d ∷ t) a b p q e h = absurd (omega arith)
value_injective (c ∷ s) [] a b p q e h = absurd (omega arith)
value_injective (c ∷ s) (d ∷ t) a b (c₁, c₂, p) (d₁, d₂, q) e h =
    let (n, tails) =
      value_injective s t (10 * a + (c - 48)) (10 * b + (d - 48)) p q (omega arith) h in
    let c_is_d : c ≡ d = omega arith in (omega arith, cc)

-- Digits without a superfluous leading zero.
abbrev pub IsCanonical : Text → Type 0
IsCanonical [] = ⊥
IsCanonical (c ∷ []) = Unit {0}
IsCanonical (c ∷ d ∷ s) = 49 ≤ c

head_positive : (c : ℕ) (s : Text) (n : ℕ) → IsCanonical (c ∷ s) → n < length s → 49 ≤ c
head_positive c [] n h l = absurd (omega arith)
head_positive c (d ∷ s) n h l = h

canonical_ext :
    (s t : Text)
    → Digits s
    → Digits t
    → IsCanonical s
    → IsCanonical t
    → value_from 0 s ≡ value_from 0 t
    → s ≡ t
unfolding value_from
canonical_ext [] t p q x y e = absurd x
canonical_ext (c ∷ s) [] p q x y e = absurd y
canonical_ext (c ∷ s) (d ∷ t) (c₁, c₂, p) (d₁, d₂, q) x y e =
    elim (Bool-cases (length s == length t)) [
      | inl same ↦
          let (n, tails) =
            value_injective s t (10 * 0 + (c - 48)) (10 * 0 + (d - 48)) p q (ground arith) e in
          let c_is_d : c ≡ d = omega arith in cc
      | inr other ↦ elim (Bool-cases (leb (length s) (length t))) [
        | inl shorter ↦
            let d_positive = head_positive d t (length s) y (ground arith) in
            absurd (
              omega (
                arith,
                e,
                value_longer t s (10 * 0 + (d - 48)) (10 * 0 + (c - 48)) q p (ground arith)
                    (omega arith) (omega arith),
              ))
        | inr longer ↦
            let c_positive = head_positive c s (length t) x (ground arith) in
            absurd (
              omega (
                arith,
                e,
                value_longer s t (10 * 0 + (c - 48)) (10 * 0 + (d - 48)) p q (ground arith)
                    (omega arith) (omega arith),
              ))
      ]
    ]

-- Stripping leaves digits of the same value, of which there is one at least.
pub record IsStripped (w s : Text) : Type 0 where
  pub digits : Digits s
  pub canonical : IsCanonical s
  pub same_value : value_from 0 s ≡ value_from 0 w

strip_leading_zero :
    (c d : ℕ) (s : Text)
    → Digits (c ∷ d ∷ s)
    → c == 48 ≡ true
    → strip_leading (c ∷ d ∷ s) ≡ strip_leading (d ∷ s)
unfolding strip_leading
strip_leading_zero c d s h e = ground (arith, h)

strip_leading_other : (c d : ℕ) (s : Text) → c == 48 ≡ false → strip_leading (c ∷ d ∷ s) ≡ c ∷ d ∷ s
unfolding strip_leading
strip_leading_other c d s e = ground arith

value-zero : (c : ℕ) (s : Text) → c == 48 ≡ true → value_from 0 s ≡ value_from 0 (c ∷ s)
unfolding value_from
value-zero c s e = ap (λ n. value_from n s) (ground arith)

pub strip_leading-IsStripped :
    (c : ℕ) (s : Text) → Digits (c ∷ s) → IsStripped (c ∷ s) (strip_leading (c ∷ s))
strip_leading-IsStripped c [] h =
    unfold strip_leading in record { digits = h; canonical = tt; same_value = refl }
strip_leading-IsStripped c (d ∷ s) h = elim (Bool-cases (c == 48)) [
  | inl leading ↦
      let rest = strip_leading-IsStripped d s h.2 in
      rw (strip_leading_zero c d s h leading) (record {
        digits = rest.digits;
        canonical = rest.canonical;
        same_value = rest.same_value ∙ value-zero c (d ∷ s) leading;
      })
  | inr other ↦
      rw (strip_leading_other c d s other)
        (record { digits = h; canonical = ground arith; same_value = refl })
]

-- Whole numbers are equal exactly when they are the same once their leading zeros are gone.
pub strip_leading_iff :
    (c d : ℕ) (s t : Text)
    → Digits (c ∷ s)
    → Digits (d ∷ t)
    → (strip_leading (c ∷ s) ≡ strip_leading (d ∷ t))
      ↔ (value_from 0 (c ∷ s) ≡ value_from 0 (d ∷ t))
strip_leading_iff c d s t p q =
    let x = strip_leading-IsStripped c s p in
    let y = strip_leading-IsStripped d t q in
    (
      λ e. sym x.same_value ∙ ap (value_from 0) e ∙ y.same_value,
      λ e.
          canonical_ext _ _ x.digits y.digits x.canonical y.canonical
            (x.same_value ∙ e ∙ sym y.same_value),
    )

-- The same for the places after the point and trailing zeros.
pub strip_trailing_iff :
    (s t : Text) → (strip_trailing s ≡ strip_trailing t) ↔ ((i : ℕ) → place s i ≡ place t i)
strip_trailing_iff s t = (
  λ e i. sym (place-strip_trailing s i) ∙ ap (λ u. place u i) e ∙ place-strip_trailing t i,
  strip_trailing_ext s t,
)
