-- ===== src/Format/Amounts/Decimals.antt =====
-- What it means for two decimals to be the same amount, and that equalsAmount of
-- frontend/lib/format.ts decides it.
mod Figures
use pfv.Common.{
  ℕ, zero, suc, ◌-◌, ◌≤◌, ◌<◌, ◌≡◌, ◌≢◌, refl, sym, ap, ◌∙◌, ◌↔◌, ◌⊎◌, inl, inr, arith, Bool, true,
  false, ◌&&◌, List, [], ◌∷◌, ◌++◌, if◌then◌else◌, ◌==◌, leb, drop, Option, none, some,
}
use mathlib.Core.List.{append-nil}
use pfv.Common.Text.{Text, codes, text_eq_iff, Lacks, split, starts_with, value_from}
use pfv.Format.Amounts.{
  strip_leading, strip_trailing, or_zero, with_fraction, normalize_amount, normalize_parts, body_of,
  equals_amount,
}
use pfv.Format.Amounts.Decimals.Figures.{
  Digits, place, strip_leading_iff, strip_trailing_iff, strip_leading-IsStripped, IsCanonical,
}

-- A decimal as it is written: a sign, a first digit and the rest of the whole number, and the
-- digits after a point, where there is one.
pub record Decimal : Type 0 where
  pub negative : Bool
  pub first : ℕ
  pub rest : Text
  pub fraction : Option Text

abbrev pub whole : Decimal → Text
whole d = d.first ∷ d.rest

abbrev pub places : Option Text → Text
places none = []
places (some f) = f

abbrev pub sign : Bool → Text
sign true = codes "-"
sign false = []

abbrev pub point : Option Text → Text
point none = []
point (some f) = b'.' ∷ f

abbrev pub written : Decimal → Text
written d = sign d.negative ++ (whole d ++ point d.fraction)

abbrev pub IsDecimal : Decimal → Type 0
IsDecimal d = Digits (whole d) × Digits (places d.fraction)

-- The same sign, the same whole number, and the same digit at every place after the point.
abbrev SameFigures : Decimal → Decimal → Type 0
SameFigures d e =
    (d.negative ≡ e.negative)
    × (value_from 0 (whole d) ≡ value_from 0 (whole e))
    × ((i : ℕ) → place (places d.fraction) i ≡ place (places e.fraction) i)

abbrev pub IsZero : Decimal → Type 0
IsZero d = (value_from 0 (whole d) ≡ 0) × ((i : ℕ) → place (places d.fraction) i ≡ 48)

-- The same amount: the same figures, and the same sign but for zero.
abbrev pub SameAmount : Decimal → Decimal → Type 0
SameAmount d e =
    ((d.negative ≡ e.negative) ⊎ IsZero d)
    × (value_from 0 (whole d) ≡ value_from 0 (whole e))
    × ((i : ℕ) → place (places d.fraction) i ≡ place (places e.fraction) i)

Digits-Lacks : (s : Text) → Digits s → Lacks 46 s
Digits-Lacks [] h = tt
Digits-Lacks (c ∷ s) (p, q, h) = (λ e. omega arith, Digits-Lacks s h)

split-Lacks : (s : Text) → Lacks 46 s → split 46 s ≡ s ∷ []
unfolding split
split-Lacks [] h = refl
split-Lacks (c ∷ s) (p, h) = rw (split-Lacks s h) (ground (arith, p))

split-point : (s f : Text) → Lacks 46 s → Lacks 46 f → split 46 (s ++ 46 ∷ f) ≡ s ∷ f ∷ []
unfolding split
split-point [] f h k = ground (arith, split-Lacks f k)
split-point (c ∷ s) f (p, h) k = rw (split-point s f h k) (ground (arith, p))

abbrev parts : Text → Option Text → List Text
parts w none = w ∷ []
parts w (some f) = w ∷ f ∷ []

split-written :
    (w : Text) (f : Option Text)
    → Digits w
    → Digits (places f)
    → split 46 (w ++ point f) ≡ parts w f
split-written w none h k = rw (append-nil w) (split-Lacks w (Digits-Lacks w h))
split-written w (some f) h k = split-point w f (Digits-Lacks w h) (Digits-Lacks f k)

-- A decimal without superfluous zeros, as it is written.
abbrev normal : Decimal → Text
normal d =
    sign d.negative ++ with_fraction (strip_leading (whole d)) (strip_trailing (places d.fraction))

or_zero_canonical : (s : Text) → IsCanonical s → or_zero s ≡ s
or_zero_canonical [] h = absurd h
or_zero_canonical (c ∷ s) h = refl

normalize_parts-parts :
    (w : Text) (f : Option Text)
    → normalize_parts (parts w f)
      ≡ with_fraction (or_zero (strip_leading w)) (strip_trailing (places f))
normalize_parts-parts w none = refl
normalize_parts-parts w (some f) = refl

normalize_body :
    (d : Decimal)
    → IsDecimal d
    → normalize_parts (split 46 (whole d ++ point d.fraction))
      ≡ with_fraction (strip_leading (whole d)) (strip_trailing (places d.fraction))
normalize_body d (h, k) =
    let canonical = (strip_leading-IsStripped d.first d.rest h).canonical in
    rw (
      split-written (whole d) d.fraction h k,
      normalize_parts-parts (whole d) d.fraction,
      or_zero_canonical (strip_leading (whole d)) canonical,
    )

unsigned :
    (c : ℕ) (s : Text) → 48 ≤ c → normalize_amount (c ∷ s) ≡ normalize_parts (split 46 (c ∷ s))
unfolding normalize_amount starts_with
unsigned c s h = ground arith

normalize-written : (d : Decimal) → IsDecimal d → normalize_amount (written d) ≡ normal d
normalize-written d h = signed d.negative
  where
    signed :
        (n : Bool)
        → normalize_amount (written (record d { negative = n }))
          ≡ normal (record d { negative = n })
    signed true = unfold normalize_amount starts_with in ap (λ s. 45 ∷ s) (normalize_body d h)
    signed false = unsigned d.first (d.rest ++ point d.fraction) h.0.0 ∙ normalize_body d h

-- What follows the whole number.
abbrev tail : Text → Text
tail [] = []
tail (c ∷ s) = b'.' ∷ c ∷ s

with_fraction-tail : (w f : Text) → with_fraction w f ≡ w ++ tail f
with_fraction-tail w [] = sym (append-nil w)
with_fraction-tail w (c ∷ s) = refl

tail_injective :
    (w v f g : Text) → Digits w → Digits v → w ++ tail f ≡ v ++ tail g → (w ≡ v) × (f ≡ g)
tail_injective [] [] [] [] p q e = (refl, refl)
tail_injective [] [] [] (d ∷ g) p q e = cc
tail_injective [] [] (c ∷ f) [] p q e = cc
tail_injective [] [] (c ∷ f) (d ∷ g) p q e = (refl, cc)
tail_injective [] (y ∷ v) [] g p q e = cc
tail_injective [] (y ∷ v) (c ∷ f) g p q e = ground (arith, e, q)
tail_injective (x ∷ w) [] f [] p q e = cc
tail_injective (x ∷ w) [] f (d ∷ g) p q e = ground (arith, e, p)
tail_injective (x ∷ w) (y ∷ v) f g (x₁, x₂, p) (y₁, y₂, q) e =
    let (tails, fractions) = tail_injective w v f g p q (cc) in (cc, fractions)

-- A normal form determines the sign, the whole number and the fraction in it.
normal_injective :
    (m n : Bool) (w v f g : Text)
    → Digits w
    → IsCanonical w
    → Digits v
    → IsCanonical v
    → sign m ++ with_fraction w f ≡ sign n ++ with_fraction v g
    → (m ≡ n) × (w ≡ v) × (f ≡ g)
normal_injective m n [] v f g p x q y e = absurd x
normal_injective m n (c ∷ w) [] f g p x q y e = absurd y
normal_injective true false (c ∷ w) (d ∷ v) f g p x q y e =
    let same : 45 ∷ with_fraction (c ∷ w) f ≡ d ∷ (v ++ tail g) =
      e ∙ with_fraction-tail (d ∷ v) g in
    ground (arith, same, q)
normal_injective false true (c ∷ w) (d ∷ v) f g p x q y e =
    let same : c ∷ (w ++ tail f) ≡ 45 ∷ with_fraction (d ∷ v) g =
      sym (with_fraction-tail (c ∷ w) f) ∙ e in
    ground (arith, same, p)
normal_injective true true (c ∷ w) (d ∷ v) f g p x q y e =
    let (wholes, fractions) =
      tail_injective (c ∷ w) (d ∷ v) f g p q
        (sym (with_fraction-tail (c ∷ w) f) ∙ ap (drop 1) e ∙ with_fraction-tail (d ∷ v) g) in
    (refl, wholes, fractions)
normal_injective false false (c ∷ w) (d ∷ v) f g p x q y e =
    let (wholes, fractions) =
      tail_injective (c ∷ w) (d ∷ v) f g p q
        (sym (with_fraction-tail (c ∷ w) f) ∙ e ∙ with_fraction-tail (d ∷ v) g) in
    (refl, wholes, fractions)

normal_iff : (d e : Decimal) → IsDecimal d → IsDecimal e → (normal d ≡ normal e) ↔ SameFigures d e
normal_iff d e (h, k) (i, j) =
    let x = strip_leading-IsStripped d.first d.rest h in
    let y = strip_leading-IsStripped e.first e.rest i in
    let wholes = strip_leading_iff d.first e.first d.rest e.rest h i in
    let fractions = strip_trailing_iff (places d.fraction) (places e.fraction) in
    (
      λ same.
          let (n, w, f) =
            normal_injective d.negative e.negative (strip_leading (whole d))
              (strip_leading (whole e)) (strip_trailing (places d.fraction))
              (strip_trailing (places e.fraction)) x.digits x.canonical y.digits y.canonical same in
          (n, wholes.0 w, fractions.0 f),
      λ (n, w, f). rw (n, wholes.1 w, fractions.1 f) refl,
    )

equals_amount-SameFigures :
    (d e : Decimal)
    → IsDecimal d
    → IsDecimal e
    → (equals_amount (written d) (written e) ≡ true) ↔ SameFigures d e
unfolding equals_amount
equals_amount-SameFigures d e h k =
    rw (normalize-written d h, normalize-written e k)
      (let texts = text_eq_iff (normal d) (normal e) in
        let forms = normal_iff d e h k in (λ t. forms.0 (texts.0 t), λ s. texts.1 (forms.1 s)))

signed_alike :
    (d e : Decimal) → SameAmount d e → (IsZero d → d.negative ≡ e.negative) → SameFigures d e
signed_alike d e (inl n, w, f) z = (n, w, f)
signed_alike d e (inr nil, w, f) z = (z nil, w, f)

-- Two decimals with digits before the point, and with or without a fraction, are taken for equal
-- exactly where they are the same amount, however many zeros are written before and after, except that
-- a zero with a minus sign and one without are told apart.
pub equals_amount-SameAmount :
    (d e : Decimal)
    → IsDecimal d
    → IsDecimal e
    → (equals_amount (written d) (written e) ≡ true)
      ↔ (SameAmount d e × (IsZero d → d.negative ≡ e.negative))
equals_amount-SameAmount d e h k =
    let figures = equals_amount-SameFigures d e h k in
    (
      λ t. let (n, w, f) = figures.0 t in ((inl n, w, f), λ z. n),
      λ (same, z). figures.1 (signed_alike d e same z),
    )
