-- ===== src/Format/Amounts.antt =====
-- equalsAmount and normalizeAmount of frontend/lib/format.ts: decimal texts compared without floats.
pub mod Decimals
use pfv.Common.{ℕ, Bool, true, false, ◌&&◌, List, [], ◌∷◌, ◌++◌, if◌then◌else◌, ◌==◌, leb}
use pfv.Common.Text.{Text, codes, text_eq, starts_with, split, head_or, is_digit}

-- `s.replace(/^0+(?=\d)/, "")`
unfoldable pub strip_leading : Text → Text
strip_leading [] = []
strip_leading (c ∷ []) = c ∷ []
strip_leading (c ∷ d ∷ s) =
    let rest = strip_leading (d ∷ s) in if c == 48 && is_digit d then rest else c ∷ d ∷ s

-- A zero before nothing goes.
abbrev pub push_digit : ℕ → Text → Text
push_digit c [] = if c == 48 then [] else c ∷ []
push_digit c (d ∷ s) = c ∷ d ∷ s

-- `s.replace(/0+$/, "")`
unfoldable pub strip_trailing : Text → Text
strip_trailing [] = []
strip_trailing (c ∷ s) = push_digit c (strip_trailing s)

-- `const [whole, frac = ""] = …`
abbrev pub second_or : Text → List Text → Text
second_or d (w ∷ v ∷ ws) = v
second_or d _ = d

-- `… || "0"`
abbrev pub or_zero : Text → Text
or_zero [] = codes "0"
or_zero (c ∷ s) = c ∷ s

abbrev pub with_fraction : Text → Text → Text
with_fraction whole [] = whole
with_fraction whole (c ∷ s) = whole ++ b'.' ∷ c ∷ s

abbrev pub normalize_parts : List Text → Text
normalize_parts parts =
    with_fraction (or_zero (strip_leading (head_or [] parts))) (strip_trailing (second_or [] parts))

-- `s.replace(/^-/, "")`
abbrev pub body_of : Text → Text
body_of [] = []
body_of (c ∷ s) = if c == b'-' then s else c ∷ s

unfoldable pub normalize_amount : Text → Text
unfolding starts_with split strip_leading strip_trailing
normalize_amount s =
    (if starts_with (codes "-") s then codes "-" else [])
    ++ normalize_parts (split b'.' (body_of s))

unfoldable pub equals_amount : Text → Text → Bool
unfolding normalize_amount text_eq
equals_amount a b = text_eq (normalize_amount a) (normalize_amount b)
