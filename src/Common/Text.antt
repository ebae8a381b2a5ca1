-- ===== src/Common/Text.antt =====
-- JavaScript strings as lists of UTF-16 code units, with the methods that the program calls.
use Prim.Native.Char.{code}
use Prim.Native.String.{String}
use Prim.Native.Nat.{ℕ, ◌+◌, ◌*◌, ◌-◌}
use mathlib.Core.Path.{◌≡◌, refl}
use mathlib.Core.Logic.{◌↔◌, ◌≢◌, inl, inr}
use mathlib.Core.Bool.{Bool, true, false, ◌&&◌, ◌||◌}
use mathlib.Core.List.{List, [], ◌∷◌, ◌++◌, reverse}
use native.Mathlib.Omega.{arith}
use pfv.Common.Tests.{leb, ltb, ◌==◌, if◌then◌else◌, Bool-cases}
use pfv.Common.Lists.{All}

abbrev pub Text : Type 0
Text = List ℕ

-- The code units of a literal, which is ASCII wherever it is used here.
abbrev pub codes : String → Text
codes String.[] = []
codes (String.◌∷◌ c s) = code c ∷ codes s

-- `a === b`
unfoldable pub text_eq : Text → Text → Bool
text_eq [] [] = true
text_eq (x ∷ xs) (y ∷ ys) = x == y && text_eq xs ys
text_eq _ _ = false

-- `a < b`, by code units
unfoldable pub text_ltb : Text → Text → Bool
text_ltb s [] = false
text_ltb [] (y ∷ t) = true
text_ltb (x ∷ s) (y ∷ t) = let rest = text_ltb s t in if x == y then rest else ltb x y

-- `s.startsWith(p)`
unfoldable pub starts_with : Text → Text → Bool
starts_with [] s = true
starts_with (p ∷ ps) [] = false
starts_with (p ∷ ps) (c ∷ s) = p == c && starts_with ps s

-- `s.includes(p)`
unfoldable pub includes : Text → Text → Bool
unfolding starts_with
includes p [] = starts_with p []
includes p (c ∷ s) = starts_with p (c ∷ s) || includes p s

abbrev push_head : ℕ → List Text → List Text
push_head c [] = (c ∷ []) ∷ []
push_head c (w ∷ ws) = (c ∷ w) ∷ ws

-- `s.split(c)` for a separator of one code unit
unfoldable pub split : ℕ → Text → List Text
split c [] = [] ∷ []
split c (x ∷ s) = let rest = split c s in if x == c then [] ∷ rest else push_head x rest

abbrev pub head_or : Text → List Text → Text
head_or d [] = d
head_or d (w ∷ ws) = w

-- `s.split(c)[0]`; a split is never empty
unfoldable pub before : ℕ → Text → Text
unfolding split
before c s = head_or [] (split c s)

-- `ws.join(sep)`
unfoldable pub join : Text → List Text → Text
join sep [] = []
join sep (w ∷ []) = w
join sep (w ∷ v ∷ ws) = w ++ (sep ++ join sep (v ∷ ws))

-- ECMAScript white space and line terminators, the characters that `trim` and `\s` take
unfoldable pub is_space : ℕ → Bool
is_space c =
    leb 9 c && leb c 13
    || c == 32
    || c == 160
    || c == 5760
    || leb 8192 c && leb c 8202
    || c == 8232
    || c == 8233
    || c == 8239
    || c == 8287
    || c == 12288
    || c == 65279

unfoldable pub trim_start : Text → Text
unfolding is_space
trim_start [] = []
trim_start (c ∷ s) = let rest = trim_start s in if is_space c then rest else c ∷ s

-- `s.trim()`
unfoldable pub trim : Text → Text
unfolding trim_start
trim s = reverse (trim_start (reverse (trim_start s)))

abbrev pub is_digit : ℕ → Bool
is_digit c = leb 48 c && leb c 57

-- `Number(s)` of a text of digits, read on from `acc`. The programs that use it compare the number
-- with small ones only, for which the rounding of a large one makes no difference.
unfoldable pub value_from : ℕ → Text → ℕ
value_from acc [] = acc
value_from acc (c ∷ s) = value_from (10 * acc + (c - 48)) s

pub text_eq_iff : (a b : Text) → (text_eq a b ≡ true) ↔ (a ≡ b)
unfolding text_eq
text_eq_iff [] [] = (λ _. refl, λ _. refl)
text_eq_iff [] (y ∷ ys) = (λ h. cc, λ h. cc)
text_eq_iff (x ∷ xs) [] = (λ h. cc, λ h. cc)
text_eq_iff (x ∷ xs) (y ∷ ys) = ground (arith, text_eq_iff xs ys)

pub text_eq_refl : (a : Text) → text_eq a a ≡ true
text_eq_refl a = (text_eq_iff a a).1 refl

-- No code unit of `s` is `c`.
abbrev pub Lacks : ℕ → Text → Type 0
Lacks c = All (λ x. x ≢ c)

head_or-push_head : (c : ℕ) (ws : List Text) → head_or [] (push_head c ws) ≡ c ∷ head_or [] ws
head_or-push_head c [] = refl
head_or-push_head c (w ∷ ws) = refl

before-nil : (c : ℕ) → before c [] ≡ []
unfolding before
before-nil c = refl

before-cons : (c x : ℕ) (s : Text) → before c (x ∷ s) ≡ (if x == c then [] else x ∷ before c s)
unfolding before
before-cons c x s = ground (arith, head_or-push_head x (split c s))

pub before-Lacks : (c : ℕ) (s : Text) → Lacks c (before c s)
before-Lacks c [] = unfold before in tt
before-Lacks c (x ∷ s) = elim (Bool-cases (x == c)) [
  | inl same ↦ rw (before-cons, same) tt
  | inr other ↦ rw (before-cons, other) (ground arith, before-Lacks c s)
]

-- Cutting at one separator keeps what else the text lacked.
pub before-Lacks_other : (c d : ℕ) (s : Text) → Lacks d s → Lacks d (before c s)
before-Lacks_other c d [] h = unfold before in tt
before-Lacks_other c d (x ∷ s) (p, h) = elim (Bool-cases (x == c)) [
  | inl same ↦ rw (before-cons, same) tt
  | inr other ↦ rw (before-cons, other) (p, before-Lacks_other c d s h)
]

-- A text without the separator is its own first piece.
pub before_of_Lacks : (c : ℕ) (s : Text) → Lacks c s → before c s ≡ s
before_of_Lacks c [] h = unfold before in refl
before_of_Lacks c (x ∷ s) (p, h) = rw (before-cons) (ground (arith, before_of_Lacks c s h))

-- `p` begins `s`, as a proposition with the rest.
pub starts_with-append : (p s : Text) → starts_with p (p ++ s) ≡ true
unfolding starts_with
starts_with-append [] s = refl
starts_with-append (c ∷ p) s = ground (arith, starts_with-append p s)

pub before-prefix : (c : ℕ) (s : Text) → starts_with (before c s) s ≡ true
unfolding starts_with
before-prefix c [] = rw before-nil
before-prefix c (x ∷ s) = rw before-cons (ground (arith, before-prefix c s))
