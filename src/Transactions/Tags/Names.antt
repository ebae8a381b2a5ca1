-- ===== src/Transactions/Tags/Names.antt =====
-- The names that the tag chips take (frontend/components/transactions/TagChipInput.tsx).
use pfv.Common.{
  ℕ, ◌⊎◌, Bool, true, false, not, ◌&&◌, arith, and_split, ◌∙◌, ◌≤◌, ◌<◌, ◌≡◌, refl, [], ◌∷◌, ◌==◌,
  length, All, Bool-cases, inl, inr,
}
use mathlib.Core.List.{reverse, reverse_aux}
use pfv.Common.Text.{Text, is_space, trim, trim_start}
use pfv.Transactions.Tags.{is_tag_code, keep_tag_codes, push_space, collapse_spaces, normalize_name}

abbrev IsTagCode : ℕ → Type 0
IsTagCode c = is_tag_code c ≡ true

-- A digit, a small letter, a space or a dash.
abbrev IsNameCode : ℕ → Type 0
IsNameCode c = ((48 ≤ c) × (c ≤ 57)) ⊎ (((97 ≤ c) × (c ≤ 122)) ⊎ ((c ≡ 32) ⊎ (c ≡ 45)))

abbrev starts : Text → Bool
starts [] = false
starts (c ∷ s) = c == 32

abbrev ends : Text → Bool
ends [] = false
ends (c ∷ []) = c == 32
ends (c ∷ d ∷ s) = ends (d ∷ s)

abbrev is_single : Text → Bool
is_single [] = true
is_single (c ∷ s) = not (c == 32 && starts s) && is_single s

-- Allowed characters, no space at the start or the end, and no two spaces in a row.
abbrev pub IsNormal : Text → Type 0
IsNormal name =
    All IsNameCode name × (starts name ≡ false) × (ends name ≡ false) × (is_single name ≡ true)

-- A normal name of 1 to 32 characters.
abbrev pub IsTagName : Text → Type 0
IsTagName name = IsNormal name × (0 < length name) × (length name ≤ 32)

IsTagCode-IsNameCode : (c : ℕ) → IsTagCode c → IsNameCode c
IsTagCode-IsNameCode c h = ground arith

All-IsNameCode : (s : Text) → All IsTagCode s → All IsNameCode s
All-IsNameCode [] h = tt
All-IsNameCode (c ∷ s) (g, h) = (IsTagCode-IsNameCode c g, All-IsNameCode s h)

keep_tag_codes-All : (s : Text) → All IsTagCode (keep_tag_codes s)
unfolding keep_tag_codes
keep_tag_codes-All [] = tt
keep_tag_codes-All (c ∷ s) = elim (Bool-cases (is_tag_code c)) [
  | inl good ↦ rw good (good, keep_tag_codes-All s)
  | inr bad ↦ rw bad (keep_tag_codes-All s)
]

push_space-All : (s : Text) → All IsTagCode s → All IsTagCode (push_space s)
push_space-All [] h = (refl, tt)
push_space-All (c ∷ s) h = elim (Bool-cases (c == b' ')) [
  | inl space ↦ rw space h
  | inr other ↦ rw other (refl, h)
]

collapse_spaces-All : (s : Text) → All IsTagCode s → All IsTagCode (collapse_spaces s)
unfolding collapse_spaces
collapse_spaces-All [] h = tt
collapse_spaces-All (c ∷ s) (g, h) = elim (Bool-cases (is_space c)) [
  | inl space ↦ rw space (push_space-All (collapse_spaces s) (collapse_spaces-All s h))
  | inr other ↦ rw other (g, collapse_spaces-All s h)
]

trim_start-All : (s : Text) → All IsTagCode s → All IsTagCode (trim_start s)
unfolding trim_start
trim_start-All [] h = tt
trim_start-All (c ∷ s) (g, h) = elim (Bool-cases (is_space c)) [
  | inl space ↦ rw space (trim_start-All s h)
  | inr other ↦ rw other (g, h)
]

reverse_aux-All : (s t : Text) → All IsTagCode s → All IsTagCode t → All IsTagCode (reverse_aux s t)
reverse_aux-All [] t h k = k
reverse_aux-All (c ∷ s) t (g, h) k = reverse_aux-All s (c ∷ t) h (g, k)

reverse-All : (s : Text) → All IsTagCode s → All IsTagCode (reverse s)
reverse-All s h = reverse_aux-All s [] h tt

trim-All : (s : Text) → All IsTagCode s → All IsTagCode (trim s)
unfolding trim
trim-All s h =
    reverse-All (trim_start (reverse (trim_start s)))
      (trim_start-All (reverse (trim_start s)) (reverse-All (trim_start s) (trim_start-All s h)))

normalize_name-All : (lower : Text → Text) (raw : Text) → All IsTagCode (normalize_name lower raw)
unfolding normalize_name
normalize_name-All lower raw =
    trim-All (collapse_spaces (keep_tag_codes (lower raw)))
      (collapse_spaces-All (keep_tag_codes (lower raw)) (keep_tag_codes-All (lower raw)))

-- Of a text of allowed characters, the only white space is the space.
space_of : (c : ℕ) → IsTagCode c → is_space c ≡ true → c ≡ 32
unfolding is_space
space_of c g h = ground arith

other_of : (c : ℕ) → is_space c ≡ false → (c == 32) ≡ false
unfolding is_space
other_of c h = ground arith

pushed-is_single :
    (c : ℕ) (s : Text)
    → (c == 32) ≡ false
    → is_single (c ∷ s) ≡ true
    → is_single (32 ∷ c ∷ s) ≡ true
pushed-is_single c s e h = ground arith

push_space-is_single : (s : Text) → is_single s ≡ true → is_single (push_space s) ≡ true
push_space-is_single [] h = refl
push_space-is_single (c ∷ s) h = elim (Bool-cases (c == b' ')) [
  | inl space ↦ rw space h
  | inr other ↦ rw other (pushed-is_single c s other h)
]

collapse_spaces-is_single : (s : Text) → is_single (collapse_spaces s) ≡ true
unfolding collapse_spaces
collapse_spaces-is_single [] = refl
collapse_spaces-is_single (c ∷ s) = elim (Bool-cases (is_space c)) [
  | inl space ↦ rw space (push_space-is_single (collapse_spaces s) (collapse_spaces-is_single s))
  | inr other ↦ rw (other, other_of c other) (collapse_spaces-is_single s)
]

trim_start-is_single : (s : Text) → is_single s ≡ true → is_single (trim_start s) ≡ true
unfolding trim_start
trim_start-is_single [] h = refl
trim_start-is_single (c ∷ s) h = elim (Bool-cases (is_space c)) [
  | inl space ↦ rw space (trim_start-is_single s (and_split _ _ h).1)
  | inr other ↦ rw other h
]

starts-trim_start : (s : Text) → starts (trim_start s) ≡ false
unfolding trim_start
starts-trim_start [] = refl
starts-trim_start (c ∷ s) = elim (Bool-cases (is_space c)) [
  | inl space ↦ rw space (starts-trim_start s)
  | inr other ↦ rw other (other_of c other)
]

ends_tail : (c : ℕ) (s : Text) → ends (c ∷ s) ≡ false → ends s ≡ false
ends_tail c [] h = refl
ends_tail c (d ∷ s) h = h

ends-trim_start : (s : Text) → ends s ≡ false → ends (trim_start s) ≡ false
unfolding trim_start
ends-trim_start [] h = refl
ends-trim_start (c ∷ s) h = elim (Bool-cases (is_space c)) [
  | inl space ↦ rw space (ends-trim_start s (ends_tail c s h))
  | inr other ↦ rw other h
]

-- Turning a text round.
reverse_aux-is_single :
    (s t : Text)
    → is_single s ≡ true
    → is_single t ≡ true
    → (starts s && starts t) ≡ false
    → is_single (reverse_aux s t) ≡ true
reverse_aux-is_single [] t h k e = k
reverse_aux-is_single (c ∷ s) t h k e =
    reverse_aux-is_single s (c ∷ t) (and_split _ _ h).1 (ground (arith, k, e)) (ground (arith, h))

starts-reverse_aux : (c : ℕ) (s t : Text) → starts (reverse_aux (c ∷ s) t) ≡ ends (c ∷ s)
starts-reverse_aux c [] t = refl
starts-reverse_aux c (d ∷ s) t = starts-reverse_aux d s (c ∷ t)

ends-reverse_aux : (s t : Text) (c : ℕ) → ends (reverse_aux s (c ∷ t)) ≡ ends (c ∷ t)
ends-reverse_aux [] t c = refl
ends-reverse_aux (d ∷ s) t c = ends-reverse_aux s (c ∷ t) d

reverse-is_single : (s : Text) → is_single s ≡ true → is_single (reverse s) ≡ true
reverse-is_single s h = reverse_aux-is_single s [] h refl (ground arith)

starts-reverse : (s : Text) → starts (reverse s) ≡ ends s
starts-reverse [] = refl
starts-reverse (c ∷ s) = starts-reverse_aux c s []

ends-reverse : (s : Text) → ends (reverse s) ≡ starts s
ends-reverse [] = refl
ends-reverse (c ∷ s) = ends-reverse_aux s [] c

trim-edges :
    (s : Text)
    → is_single s ≡ true
    → (starts (trim s) ≡ false) × (ends (trim s) ≡ false) × (is_single (trim s) ≡ true)
unfolding trim
trim-edges s h =
    let front = trim_start s in
    let back = trim_start (reverse front) in
    (
      starts-reverse back
          ∙ ends-trim_start (reverse front) (ends-reverse front ∙ starts-trim_start s),
      ends-reverse back ∙ starts-trim_start (reverse front),
      reverse-is_single back (
          trim_start-is_single (reverse front)
            (reverse-is_single front (trim_start-is_single s h))),
    )

pub normalize_name-IsNormal :
    (lower : Text → Text) (raw : Text) → IsNormal (normalize_name lower raw)
unfolding normalize_name
normalize_name-IsNormal lower raw =
    let collapsed = collapse_spaces (keep_tag_codes (lower raw)) in
    let (front, back, single) =
      trim-edges collapsed (collapse_spaces-is_single (keep_tag_codes (lower raw))) in
    (All-IsNameCode (trim collapsed) (normalize_name-All lower raw), front, back, single)
