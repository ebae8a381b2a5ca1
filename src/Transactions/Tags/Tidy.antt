-- ===== src/Transactions/Tags/Tidy.antt =====
-- What it means for the tag chips to be in order, and that commitChip and removeChip keep it (frontend/components/transactions/TagChipInput.tsx).
use pfv.Common.{
  ℕ, ◌≤◌, ◌<◌, ◌≡◌, sym, ap, arith, Bool, false, not, Option, none, some, List, [], ◌∷◌, ◌++◌, leb,
  ltb, length, filter_by, All, subst, Bool-cases, inl, inr, length-append, All-append,
}
use pfv.Common.Text.{Text, text_eq}
use pfv.Transactions.Tags.{tag_name_max_length, Chips, has_tag, commit_name, remove_chip}
use pfv.Transactions.Tags.Names.{IsNormal, IsTagName}

-- No two chips are the same.
abbrev pub Distinct : List Text → Type 0
Distinct [] = Unit {0}
Distinct (x ∷ xs) = All (λ y. text_eq y x ≡ false) xs × Distinct xs

abbrev pub IsWithin : Option ℕ → List Text → Type 0
IsWithin none suggestions = Unit {0}
IsWithin (some i) suggestions = i < length suggestions

-- At most as many chips as are allowed, all different, all of them normal names, and a highlighted
-- entry that is in the list.
pub record IsTidy (max_tags : ℕ) (c : Chips) : Type 0 where
  pub few : length c.value ≤ max_tags
  pub distinct : Distinct c.value
  pub names : All IsTagName c.value
  pub within : IsWithin c.highlight_idx c.suggestions

filter_by-All :
    (P : Text → Type 0) (p : Text → Bool) (xs : List Text) → All P xs → All P (filter_by p xs)
filter_by-All P p [] h = tt
filter_by-All P p (x ∷ xs) (g, h) = elim (Bool-cases (p x)) [
  | inl kept ↦ rw (kept, All) (g, filter_by-All P p xs h)
  | inr gone ↦ rw (gone, All) (filter_by-All P p xs h)
]

length-filter_by : (p : Text → Bool) (xs : List Text) → length (filter_by p xs) ≤ length xs
length-filter_by p [] = omega arith
length-filter_by p (x ∷ xs) = ground (arith, length-filter_by p xs)

filter_by-Distinct : (p : Text → Bool) (xs : List Text) → Distinct xs → Distinct (filter_by p xs)
filter_by-Distinct p [] d = tt
filter_by-Distinct p (x ∷ xs) (g, d) = elim (Bool-cases (p x)) [
  | inl kept ↦
      rw (kept, Distinct)
        (filter_by-All (λ y. text_eq y x ≡ false) p xs g, filter_by-Distinct p xs d)
  | inr gone ↦ rw (gone, Distinct) (filter_by-Distinct p xs d)
]

append-Distinct :
    (name : Text) (xs : List Text)
    → Distinct xs
    → has_tag name xs ≡ false
    → Distinct (xs ++ name ∷ [])
unfolding has_tag
append-Distinct name [] d h = (tt, tt)
append-Distinct name (x ∷ xs) (g, d) h = (
  All-append (λ y. text_eq y x ≡ false) xs (name ∷ []) g (ground (arith, h), tt),
  append-Distinct name xs d (ground (arith, h)),
)

pub commit_name-IsTidy :
    (decimal : ℕ → Text) (max_tags : ℕ) (name : Text) (c : Chips)
    → IsNormal name
    → IsTidy max_tags c
    → IsTidy max_tags (commit_name decimal max_tags name c)
commit_name-IsTidy decimal max_tags [] c g t = t
commit_name-IsTidy decimal max_tags (x ∷ s) c g t =
    elim (Bool-cases (ltb tag_name_max_length (length (x ∷ s)))) [
      | inl long ↦
          rw long
            (record { few = t.few; distinct = t.distinct; names = t.names; within = t.within })
      | inr short ↦ rw short (elim (Bool-cases (has_tag (x ∷ s) c.value)) [
        | inl there ↦
            rw there (record { few = t.few; distinct = t.distinct; names = t.names; within = tt })
        | inr new ↦ rw new (elim (Bool-cases (leb max_tags (length c.value))) [
          | inl full ↦
              rw full
                (record { few = t.few; distinct = t.distinct; names = t.names; within = t.within })
          | inr room ↦ rw room (record {
            few = omega (arith, length-append c.value ((x ∷ s) ∷ []), t.few, room_left room);
            distinct = append-Distinct (x ∷ s) c.value t.distinct new;
            names =
                All-append IsTagName c.value ((x ∷ s) ∷ []) t.names
                  ((g, omega arith, ground (arith, short)), tt);
            within = tt;
          })
        ])
      ])
    ]
  where
    room_left : leb max_tags (length c.value) ≡ false → length c.value < max_tags
    room_left h = ground (arith, h)

pub keeps :
    (max_tags : ℕ) (c d : Chips)
    → IsTidy max_tags c
    → d.value ≡ c.value
    → IsWithin d.highlight_idx d.suggestions
    → IsTidy max_tags d
keeps max_tags c d t e w = record {
  few = omega (arith, t.few, ap {B = ℕ} length e);
  distinct = subst Distinct (sym e) t.distinct;
  names = subst (All IsTagName) (sym e) t.names;
  within = w;
}

pub remove_chip-IsTidy :
    (max_tags : ℕ) (name : Text) (c : Chips)
    → IsTidy max_tags c
    → IsTidy max_tags (remove_chip name c)
unfolding remove_chip
remove_chip-IsTidy max_tags name c t = record {
  few = omega (arith, t.few, length-filter_by (λ x. not (text_eq x name)) c.value);
  distinct = filter_by-Distinct (λ x. not (text_eq x name)) c.value t.distinct;
  names = filter_by-All IsTagName (λ x. not (text_eq x name)) c.value t.names;
  within = t.within;
}
