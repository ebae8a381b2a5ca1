-- ===== src/Transactions/Tags/Runs.antt =====
-- What holds of the tag chips after any actions (frontend/components/transactions/TagChipInput.tsx).
use pfv.Common.{
  ℕ, zero, suc, ◌<◌, ◌≡◌, refl, arith, Bool, true, false, ◌&&◌, ◌||◌, not, Option, none, some, List,
  [], ◌∷◌, if◌then◌else◌, ltb, length, get_elem?, filter_by, is_some, Bool-cases, inl, inr,
}
use pfv.Common.Text.{Text, trim}
use pfv.Transactions.Tags.{
  Chips, normalize_name, has_tag, Settings, commit_chip, at_cap, without_list, first_of, suggested,
  Key, entry_at, commit_choice, commit_key, next_idx, prev_idx, move_key, list_key, last_chip,
  press, Action, act, act_all, is_blank, is_empty, enter, tab, comma, backspace, arrow_down,
  arrow_up, escape, other_key, effect, starts, fails, focus, click_outside, answers, presses,
  removes, picks, hovers, typing,
}
use pfv.Transactions.Tags.Names.{normalize_name-IsNormal}
use pfv.Transactions.Tags.Tidy.{IsWithin, IsTidy, keeps, commit_name-IsTidy, remove_chip-IsTidy}

commit_chip-IsTidy :
    (t : Settings) (raw : Text) (c : Chips)
    → IsTidy t.max_tags c
    → IsTidy t.max_tags (commit_chip t raw c)
commit_chip-IsTidy t raw c h =
    commit_name-IsTidy t.decimal t.max_tags (normalize_name t.lower raw) c
      (normalize_name-IsNormal t.lower raw) h

commit_choice-IsTidy :
    (t : Settings) (o : Option Text) (c : Chips)
    → IsTidy t.max_tags c
    → IsTidy t.max_tags (commit_choice t o c)
commit_choice-IsTidy t (some name) c h = commit_chip-IsTidy t name c h
commit_choice-IsTidy t none c h = elim (Bool-cases (is_blank (trim c.draft))) [
  | inl blank ↦ rw blank h
  | inr text ↦ rw text (commit_chip-IsTidy t c.draft c h)
]

commit_key-IsTidy :
    (t : Settings) (c : Chips) → IsTidy t.max_tags c → IsTidy t.max_tags (commit_key t c)
commit_key-IsTidy t c h =
    commit_choice-IsTidy t (if c.is_open then entry_at c.highlight_idx c.suggestions else none) c h

next_idx-lt : (n : ℕ) (o : Option ℕ) → 0 < n → next_idx n o < n
next_idx-lt n none h = h
next_idx-lt n (some i) h = ground (arith, h)

prev_idx-lt :
    (n : ℕ) (o : Option ℕ) (xs : List Text)
    → 0 < n
    → n ≡ length xs
    → IsWithin o xs
    → prev_idx n o < n
prev_idx-lt n none xs h e w = omega (arith, h)
prev_idx-lt n (some zero) xs h e w = omega (arith, h)
prev_idx-lt n (some (suc i)) xs h e w = omega (arith, w, e)

move_key-IsTidy :
    (max_tags : ℕ) (k : Key) (c : Chips)
    → IsTidy max_tags c
    → 0 < length c.suggestions
    → IsTidy max_tags (move_key k c)
move_key-IsTidy max_tags arrow_down c t h =
    keeps max_tags c (move_key arrow_down c) t refl
      (next_idx-lt (length c.suggestions) c.highlight_idx h)
move_key-IsTidy max_tags arrow_up c t h =
    keeps max_tags c (move_key arrow_up c) t refl
      (prev_idx-lt (length c.suggestions) c.highlight_idx c.suggestions h refl t.within)
move_key-IsTidy max_tags escape c t h = keeps max_tags c (move_key escape c) t refl tt
move_key-IsTidy max_tags enter c t h = t
move_key-IsTidy max_tags tab c t h = t
move_key-IsTidy max_tags comma c t h = t
move_key-IsTidy max_tags backspace c t h = t
move_key-IsTidy max_tags other_key c t h = t

list_key-IsTidy :
    (max_tags : ℕ) (k : Key) (c : Chips) → IsTidy max_tags c → IsTidy max_tags (list_key k c)
list_key-IsTidy max_tags k c t = elim (Bool-cases (not c.is_open || is_empty c.suggestions)) [
  | inl shut ↦ rw shut t
  | inr shown ↦ rw shown (move_key-IsTidy max_tags k c t (ground (arith, shown)))
]

press-IsTidy :
    (t : Settings) (k : Key) (c : Chips) → IsTidy t.max_tags c → IsTidy t.max_tags (press t k c)
press-IsTidy t enter c h = commit_key-IsTidy t c h
press-IsTidy t comma c h = commit_key-IsTidy t c h
press-IsTidy t tab c h =
    elim (Bool-cases (is_blank (trim c.draft) && not (is_some c.highlight_idx))) [
      | inl out ↦ rw out h
      | inr in_ ↦ rw in_ (commit_key-IsTidy t c h)
    ]
press-IsTidy t backspace c h = elim (Bool-cases (is_blank c.draft && not (is_empty c.value))) [
  | inl out ↦ rw out (remove_chip-IsTidy t.max_tags (last_chip c.value) c h)
  | inr in_ ↦ rw in_ (list_key-IsTidy t.max_tags backspace c h)
]
press-IsTidy t arrow_down c h = list_key-IsTidy t.max_tags arrow_down c h
press-IsTidy t arrow_up c h = list_key-IsTidy t.max_tags arrow_up c h
press-IsTidy t escape c h = list_key-IsTidy t.max_tags escape c h
press-IsTidy t other_key c h = list_key-IsTidy t.max_tags other_key c h

either :
    (max_tags : ℕ) (b : Bool) (c d : Chips)
    → IsTidy max_tags c
    → IsTidy max_tags d
    → IsTidy max_tags (if b then c else d)
either max_tags true c d h k = h
either max_tags false c d h k = k

first_of-IsWithin : (xs : List Text) → IsWithin (first_of xs) xs
first_of-IsWithin [] = tt
first_of-IsWithin (x ∷ xs) = omega arith

act-IsTidy :
    (t : Settings) (a : Action) (c : Chips) → IsTidy t.max_tags c → IsTidy t.max_tags (act t a c)
unfolding act suggested
act-IsTidy t (typing draft) c h = keeps t.max_tags c _ h refl h.within
act-IsTidy t effect c h =
    either t.max_tags (at_cap t c || is_blank (trim c.draft)) (without_list c) c
      (keeps t.max_tags c (without_list c) h refl tt) h
act-IsTidy t starts c h = keeps t.max_tags c _ h refl h.within
act-IsTidy t fails c h = keeps t.max_tags c _ h refl tt
act-IsTidy t (answers names) c h =
    keeps t.max_tags c _ h refl (first_of-IsWithin (filter_by (λ s. not (has_tag s c.value)) names))
act-IsTidy t (presses k) c h = press-IsTidy t k c h
act-IsTidy t (removes name) c h = remove_chip-IsTidy t.max_tags name c h
act-IsTidy t focus c h =
    either t.max_tags (is_empty c.suggestions || is_blank (trim c.draft)) c _ h
      (keeps t.max_tags c _ h refl h.within)
act-IsTidy t click_outside c h = keeps t.max_tags c _ h refl h.within
act-IsTidy t (picks i) c h = picked (get_elem? c.suggestions i)
  where
    picked :
        (o : Option Text)
        → IsTidy t.max_tags
            (elim o [ none ↦ c | some name ↦ if c.is_open then commit_chip t name c else c ])
    picked none = h
    picked (some name) =
        either t.max_tags c.is_open (commit_chip t name c) c (commit_chip-IsTidy t name c h) h
act-IsTidy t (hovers i) c h = elim (Bool-cases (c.is_open && ltb i (length c.suggestions))) [
  | inl there ↦ rw there (keeps t.max_tags c _ h refl (ground (arith, there)))
  | inr gone ↦ rw gone h
]

-- Where there are at most as many chips as are allowed, no two of them the same, each of 1 to 32 digits,
-- small letters, dashes and spaces, with no space at either end and no two in a row, and a highlighted
-- entry is in the list, that stays so whatever the user types, presses and clicks and whatever is
-- suggested.
pub act_all-IsTidy :
    (t : Settings) (actions : List Action) (c : Chips)
    → IsTidy t.max_tags c
    → IsTidy t.max_tags (act_all t actions c)
unfolding act_all
act_all-IsTidy t [] c h = h
act_all-IsTidy t (a ∷ actions) c h = act_all-IsTidy t actions (act t a c) (act-IsTidy t a c h)
