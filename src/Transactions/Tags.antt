-- ===== src/Transactions/Tags.antt =====
-- The tag chips of frontend/components/transactions/TagChipInput.tsx: the chips, what is typed, and
-- the list of suggestions with its highlighted entry. toLowerCase and the text of a number are arguments.
pub mod Names
pub mod Tidy
pub mod Runs
use pfv.Common.{
  ℕ, zero, suc, ◌+◌, ◌-◌, Bool, true, false, ◌&&◌, ◌||◌, not, Option, none, some, List, [], ◌∷◌,
  ◌++◌, if◌then◌else◌, ◌==◌, leb, ltb, any, length, get_elem?, filter_by, is_some,
}
use pfv.Common.Text.{Text, codes, text_eq, is_digit, is_space, trim}

abbrev pub max_tags_per_transaction : ℕ
max_tags_per_transaction = 5

abbrev pub tag_name_max_length : ℕ
tag_name_max_length = 32

-- A highlighted index of -1 is `none`; of a suggestion the name alone is kept.
pub record Chips : Type 0 where
  pub value : List Text
  pub draft : Text
  pub suggestions : List Text
  pub is_open : Bool
  pub highlight_idx : Option ℕ
  pub loading : Bool
  pub error : Text

-- `[a-z0-9 \-]`
abbrev pub is_tag_code : ℕ → Bool
is_tag_code c = is_digit c || (leb 97 c && leb c 122) || c == b' ' || c == b'-'

-- `.replace(/[^a-z0-9 \-]/g, "")`
unfoldable pub keep_tag_codes : Text → Text
keep_tag_codes [] = []
keep_tag_codes (c ∷ s) = let rest = keep_tag_codes s in if is_tag_code c then c ∷ rest else rest

-- A run of white space is one space.
abbrev pub push_space : Text → Text
push_space [] = b' ' ∷ []
push_space (c ∷ s) = if c == b' ' then c ∷ s else b' ' ∷ c ∷ s

-- `.replace(/\s+/g, " ")`
unfoldable pub collapse_spaces : Text → Text
unfolding is_space
collapse_spaces [] = []
collapse_spaces (c ∷ s) =
    let rest = collapse_spaces s in if is_space c then push_space rest else c ∷ rest

unfoldable pub normalize_name : (Text → Text) → Text → Text
unfolding trim keep_tag_codes collapse_spaces
normalize_name lower raw = trim (collapse_spaces (keep_tag_codes (lower raw)))

-- `value.includes(name)`
unfoldable pub has_tag : Text → List Text → Bool
has_tag name value = any (text_eq name) value

abbrev pub too_long : Text
too_long = codes "Tag must be 32 characters or fewer"

abbrev pub too_many : (ℕ → Text) → ℕ → Text
too_many decimal max_tags = codes "Maximum " ++ (decimal max_tags ++ codes " tags per transaction")

abbrev pub with_error : Text → Chips → Chips
with_error message c = record c { error = message }

-- The draft is cleared and the list closed.
abbrev pub cleared : Chips → Chips
cleared c = record c { draft = []; is_open = false; highlight_idx = none }

-- commitChip once the name is normal.
abbrev pub commit_name : (ℕ → Text) → ℕ → Text → Chips → Chips
commit_name decimal max_tags [] c = c
commit_name decimal max_tags (x ∷ s) c =
    if ltb tag_name_max_length (length (x ∷ s))
    then with_error too_long c
    else if has_tag (x ∷ s) c.value
    then cleared c
    else if leb max_tags (length c.value)
    then with_error (too_many decimal max_tags) c
    else cleared (record c { error = []; value = c.value ++ (x ∷ s) ∷ [] })

pub record Settings : Type 0 where
  pub lower : Text → Text
  pub decimal : ℕ → Text
  pub max_tags : ℕ

abbrev pub commit_chip : Settings → Text → Chips → Chips
commit_chip t raw c = commit_name t.decimal t.max_tags (normalize_name t.lower raw) c

-- `value.filter((t) => t !== name)`
unfoldable pub remove_chip : Text → Chips → Chips
remove_chip name c = record c { value = filter_by (λ t. not (text_eq t name)) c.value; error = [] }

abbrev pub is_blank : Text → Bool
is_blank [] = true
is_blank (c ∷ s) = false

abbrev pub at_cap : Settings → Chips → Bool
at_cap t c = leb t.max_tags (length c.value)

abbrev pub without_list : Chips → Chips
without_list c = record c { suggestions = []; is_open = false; highlight_idx = none }

-- What the effect does at once, after a change of the draft or of the chips.
abbrev pub on_change : Settings → Chips → Chips
on_change t c = if at_cap t c || is_blank (trim c.draft) then without_list c else c

abbrev pub first_of : List Text → Option ℕ
first_of [] = none
first_of (s ∷ ss) = some 0

unfoldable pub suggested : List Text → Chips → Chips
unfolding has_tag
suggested list c =
    let filtered = filter_by (λ s. not (has_tag s c.value)) list in
    record c {
      suggestions = filtered;
      highlight_idx = first_of filtered;
      is_open = true;
      loading = false;
    }

abbrev pub unsuggested : Chips → Chips
unsuggested c = record c { suggestions = []; highlight_idx = none; loading = false }

pub data Key : Type 0 where
  enter tab comma backspace arrow_down arrow_up escape other_key : Key

abbrev pub entry_at : Option ℕ → List Text → Option Text
entry_at none suggestions = none
entry_at (some i) suggestions = get_elem? suggestions i

abbrev pub commit_choice : Settings → Option Text → Chips → Chips
commit_choice t (some name) c = commit_chip t name c
commit_choice t none c = if is_blank (trim c.draft) then c else commit_chip t c.draft c

-- Enter, Tab or a comma.
abbrev pub commit_key : Settings → Chips → Chips
commit_key t c =
    commit_choice t (if c.is_open then entry_at c.highlight_idx c.suggestions else none) c

abbrev pub is_empty {ℓ} : {A : Type ℓ} → List A → Bool
is_empty [] = true
is_empty (x ∷ xs) = false

-- `(i + 1) % n`, of an index below `n` or of -1
abbrev pub next_idx : ℕ → Option ℕ → ℕ
next_idx n none = 0
next_idx n (some i) = if ltb (i + 1) n then i + 1 else 0

abbrev pub prev_idx : ℕ → Option ℕ → ℕ
prev_idx n none = n - 1
prev_idx n (some zero) = n - 1
prev_idx n (some (suc i)) = i

abbrev pub move_key : Key → Chips → Chips
move_key arrow_down c = record c {
  highlight_idx = some (next_idx (length c.suggestions) c.highlight_idx);
}
move_key arrow_up c = record c {
  highlight_idx = some (prev_idx (length c.suggestions) c.highlight_idx);
}
move_key escape c = record c { is_open = false; highlight_idx = none }
move_key _ c = c

abbrev pub list_key : Key → Chips → Chips
list_key k c = if not c.is_open || is_empty c.suggestions then c else move_key k c

-- `value[value.length - 1]`, of chips that are there
abbrev pub last_chip : List Text → Text
last_chip [] = []
last_chip (x ∷ []) = x
last_chip (x ∷ y ∷ xs) = last_chip (y ∷ xs)

abbrev pub press : Settings → Key → Chips → Chips
press t enter c = commit_key t c
press t comma c = commit_key t c
press t tab c =
    if is_blank (trim c.draft) && not (is_some c.highlight_idx) then c else commit_key t c
press t backspace c =
    if is_blank c.draft && not (is_empty c.value)
    then remove_chip (last_chip c.value) c
    else list_key backspace c
press t k c = list_key k c

-- What the user and the browser do; a fetch that was aborted does nothing.
pub data Action : Type 0 where
  typing : (draft : Text) → Action
  effect starts fails focus click_outside : Action
  answers : (names : List Text) → Action
  presses : Key → Action
  removes : (name : Text) → Action
  picks hovers : (i : ℕ) → Action

unfoldable pub act : Settings → Action → Chips → Chips
unfolding trim normalize_name suggested remove_chip
act t (typing draft) c = record c { draft = draft; error = [] }
act t effect c = on_change t c
act t starts c = record c { loading = true }
act t fails c = unsuggested c
act t (answers names) c = suggested names c
act t (presses k) c = press t k c
act t (removes name) c = remove_chip name c
act t focus c =
    if is_empty c.suggestions || is_blank (trim c.draft) then c else record c { is_open = true }
act t click_outside c = record c { is_open = false }
act t (picks i) c = elim (get_elem? c.suggestions i) [
  | none ↦ c
  | some name ↦ if c.is_open then commit_chip t name c else c
]
act t (hovers i) c =
    if c.is_open && ltb i (length c.suggestions) then record c { highlight_idx = some i } else c

unfoldable pub act_all : Settings → List Action → Chips → Chips
act_all t [] c = c
act_all t (a ∷ actions) c = act_all t actions (act t a c)
