-- ===== src/Transactions/TagTests.antt =====
-- The tag chips at concrete inputs (frontend/components/transactions/TagChipInput.tsx).
use pfv.Common.{◌≡◌, refl, arith, false, none, [], ◌∷◌, ◌++◌, List}
use pfv.Common.Text.{codes, text_eq}
use pfv.Transactions.Tags.{
  Chips, Settings, Action, typing, answers, presses, enter, comma, max_tags_per_transaction,
  normalize_name, act, act_all,
}
use pfv.Transactions.Tags.Tidy.{IsTidy}
use pfv.Transactions.Tags.Runs.{act_all-IsTidy}

abbrev no_chips : Chips
no_chips = record {
  value = [];
  draft = [];
  suggestions = [];
  is_open = false;
  highlight_idx = none;
  loading = false;
  error = [];
}

abbrev settings : Settings
settings = record { lower = λ s. s; decimal = λ n. codes "5"; max_tags = max_tags_per_transaction }

-- A tag is typed, then one is taken from the suggestions.
abbrev two_tags : List Action
two_tags =
    typing (codes " home  office! ")
    ∷ presses comma
    ∷ typing (codes "tr")
    ∷ answers (codes "travel" ∷ codes "home office" ∷ [])
    ∷ presses enter
    ∷ []

no_chips-IsTidy : IsTidy max_tags_per_transaction no_chips
no_chips-IsTidy = record { few = ground arith; distinct = tt; names = tt; within = tt }

act_all-IsTidy_example : IsTidy max_tags_per_transaction (act_all settings two_tags no_chips)
act_all-IsTidy_example = act_all-IsTidy settings two_tags no_chips no_chips-IsTidy

two_tags_added :
    (act_all settings two_tags no_chips).value ≡ codes "home office" ∷ codes "travel" ∷ []
unfolding act_all act text_eq
two_tags_added = refl

-- A tab between two words is dropped, where a space would be kept.
joined_words : normalize_name (λ s. s) (codes "home" ++ 9 ∷ codes "office") ≡ codes "homeoffice"
unfolding normalize_name
joined_words = refl
