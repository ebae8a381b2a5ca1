-- ===== src/Pages/Persisted.antt =====
-- frontend/lib/persisted-state.ts: preferences kept in localStorage, which may be missing, refuse to
-- be read or written, or hold anything. JSON.parse and JSON.stringify are arguments and may throw.
pub mod Preferences
use pfv.Common.{Bool, true, false, Option, none, some, List, [], ◌∷◌, if◌then◌else◌}
use pfv.Common.Text.{Text, text_eq}
use pfv.Common.Json.{Json}

-- The items of the storage, and which of its methods throw.
pub record Browser : Type 0 where
  pub has_window : Bool
  pub get_throws : Bool
  pub set_throws : Bool
  pub remove_throws : Bool
  pub items : List (Text × Text)

unfoldable pub get_item : Text → List (Text × Text) → Option Text
unfolding text_eq
get_item key [] = none
get_item key ((k, v) ∷ items) =
    let rest = get_item key items in if text_eq k key then some v else rest

unfoldable pub remove_item : Text → List (Text × Text) → List (Text × Text)
unfolding text_eq
remove_item key [] = []
remove_item key ((k, v) ∷ items) =
    let rest = remove_item key items in if text_eq k key then rest else (k, v) ∷ rest

unfoldable pub set_item : Text → Text → List (Text × Text) → List (Text × Text)
unfolding remove_item
set_item key value items = (key, value) ∷ remove_item key items

-- `if (validate && !validate(parsed)) return fallback`
abbrev pub accepted : Option (Json → Bool) → Json → Json → Json
accepted none fallback parsed = parsed
accepted (some validate) fallback parsed = if validate parsed then parsed else fallback

-- A text that does not parse throws inside the `try`.
abbrev pub read_raw : (Text → Option Json) → Option (Json → Bool) → Json → Option Text → Json
read_raw parse validate fallback none = fallback
read_raw parse validate fallback (some raw) = elim (parse raw) [
  | none ↦ fallback
  | some parsed ↦ accepted validate fallback parsed
]

unfoldable pub read_persisted :
    (Text → Option Json) → Text → Json → Option (Json → Bool) → Browser → Json
unfolding get_item
read_persisted parse key fallback validate b =
    if b.has_window
    then (if b.get_throws
        then fallback
        else read_raw parse validate fallback (get_item key b.items))
    else fallback

abbrev write_raw : Text → Option Text → Browser → Browser
write_raw key none b = b
write_raw key (some raw) b =
    if b.set_throws then b else record b { items = set_item key raw b.items }

unfoldable pub write_persisted : (Json → Option Text) → Text → Json → Browser → Browser
unfolding set_item
write_persisted stringify key value b =
    if b.has_window then write_raw key (stringify value) b else b

unfoldable pub clear_persisted : Text → Browser → Browser
unfolding remove_item
clear_persisted key b =
    if b.has_window
    then (if b.remove_throws then b else record b { items = remove_item key b.items })
    else b
