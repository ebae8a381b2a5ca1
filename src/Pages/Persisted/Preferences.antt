-- ===== src/Pages/Persisted/Preferences.antt =====
-- What is read back from the preferences of frontend/lib/persisted-state.ts.
use pfv.Common.{
  ap, ◌∙◌, ◌≡◌, refl, arith, Bool, true, false, Option, none, some, List, [], ◌∷◌, Bool-cases, inl,
  inr,
}
use pfv.Common.Text.{Text, text_eq, text_eq_refl, text_eq_iff}
use pfv.Common.Json.{Json}
use pfv.Pages.Persisted.{
  Browser, get_item, remove_item, set_item, read_persisted, write_persisted, clear_persisted,
}

-- Whatever the storage holds and whichever of its methods throw, a read with a validator gives a value
-- that the validator accepts, where it accepts the fallback.
pub read_persisted-validated :
    (parse : Text → Option Json) (key : Text) (fallback : Json) (validate : Json → Bool)
    (b : Browser)
    → validate fallback ≡ true
    → validate (read_persisted parse key fallback (some validate) b) ≡ true
unfolding read_persisted
read_persisted-validated parse key fallback validate b h = ground arith

get_item-remove_self :
    (key : Text) (items : List (Text × Text)) → get_item key (remove_item key items) ≡ none
unfolding get_item remove_item
get_item-remove_self key [] = refl
get_item-remove_self key ((k, v) ∷ items) = ground (arith, get_item-remove_self key items)

get_item-remove_other :
    (key other : Text) (items : List (Text × Text))
    → text_eq key other ≡ false
    → get_item other (remove_item key items) ≡ get_item other items
unfolding get_item remove_item
get_item-remove_other key other [] h = refl
get_item-remove_other key other ((k, v) ∷ items) h = elim (Bool-cases (text_eq k key)) [
  | inl same ↦
      let n : text_eq k other ≡ false =
        ap (λ t. text_eq t other) ((text_eq_iff k key).0 same) ∙ h in
      ground (arith, same, n, get_item-remove_other key other items h)
  | inr differs ↦ ground (arith, differs, get_item-remove_other key other items h)
]

-- In a browser that lets the page read and write, a value whose text parses to it again is read back
-- after it is written, and is gone, so that the fallback is read, after it is cleared as well.
pub read_persisted-write_persisted :
    (parse : Text → Option Json) (stringify : Json → Option Text) (key : Text)
    (fallback value : Json) (validate : Json → Bool) (raw : Text) (b : Browser)
    → b.has_window ≡ true
    → b.get_throws ≡ false
    → b.set_throws ≡ false
    → b.remove_throws ≡ false
    → stringify value ≡ some raw
    → parse raw ≡ some value
    → validate value ≡ true
    → let written = write_persisted stringify key value b in
      (read_persisted parse key fallback (some validate) written ≡ value)
      × (read_persisted parse key fallback (some validate) (clear_persisted key written) ≡ fallback)
unfolding read_persisted write_persisted clear_persisted set_item get_item remove_item
read_persisted-write_persisted parse stringify key fallback value validate raw b w g s r e p v =
    rw (w, g, e, s, r, text_eq_refl key, get_item-remove_self key (remove_item key b.items))
      (rw p (rw v refl), refl)

-- A write leaves what every other key reads as it was.
pub read_persisted-write_other :
    (parse : Text → Option Json) (stringify : Json → Option Text) (key other : Text)
    (fallback value : Json) (validate : Option (Json → Bool)) (b : Browser)
    → text_eq key other ≡ false
    → read_persisted parse other fallback validate (write_persisted stringify key value b)
      ≡ read_persisted parse other fallback validate b
unfolding read_persisted write_persisted set_item get_item
read_persisted-write_other parse stringify key other fallback value validate b h =
    ground (arith, get_item-remove_other key other b.items h)
