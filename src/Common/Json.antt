-- ===== src/Common/Json.antt =====
-- Values that JSON.parse returns, with the reads that the program makes of them. Numbers are
-- integers here: no code below computes with a fractional one.
use mathlib.Core.Bool.{Bool, true, false}
use mathlib.Core.List.{List, [], ◌∷◌}
use mathlib.Core.Option.{Option, none, some}
use pfv.Common.Tests.{if◌then◌else◌, ◌==◌}
use pfv.Common.Text.{Text, text_eq}
use pfv.Common.Int.{ℤ, pos, negsuc}

mutual
  pub data Json : Type 0 where
    null : Json
    bool : Bool → Json
    num : ℤ → Json
    str : Text → Json
    arr : Items → Json
    obj : Fields → Json

  pub data Items : Type 0 where
    nil : Items
    cons : Json → Items → Items

  -- The own properties of an object, each key once.
  pub data Fields : Type 0 where
    end : Fields
    field : Text → Json → Fields → Fields

abbrev pub items : Items → List Json
items nil = []
items (cons v vs) = v ∷ items vs

unfoldable pub lookup : Text → Fields → Option Json
lookup k end = none
lookup k (field j v fs) = if text_eq j k then some v else lookup k fs

-- `v.k` where `v` is neither `null` nor `undefined`; `none` is `undefined`.
unfoldable pub member : Text → Json → Option Json
unfolding lookup
member k (obj fs) = lookup k fs
member k _ = none

-- `typeof v === "string" ? v : …`
abbrev pub as_string : Option Json → Option Text
as_string (some (str s)) = some s
as_string _ = none

abbrev pub as_number : Option Json → Option ℤ
as_number (some (num n)) = some n
as_number _ = none

-- `if (v)` for a JSON value or `undefined`.
abbrev is_zero : ℤ → Bool
is_zero (pos n) = n == 0
is_zero (negsuc n) = false

unfoldable pub truthy : Option Json → Option Json
truthy none = none
truthy (some null) = none
truthy (some (bool false)) = none
truthy (some (bool true)) = some (bool true)
truthy (some (num n)) = if is_zero n then none else some (num n)
truthy (some (str [])) = none
truthy (some (str (c ∷ s))) = some (str (c ∷ s))
truthy (some (arr vs)) = some (arr vs)
truthy (some (obj fs)) = some (obj fs)
