-- ===== src/Format/Tests.antt =====
-- The comparison of amounts of frontend/lib/format.ts at concrete inputs.
use pfv.Common.{◌≡◌, refl, ◌↔◌, arith, true, false, some}
use pfv.Common.Text.{codes}
use pfv.Format.Amounts.{equals_amount}
use pfv.Format.Amounts.Decimals.{
  Decimal, written, IsDecimal, IsZero, SameAmount, equals_amount-SameAmount,
}

-- "012.50" and "12.5"
abbrev padded : Decimal
padded = record { negative = false; first = 48; rest = codes "12"; fraction = some (codes "50") }

abbrev plain : Decimal
plain = record { negative = false; first = 49; rest = codes "2"; fraction = some (codes "5") }

padded-IsDecimal : IsDecimal padded
padded-IsDecimal = ground arith

plain-IsDecimal : IsDecimal plain
plain-IsDecimal = ground arith

equals_amount-SameAmount_example :
    (equals_amount (written padded) (written plain) ≡ true)
    ↔ (SameAmount padded plain × (IsZero padded → padded.negative ≡ plain.negative))
equals_amount-SameAmount_example =
    equals_amount-SameAmount padded plain padded-IsDecimal plain-IsDecimal

-- A negative zero is another amount than zero.
signed_zero : equals_amount (codes "-0") (codes "0.00") ≡ false
unfolding equals_amount
signed_zero = refl
