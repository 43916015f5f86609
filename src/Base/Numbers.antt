-- ===== src/Base/Numbers.antt =====
-- A JavaScript number as far as the program looks at it: whole, fractional with its floor, below 0,
-- or not finite. (-0 counts as the whole number 0.)
use Prim.Native.Nat.{ℕ}
use mathlib.Core.Option.{Option, none, some}

pub data Number : Type 0 where
  whole fractional : ℕ → Number
  negative not_finite : Number

-- `parseNonNegativeInteger`, on a value that is a number
-- (apps/web/src/features/terminal/validation/non-negative-integer.ts).
abbrev pub parse_non_negative_integer : Number → Option ℕ
parse_non_negative_integer (whole n) = some n
parse_non_negative_integer (fractional n) = none
parse_non_negative_integer negative = none
parse_non_negative_integer not_finite = none
