-- ===== src/Prelude/Int.antt =====
-- Go's `int` (64 bits) as an integer over the native numbers, and `strconv.Atoi`.
use Prim.Native.Nat.{ℕ, zero, suc, ◌+◌, ◌-◌, ◌*◌}
use mathlib.Core.Bool.{Bool, true, false, not, ◌&&◌}
use mathlib.Core.Option.{Option, none, some}
use mathlib.Core.List.{[], ◌∷◌}
use sentinel_host.Prelude.Tests.{ltb, leb, ◌==◌, if◌then◌else◌}
use sentinel_host.Prelude.Strings.{Text}

pub data ℤ : Type 0 where
  pos negsuc : ℕ → ℤ

-- `<=` on `int`.
abbrev pub le_int : ℤ → ℤ → Bool
le_int (pos a) (pos b) = leb a b
le_int (pos a) (negsuc b) = false
le_int (negsuc a) (pos b) = true
le_int (negsuc a) (negsuc b) = leb b a

abbrev pub lt_int : ℤ → ℤ → Bool
lt_int a b = not (le_int b a)

abbrev pub is_digit : ℕ → Bool
is_digit c = leb b'0' c && leb c b'9'

-- The number that digits write after those of `acc`; there may be no other byte.
unfoldable pub digits : ℕ → Text → Option ℕ
digits acc [] = some acc
digits acc (c ∷ s) = elim (is_digit c) [ true ↦ digits (acc * 10 + (c - b'0')) s | false ↦ none ]

-- At least one digit.
unfoldable pub number : Text → Option ℕ
unfolding digits
number [] = none
number (c ∷ s) = digits 0 (c ∷ s)

-- A value outside 64 bits is an error.
abbrev pub positive : Option ℕ → Option ℤ
positive none = none
positive (some n) = if ltb n 0x8000000000000000 then some (pos n) else none

abbrev pub minus : ℕ → ℤ
minus zero = pos 0
minus (suc n) = negsuc n

abbrev pub negative : Option ℕ → Option ℤ
negative none = none
negative (some n) = if leb n 0x8000000000000000 then some (minus n) else none

-- `strconv.Atoi`: a sign, then digits.
unfoldable pub atoi : Text → Option ℤ
unfolding number
atoi [] = none
atoi (c ∷ s) =
    if c == b'-'
    then negative (number s)
    else if c == b'+'
    then positive (number s)
    else positive (number (c ∷ s))
