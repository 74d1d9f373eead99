-- ===== src/Prelude/Float.antt =====
-- Go's `float64` as its 64-bit pattern. The comparisons are those of IEEE 754 on the pattern; the
-- arithmetic is the machine's, so it enters as the record `FloatOps`.
use Prim.Native.Nat.{ℕ, ◌+◌, ◌-◌, ◌/◌, ◌%◌}
use mathlib.Core.Path.{◌≡◌, refl}
use mathlib.Core.Bool.{Bool, true, false, not, ◌&&◌}
use native.Mathlib.Omega.{arith}
use sentinel_host.Prelude.Tests.{ltb, leb, ◌==◌, if◌then◌else◌}

abbrev pub Float64 : Type 0
Float64 = ℕ

-- The bit patterns of 0.0, 1.0 and 2.0.
abbrev pub zero_f : Float64
zero_f = 0

abbrev pub one_f : Float64
one_f = 0x3FF0000000000000

abbrev pub two_f : Float64
two_f = 0x4000000000000000

-- The pattern without its sign bit.
magnitude : Float64 → ℕ
magnitude x = x % 0x8000000000000000

-- NaN: the exponent is all ones and the mantissa is not zero.
unfoldable pub is_nan : Float64 → Bool
unfolding magnitude
is_nan x = ltb 0x7FF0000000000000 (magnitude x)

-- The place of a pattern among the numbers: the negative ones count down, and both zeros agree.
unfoldable pub rank : Float64 → ℕ
unfolding magnitude
rank x =
    if ltb (x / 0x8000000000000000) 1
    then 0x8000000000000000 + magnitude x
    else 0x8000000000000000 - magnitude x

-- `<`, `<=` and `==`: false as soon as one side is NaN.
unfoldable pub lt_f : Float64 → Float64 → Bool
lt_f a b = not (is_nan a) && (not (is_nan b) && ltb (rank a) (rank b))

unfoldable pub le_f : Float64 → Float64 → Bool
le_f a b = not (is_nan a) && (not (is_nan b) && leb (rank a) (rank b))

unfoldable pub eq_f : Float64 → Float64 → Bool
eq_f a b = not (is_nan a) && (not (is_nan b) && rank a == rank b)

pub record FloatOps : Type 0 where
  pub add : Float64 → Float64 → Float64
  pub mul : Float64 → Float64 → Float64
  pub quot : Float64 → Float64 → Float64

pub lt_f_irrefl : (a : Float64) → lt_f a a ≡ false
unfolding lt_f
lt_f_irrefl a = ground arith

pub lt_f_trans : (a b c : Float64) → lt_f a b ≡ true → lt_f b c ≡ true → lt_f a c ≡ true
unfolding lt_f
lt_f_trans a b c h k = ground arith

pub le_f_trans : (a b c : Float64) → le_f a b ≡ true → le_f b c ≡ true → le_f a c ≡ true
unfolding le_f
le_f_trans a b c h k = ground arith

pub le_f_refl : (a : Float64) → is_nan a ≡ false → le_f a a ≡ true
unfolding le_f
le_f_refl a h = ground arith

-- Away from NaN, what is not above is at most.
pub not_lt_f :
    (a b : Float64) → is_nan a ≡ false → is_nan b ≡ false → lt_f a b ≡ false → le_f b a ≡ true
unfolding lt_f le_f
not_lt_f a b ha hb h = ground arith

-- What is above is not at most.
pub lt_f-not_le : (a b : Float64) → lt_f a b ≡ true → le_f b a ≡ false
unfolding lt_f le_f
lt_f-not_le a b h = ground arith

pub lt_f-le : (a b : Float64) → lt_f a b ≡ true → le_f a b ≡ true
unfolding lt_f le_f
lt_f-le a b h = ground arith

pub le_lt_f_trans : (a b c : Float64) → le_f a b ≡ true → lt_f b c ≡ true → lt_f a c ≡ true
unfolding lt_f le_f
le_lt_f_trans a b c h k = ground arith

zero_below_one : lt_f zero_f one_f ≡ true
unfolding lt_f is_nan rank
zero_below_one = refl

pub eq_f_sym : (a b : Float64) → eq_f a b ≡ eq_f b a
unfolding eq_f
eq_f_sym a b = ground arith

pub lt_f_asym : (a b : Float64) → lt_f a b ≡ true → lt_f b a ≡ false
unfolding lt_f
lt_f_asym a b h = ground arith

pub zero_real : is_nan zero_f ≡ false
unfolding is_nan
zero_real = refl

pub one_real : is_nan one_f ≡ false
unfolding is_nan
one_real = refl

pub zero_one_le :
    (le_f zero_f zero_f ≡ true) × (le_f zero_f one_f ≡ true) × (le_f one_f one_f ≡ true)
unfolding le_f is_nan rank
zero_one_le = (refl, refl, refl)
