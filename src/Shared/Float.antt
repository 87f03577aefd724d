-- ===== src/Shared/Float.antt =====
-- Python's `float`, as far as the services use it: negation, addition, `abs` and `<`. A finite value is a
-- whole number of millionths, so amounts with up to six decimals are exact; the three values that
-- are not finite are kept, with their comparisons. The two zeros of IEEE 754 are one value here.
use Prim.Native.Nat.{ℕ, ◌*◌}
use mathlib.Core.Path.{◌≡◌, refl}
use mathlib.Core.Bool.{Bool, true, false}
use native.Mathlib.Omega.{arith}
use datadog_sample_finance.Shared.Bools.{if◌then◌else◌}
use datadog_sample_finance.Shared.Int.{ℤ, pos, neg, ◌+ℤ◌, ltb_ℤ, int_laws}

pub data Float : Type 0 where
  finite : ℤ → Float
  infinity neg_infinity nan : Float

-- The float of a whole number.
abbrev pub whole : ℕ → Float
whole n = finite (pos (n * 1000000))

unfoldable pub negate : Float → Float
unfolding neg
negate (finite x) = finite (neg x)
negate infinity = neg_infinity
negate neg_infinity = infinity
negate nan = nan

-- The sum: that of the two infinities is not a number.
unfoldable pub plus : Float → Float → Float
plus nan _ = nan
plus (finite x) (finite y) = finite (x +ℤ y)
plus (finite x) y = y
plus infinity nan = nan
plus infinity neg_infinity = nan
plus infinity y = infinity
plus neg_infinity nan = nan
plus neg_infinity infinity = nan
plus neg_infinity y = neg_infinity

-- `a < b`: false as soon as one side is not a number.
unfoldable pub less : Float → Float → Bool
less nan _ = false
less (finite x) (finite y) = ltb_ℤ x y
less (finite x) infinity = true
less (finite x) neg_infinity = false
less (finite x) nan = false
less infinity _ = false
less neg_infinity neg_infinity = false
less neg_infinity nan = false
less neg_infinity (finite y) = true
less neg_infinity infinity = true

unfoldable pub abs : Float → Float
unfolding neg
abs (finite x) = finite (if ltb_ℤ x (pos 0) then neg x else x)
abs infinity = infinity
abs neg_infinity = infinity
abs nan = nan

pub abs-negate : (x : Float) → abs (negate x) ≡ abs x
unfolding abs negate
abs-negate (finite x) = ground arith
abs-negate infinity = refl
abs-negate neg_infinity = refl
abs-negate nan = refl

pub neg-neg : (x : ℤ) → neg (neg x) ≡ x
neg-neg x = omega int_laws
