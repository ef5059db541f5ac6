-- ===== src/SkipList/Float.antt =====
-- Go's float64 as far as the skip list needs it: the sign bit and the other 63 bits, and the order of
-- IEEE 754, where a NaN is not comparable and the two zeros are equal.
use redis_in_go.Prelude.{ℕ, Bool, not, ◌&&◌, if◌then◌else◌, ltb}
use redis_in_go.Prelude.Int.{ℤ, pos, sub_ℕ, ltb_ℤ, eqb_ℤ}

pub record Float64 : Type 0 where
  pub is_negative : Bool
  pub magnitude : ℕ

abbrev pub infinity_bits : ℕ
infinity_bits = 0x7FF0000000000000

unfoldable pub is_nan : Float64 → Bool
is_nan x = ltb infinity_bits x.magnitude

-- an integer with the place of the number among the others
abbrev pub place : Float64 → ℤ
place x = if x.is_negative then sub_ℕ 0 x.magnitude else pos x.magnitude

-- a < b and a == b
unfoldable pub float_less : Float64 → Float64 → Bool
unfolding is_nan
float_less a b = not (is_nan a) && (not (is_nan b) && ltb_ℤ (place a) (place b))

unfoldable pub float_equal : Float64 → Float64 → Bool
unfolding is_nan
float_equal a b = not (is_nan a) && (not (is_nan b) && eqb_ℤ (place a) (place b))
