-- ===== src/Examples/Geo.antt =====
-- Grid codes of internal/store/geo.go.
use redis_in_go.Prelude.{◌≡◌, refl, arith}
use redis_in_go.Geo.{interleave, spread_int32_to_int64, spread_stage, grid_numbers}
use redis_in_go.Geo.Codes.{grid_numbers-interleave}

grid_numbers-interleave_example : grid_numbers (interleave 12345 67890) ≡ (12345, 67890)
grid_numbers-interleave_example = grid_numbers-interleave 12345 67890 (omega arith) (omega arith)

-- the digits of 5 and 3, in turn
five_and_three : interleave 5 3 ≡ 27
unfolding interleave spread_int32_to_int64 spread_stage
five_and_three = refl
