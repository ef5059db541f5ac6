-- ===== src/Geo.antt =====
-- The grid codes of internal/store/geo.go. A uint64 is a number below 2^64; `<<` drops the digits that
-- do not fit.
use redis_in_go.Prelude.{ℕ, ◌*◌, ◌/◌, ◌%◌, ◌^◌, ◌<◌}
use Prim.Native.Nat.{bit_and, bit_or}
pub mod Codes

-- (result | (result << k)) & mask
unfoldable pub spread_stage : ℕ → ℕ → ℕ → ℕ
spread_stage k mask result = bit_and (bit_or result (result * 2 ^ k % 2 ^ 64)) mask

unfoldable pub spread_int32_to_int64 : ℕ → ℕ
spread_int32_to_int64 v = spread_stage 1 0x5555555555555555 (
    spread_stage 2 0x3333333333333333 (
      spread_stage 4 0x0F0F0F0F0F0F0F0F
        (spread_stage 8 0x00FF00FF00FF00FF (spread_stage 16 0x0000FFFF0000FFFF v))))

unfoldable pub interleave : ℕ → ℕ → ℕ
interleave x y = bit_or (spread_int32_to_int64 x) (spread_int32_to_int64 y * 2 ^ 1 % 2 ^ 64)

-- (result | (result >> k)) & mask
unfoldable pub compact_stage : ℕ → ℕ → ℕ → ℕ
compact_stage k mask result = bit_and (bit_or result (result / 2 ^ k)) mask

unfoldable pub compact_int64_to_int32 : ℕ → ℕ
compact_int64_to_int32 v =
    compact_stage 16 0x00000000FFFFFFFF (
      compact_stage 8 0x0000FFFF0000FFFF (
        compact_stage 4 0x00FF00FF00FF00FF (
          compact_stage 2 0x0F0F0F0F0F0F0F0F
            (compact_stage 1 0x3333333333333333 (bit_and v 0x5555555555555555)))))
    % 2 ^ 32

-- `GeoScoreDecode` up to its grid numbers: those of the latitude and of the longitude
unfoldable pub grid_numbers : ℕ → ℕ × ℕ
grid_numbers geo_code = (compact_int64_to_int32 geo_code, compact_int64_to_int32 (geo_code / 2 ^ 1))
