-- ===== src/Geo/Codes.antt =====
-- Proofs about the grid codes of internal/store/geo.go.
use redis_in_go.Prelude.{
  ℕ, zero, suc, ◌*◌, ◌/◌, ◌%◌, ◌^◌, ◌<◌, ◌≤◌, ◌≡◌, refl, sym, ap, ◌∙◌, ap₂, Bool, true, ◌&&◌, ◌==◌,
  arith,
}
use Prim.Native.Nat.{bit_or}
use native.Mathlib.Nat.{pow-suc, mod-lt, mod-add-div', div-lt_iff_lt-mul}
use redis_in_go.Bits.{or-shift_left, or-shift_right, or-mod, and-or, or_swap, or-fields, pow_pos}
use redis_in_go.Geo.{
  spread_stage, spread_int32_to_int64, interleave, compact_stage, compact_int64_to_int32,
  grid_numbers,
}

spread_stage-or :
    (k mask a b : ℕ)
    → spread_stage k mask (bit_or a b) ≡ bit_or (spread_stage k mask a) (spread_stage k mask b)
unfolding spread_stage
spread_stage-or k mask a b =
    rw
      (
        or-shift_left k a b,
        or-mod 64 (a * 2 ^ k) (b * 2 ^ k),
        or_swap a b (a * 2 ^ k % 2 ^ 64) (b * 2 ^ k % 2 ^ 64),
        and-or,
      )
      refl

compact_stage-or :
    (k mask a b : ℕ)
    → compact_stage k mask (bit_or a b) ≡ bit_or (compact_stage k mask a) (compact_stage k mask b)
unfolding compact_stage
compact_stage-or k mask a b =
    rw (or-shift_right k a b, or_swap a b (a / 2 ^ k) (b / 2 ^ k), and-or) refl

spread-or :
    (a b : ℕ)
    → spread_int32_to_int64 (bit_or a b)
      ≡ bit_or (spread_int32_to_int64 a) (spread_int32_to_int64 b)
unfolding spread_int32_to_int64
spread-or a b =
    rw
      (
        spread_stage-or 16,
        spread_stage-or 8,
        spread_stage-or 4,
        spread_stage-or 2,
        spread_stage-or 1,
      )
      refl

interleave-or :
    (x x' y y' : ℕ)
    → interleave (bit_or x x') (bit_or y y') ≡ bit_or (interleave x y) (interleave x' y')
unfolding interleave
interleave-or x x' y y' =
    let sy = spread_int32_to_int64 y in
    let sy' = spread_int32_to_int64 y' in
    rw
      (spread-or x x', spread-or y y', or-shift_left 1 sy sy', or-mod 64 (sy * 2 ^ 1) (sy' * 2 ^ 1))
      (or_swap (spread_int32_to_int64 x) (spread_int32_to_int64 x') (sy * 2 ^ 1 % 2 ^ 64)
        (sy' * 2 ^ 1 % 2 ^ 64))

compact-or :
    (a b : ℕ)
    → compact_int64_to_int32 (bit_or a b)
      ≡ bit_or (compact_int64_to_int32 a) (compact_int64_to_int32 b)
unfolding compact_int64_to_int32
compact-or a b =
    rw
      (
        and-or,
        compact_stage-or 1,
        compact_stage-or 2,
        compact_stage-or 4,
        compact_stage-or 8,
        compact_stage-or 16,
        or-mod 32,
      )
      refl

-- One bit of each number, at place `k`.
bits_read : ℕ → ℕ → ℕ → Bool
bits_read k i j =
    let code = interleave (i * 2 ^ k) (j * 2 ^ k) in
    compact_int64_to_int32 code == i * 2 ^ k && compact_int64_to_int32 (code / 2 ^ 1) == j * 2 ^ k

all_read : ℕ → Bool
all_read zero = true
all_read (suc k) =
    (bits_read k 0 0 && bits_read k 0 1 && bits_read k 1 0 && bits_read k 1 1) && all_read k

bits_table : all_read 32 ≡ true
unfolding all_read bits_read interleave spread_int32_to_int64 compact_int64_to_int32 spread_stage
    compact_stage
bits_table = refl

table_entry : (n k i j : ℕ) → all_read n ≡ true → k < n → i < 2 → j < 2 → bits_read k i j ≡ true
unfolding all_read
table_entry zero k i j h hk hi hj = absurd (omega (arith, hk))
table_entry (suc n) k i j h hk hi hj = ground (arith, table_entry n k i j)

bit_read :
    (k i j : ℕ)
    → k < 32
    → i < 2
    → j < 2
    → grid_numbers (interleave (i * 2 ^ k) (j * 2 ^ k)) ≡ (i * 2 ^ k, j * 2 ^ k)
unfolding grid_numbers bits_read
bit_read k i j hk hi hj =
    let h = table_entry 32 k i j bits_table hk hi hj in
    let low : compact_int64_to_int32 (interleave (i * 2 ^ k) (j * 2 ^ k)) ≡ i * 2 ^ k =
      ground arith in
    let high : compact_int64_to_int32 (interleave (i * 2 ^ k) (j * 2 ^ k) / 2 ^ 1) ≡ j * 2 ^ k =
      ground arith in
    ap₂ (λ (a b : ℕ). (a, b)) low high

abbrev join : ℕ × ℕ → ℕ × ℕ → ℕ × ℕ
join (a, b) (c, d) = (bit_or a c, bit_or b d)

grid_numbers-or : (a b : ℕ) → grid_numbers (bit_or a b) ≡ join (grid_numbers a) (grid_numbers b)
unfolding grid_numbers
grid_numbers-or a b =
    rw (compact-or a b, or-shift_right 1 a b, compact-or (a / 2 ^ 1) (b / 2 ^ 1)) refl

-- the digits below place `n`, and the rest
split_digits : (n x : ℕ) → x ≡ bit_or (x % 2 ^ n) (x / 2 ^ n * 2 ^ n)
split_digits n x =
    sym (or-fields n (x % 2 ^ n) (x / 2 ^ n) (mod-lt x (pow_pos n)) ∙ mod-add-div' x (2 ^ n))

grid_numbers_upto :
    (n x y : ℕ) → n ≤ 32 → x < 2 ^ n → y < 2 ^ n → grid_numbers (interleave x y) ≡ (x, y)
grid_numbers_upto zero x y hn hx hy =
    let ex : x ≡ 0 = omega arith in
    let ey : y ≡ 0 = omega arith in
    rw (ex, ey) (bit_read 0 0 0 (omega arith) (omega arith) (omega arith))
grid_numbers_upto (suc n) x y hn hx hy =
    let place = 2 ^ n in
    let top_x : x / 2 ^ n < 2 = (div-lt_iff_lt-mul (pow_pos n)).1 (omega (arith, pow-suc 2 n)) in
    let top_y : y / 2 ^ n < 2 = (div-lt_iff_lt-mul (pow_pos n)).1 (omega (arith, pow-suc 2 n)) in
    let low =
      grid_numbers_upto n (x % 2 ^ n) (y % 2 ^ n) (omega arith) (mod-lt x (pow_pos n))
        (mod-lt y (pow_pos n)) in
    let high = bit_read n (x / 2 ^ n) (y / 2 ^ n) (omega arith) top_x top_y in
    ap₂ (λ (a b : ℕ). grid_numbers (interleave a b)) (split_digits n x) (split_digits n y)
    ∙ ap grid_numbers
        (interleave-or (x % 2 ^ n) (x / 2 ^ n * 2 ^ n) (y % 2 ^ n) (y / 2 ^ n * 2 ^ n))
    ∙ grid_numbers-or _ _
    ∙ ap₂ join low high
    ∙ sym (ap₂ (λ (a b : ℕ). (a, b)) (split_digits n x) (split_digits n y))

-- The bit operations of the encoder and of the decoder are inverse to one another: any two uint32
-- that `interleave` puts into one code are read back from it, each from its own places.
pub grid_numbers-interleave :
    (x y : ℕ) → x < 2 ^ 32 → y < 2 ^ 32 → grid_numbers (interleave x y) ≡ (x, y)
grid_numbers-interleave x y hx hy = grid_numbers_upto 32 x y (omega arith) hx hy
