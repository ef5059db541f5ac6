-- ===== src/Bits.antt =====
-- The binary digits of a word: `|`, `&` and shifts, as Go has them on unsigned integers. No code of the
-- repository is modelled here.
use redis_in_go.Prelude.{
  ℕ, zero, suc, ◌+◌, ◌*◌, ◌/◌, ◌%◌, ◌^◌, ◌≤◌, ◌<◌, min, ◌≡◌, refl, ap, ap₂, sym, arith,
}
use Prim.Native.Nat.{max, digits, bitwise, bit_and, bit_or, bit_and-bitwise, bit_or-bitwise}
use native.Mathlib.Nat.{pow-suc, le_refl, div-div-eq-div-mul, mod-eq-sub-mul-div}

times_one : (a : ℕ) → a * 2 ^ 0 ≡ a
times_one a = omega arith

mod_one : (a : ℕ) → a % 2 ^ 0 ≡ 0
mod_one a = omega arith

over_one : (a : ℕ) → a / 2 ^ 0 ≡ a
over_one a = omega arith

module _ (rest : ℕ → ℕ) (f : ℕ → ℕ → ℕ) where
  -- a count of digits that is large enough is as good as any other
  digits_count : (k m a b : ℕ) → a ≤ k → a ≤ m → digits rest f k a b ≡ digits rest f m a b
  digits_count zero zero a b hk hm = refl
  digits_count zero (suc m) zero b hk hm = refl
  digits_count zero (suc m) (suc a) b hk hm = absurd (omega (arith, hk))
  digits_count (suc k) zero zero b hk hm = refl
  digits_count (suc k) zero (suc a) b hk hm = absurd (omega (arith, hm))
  digits_count (suc k) (suc m) zero b hk hm = refl
  digits_count (suc k) (suc m) (suc a) b hk hm =
      let half = digits_count k m (suc a / 2) (b / 2) (omega arith) (omega arith) in
      ap (λ (t : ℕ). t * 2 + f (suc a % 2) (b % 2)) half

  lowest_digit :
      (a b : ℕ)
      → bitwise rest f (suc a) b ≡ bitwise rest f (suc a / 2) (b / 2) * 2 + f (suc a % 2) (b % 2)
  lowest_digit a b =
      ap (λ (t : ℕ). t * 2 + f (suc a % 2) (b % 2))
        (digits_count a (suc a / 2) (suc a / 2) (b / 2) (omega arith) (le_refl _))

pub bit_and_digit : (a b : ℕ) → bit_and a b ≡ bit_and (a / 2) (b / 2) * 2 + min (a % 2) (b % 2)
bit_and_digit zero b = simp bit_and-bitwise (omega arith)
bit_and_digit (suc a) b = simp bit_and-bitwise (lowest_digit (λ _. 0) min a b)

pub bit_or_digit : (a b : ℕ) → bit_or a b ≡ bit_or (a / 2) (b / 2) * 2 + max (a % 2) (b % 2)
bit_or_digit zero b = simp bit_or-bitwise (omega arith)
bit_or_digit (suc a) b = simp bit_or-bitwise (lowest_digit (λ c. c) max a b)

-- The lowest digit and the others.
half_or : (a b : ℕ) → bit_or a b / 2 ≡ bit_or (a / 2) (b / 2)
half_or a b = omega (arith, bit_or_digit a b)

low_or : (a b : ℕ) → bit_or a b % 2 ≡ max (a % 2) (b % 2)
low_or a b = omega (arith, bit_or_digit a b)

half_and : (a b : ℕ) → bit_and a b / 2 ≡ bit_and (a / 2) (b / 2)
half_and a b = omega (arith, bit_and_digit a b)

low_and : (a b : ℕ) → bit_and a b % 2 ≡ min (a % 2) (b % 2)
low_and a b = omega (arith, bit_and_digit a b)

and_zero_upto : (n a : ℕ) → a ≤ n → bit_and a 0 ≡ 0
and_zero_upto zero zero h = refl
and_zero_upto zero (suc a) h = absurd (omega (arith, h))
and_zero_upto (suc n) a h = omega (arith, bit_and_digit a 0, and_zero_upto n (a / 2) (omega arith))

and_zero : (a : ℕ) → bit_and a 0 ≡ 0
and_zero a = and_zero_upto a a (le_refl a)

digit_law :
    (x i j k : ℕ)
    → i < 2
    → j < 2
    → k < 2
    → x * 2 + min (max i j) k ≡ x * 2 + max (min i k) (min j k)
digit_law x i j k hi hj hk = omega arith

and_step :
    (a b m : ℕ)
    → bit_and (bit_or (a / 2) (b / 2)) (m / 2)
      ≡ bit_or (bit_and (a / 2) (m / 2)) (bit_and (b / 2) (m / 2))
    → bit_and (bit_or a b) m ≡ bit_or (bit_and a m) (bit_and b m)
and_step a b m ih =
    rw
      (
        bit_and_digit (bit_or a b) m,
        half_or a b,
        low_or a b,
        bit_or_digit (bit_and a m) (bit_and b m),
        half_and a m,
        half_and b m,
        low_and a m,
        low_and b m,
        ih,
      )
      (digit_law (bit_or (bit_and (a / 2) (m / 2)) (bit_and (b / 2) (m / 2))) (a % 2) (b % 2)
        (m % 2) (omega arith) (omega arith) (omega arith))

-- a mask goes over a union
and_or_upto : (n a b m : ℕ) → m ≤ n → bit_and (bit_or a b) m ≡ bit_or (bit_and a m) (bit_and b m)
and_or_upto zero a b m hm =
    let e : m ≡ 0 = omega arith in rw (e, and_zero (bit_or a b), and_zero a, and_zero b) refl
and_or_upto (suc n) a b m hm = and_step a b m (and_or_upto n (a / 2) (b / 2) (m / 2) (omega arith))

pub and-or : (a b m : ℕ) → bit_and (bit_or a b) m ≡ bit_or (bit_and a m) (bit_and b m)
and-or a b m = and_or_upto m a b m (le_refl m)

double_or : (a b : ℕ) → bit_or (a * 2) (b * 2) ≡ bit_or a b * 2
double_or a b =
    let ea : a * 2 / 2 ≡ a = omega arith in
    let eb : b * 2 / 2 ≡ b = omega arith in
    omega (arith, bit_or_digit (a * 2) (b * 2), ap₂ bit_or ea eb)

times_pow : (a k : ℕ) → a * 2 ^ suc k ≡ a * 2 ^ k * 2
times_pow a k = omega (arith, ap (λ (t : ℕ). a * t) (pow-suc 2 k))

pub or-shift_left : (k a b : ℕ) → bit_or a b * 2 ^ k ≡ bit_or (a * 2 ^ k) (b * 2 ^ k)
or-shift_left zero a b = rw (times_one (bit_or a b), times_one a, times_one b) refl
or-shift_left (suc k) a b =
    rw (times_pow (bit_or a b) k, times_pow a k, times_pow b k, or-shift_left k a b)
      (sym (double_or (a * 2 ^ k) (b * 2 ^ k)))

over_pow : (a k : ℕ) → a / 2 ^ suc k ≡ a / 2 ^ k / 2
over_pow a k = rw (pow-suc 2 k) (sym (div-div-eq-div-mul a (2 ^ k) 2))

pub or-shift_right : (k a b : ℕ) → bit_or a b / 2 ^ k ≡ bit_or (a / 2 ^ k) (b / 2 ^ k)
or-shift_right zero a b = rw (over_one (bit_or a b), over_one a, over_one b) refl
or-shift_right (suc k) a b =
    rw (over_pow (bit_or a b) k, over_pow a k, over_pow b k, or-shift_right k a b)
      (half_or (a / 2 ^ k) (b / 2 ^ k))

or_join : (x y i j : ℕ) → i < 2 → j < 2 → bit_or (x * 2 + i) (y * 2 + j) ≡ bit_or x y * 2 + max i j
or_join x y i j hi hj =
    let ex : (x * 2 + i) / 2 ≡ x = omega arith in
    let ey : (y * 2 + j) / 2 ≡ y = omega arith in
    omega (arith, bit_or_digit (x * 2 + i) (y * 2 + j), ap₂ bit_or ex ey)

mod_twice : (x m : ℕ) → 0 < m → x % (2 * m) ≡ x / 2 % m * 2 + x % 2
mod_twice x m h =
    grind
      (arith, div-div-eq-div-mul x 2 m, mod-eq-sub-mul-div x (2 * m), mod-eq-sub-mul-div (x / 2) m)

pub pow_pos : (k : ℕ) → 0 < 2 ^ k
pow_pos zero = omega arith
pow_pos (suc k) = omega (arith, pow-suc 2 k, pow_pos k)

mod_pow : (a k : ℕ) → a % 2 ^ suc k ≡ a / 2 % 2 ^ k * 2 + a % 2
mod_pow a k =
    let e : 2 ^ suc k ≡ 2 * 2 ^ k = omega (arith, pow-suc 2 k) in
    rw e (mod_twice a (2 ^ k) (pow_pos k))

pub or-mod : (k a b : ℕ) → bit_or a b % 2 ^ k ≡ bit_or (a % 2 ^ k) (b % 2 ^ k)
or-mod zero a b = rw (mod_one (bit_or a b), mod_one a, mod_one b) refl
or-mod (suc k) a b =
    rw
      (
        mod_pow (bit_or a b) k,
        mod_pow a k,
        mod_pow b k,
        half_or a b,
        low_or a b,
        or-mod k (a / 2) (b / 2),
      )
      (sym (or_join (a / 2 % 2 ^ k) (b / 2 % 2 ^ k) (a % 2) (b % 2) (omega arith) (omega arith)))

or_swap_upto :
    (n a b c d : ℕ)
    → a ≤ n
    → b ≤ n
    → c ≤ n
    → d ≤ n
    → bit_or (bit_or a b) (bit_or c d) ≡ bit_or (bit_or a c) (bit_or b d)
or_swap_upto zero zero zero zero zero ha hb hc hd = refl
or_swap_upto zero (suc a) b c d ha hb hc hd = absurd (omega (arith, ha))
or_swap_upto zero zero (suc b) c d ha hb hc hd = absurd (omega (arith, hb))
or_swap_upto zero zero zero (suc c) d ha hb hc hd = absurd (omega (arith, hc))
or_swap_upto zero zero zero zero (suc d) ha hb hc hd = absurd (omega (arith, hd))
or_swap_upto (suc n) a b c d ha hb hc hd =
    rw
      (
        bit_or_digit (bit_or a b) (bit_or c d),
        bit_or_digit (bit_or a c) (bit_or b d),
        half_or a b,
        half_or c d,
        half_or a c,
        half_or b d,
        low_or a b,
        low_or c d,
        low_or a c,
        low_or b d,
        or_swap_upto n (a / 2) (b / 2) (c / 2) (d / 2) (omega arith) (omega arith) (omega arith)
            (omega arith),
      )
      (omega arith)

pub or_swap : (a b c d : ℕ) → bit_or (bit_or a b) (bit_or c d) ≡ bit_or (bit_or a c) (bit_or b d)
or_swap a b c d =
    or_swap_upto (a + b + c + d) a b c d (omega arith) (omega arith) (omega arith) (omega arith)

or_zero : (b : ℕ) → bit_or 0 b ≡ b
or_zero b = bit_or-bitwise 0 b

-- fields that do not overlap
pub or-fields : (k x q : ℕ) → x < 2 ^ k → bit_or x (q * 2 ^ k) ≡ x + q * 2 ^ k
or-fields zero x q h = let e : x ≡ 0 = omega arith in rw (e, or_zero (q * 2 ^ 0)) (omega arith)
or-fields (suc k) x q h =
    let e : q * 2 ^ suc k ≡ q * 2 ^ k * 2 = times_pow q k in
    let half : q * 2 ^ k * 2 / 2 ≡ q * 2 ^ k = omega arith in
    let small : x / 2 < 2 ^ k = omega (arith, pow-suc 2 k) in
    rw e (
      omega (
        arith,
        bit_or_digit x (q * 2 ^ k * 2),
        ap (bit_or (x / 2)) half,
        or-fields k (x / 2) q small,
      ))
