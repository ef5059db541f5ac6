-- ===== src/Text/Decimal.antt =====
-- Go's decimal numbers: `strconv.Itoa` and the verb %d print an integer, `strconv.Atoi` reads one.
use redis_in_go.Prelude.{
  ℕ, zero, suc, ◌+◌, ◌-◌, ◌*◌, ◌/◌, ◌%◌, ◌^◌, ◌≡◌, refl, ◌||◌, [], ◌∷◌, ltb, ◌==◌, if◌then◌else◌,
}
use redis_in_go.Prelude.Int.{ℤ, pos, negsuc, max_int, min_int}
use redis_in_go.Text.Strings.{Bytes, codes}

-- The digits of `n` in front of `out`; each round takes one digit from the right.
unfoldable pub print : ℕ → ℕ → Bytes → Bytes
print zero n out = out
print (suc fuel) n out =
    let rest = print fuel (n / 10) ((b'0' + n % 10) ∷ out) in
    if ltb n 10 then (b'0' + n) ∷ out else rest

-- `n + 1` rounds are enough, since each divides by ten
unfoldable pub format_nat : ℕ → Bytes
unfolding print
format_nat n = print (suc n) n []

-- strconv.Itoa, %d
unfoldable pub format_int : ℤ → Bytes
unfolding format_nat
format_int (pos n) = format_nat n
format_int (negsuc n) = b'-' ∷ format_nat (suc n)

-- The result of `strconv.Atoi`. Beside its error it returns a value, which callers may go on with:
-- 0 for a syntax error, the nearest `int` for a range error.
pub data Atoi : Type 0 where
  parsed : ℤ → Atoi
  syntax_error : Atoi
  range_error : ℤ → Atoi

unfoldable pub atoi_value : Atoi → ℤ
atoi_value (parsed n) = n
atoi_value syntax_error = pos 0
atoi_value (range_error n) = n

pub data Scan : Type 0 where
  number : ℕ → Scan
  bad_digit too_large : Scan

-- strconv.ParseUint: the first byte that is no digit, or the first overflow of uint64, ends the scan
unfoldable pub scan : Bytes → ℕ → Scan
scan [] n = number n
scan (c ∷ s) n =
    let n' = n * 10 + (c - b'0') in
    if ltb c b'0' || ltb b'9' c
    then bad_digit
    else if ltb (2 ^ 64 - 1) n'
    then too_large
    else scan s n'

unfoldable pub scan_digits : Bytes → Scan
unfolding scan
scan_digits [] = bad_digit
scan_digits (c ∷ s) = scan (c ∷ s) 0

unfoldable pub positive : Scan → Atoi
positive (number n) = if ltb n (2 ^ 63) then parsed (pos n) else range_error max_int
positive bad_digit = syntax_error
positive too_large = range_error max_int

unfoldable pub negative : Scan → Atoi
negative (number zero) = parsed (pos 0)
negative (number (suc n)) = if ltb n (2 ^ 63) then parsed (negsuc n) else range_error min_int
negative bad_digit = syntax_error
negative too_large = range_error min_int

unfoldable pub atoi : Bytes → Atoi
unfolding scan_digits positive negative
atoi [] = syntax_error
atoi (c ∷ s) =
    if c == b'-'
    then negative (scan_digits s)
    else if c == b'+'
    then positive (scan_digits s)
    else positive (scan_digits (c ∷ s))

format_runs : format_int (negsuc 1233) ≡ codes "-1234"
unfolding format_int
format_runs = refl

atoi_runs :
    (atoi (codes "-9223372036854775808") ≡ parsed min_int)
    × (atoi (codes "9223372036854775808") ≡ range_error max_int)
    × (atoi (codes "+7") ≡ parsed (pos 7))
    × (atoi (codes "-") ≡ syntax_error)
    × (atoi (codes "1x") ≡ syntax_error)
unfolding atoi
atoi_runs = (refl, refl, refl, refl, refl)
