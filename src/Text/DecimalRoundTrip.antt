-- ===== src/Text/DecimalRoundTrip.antt =====
-- `strconv.Atoi` reads back what %d prints.
use redis_in_go.Prelude.{
  ℕ, zero, suc, ◌+◌, ◌/◌, ◌%◌, ◌^◌, ◌≤◌, ◌<◌, ◌≡◌, ◌≢◌, ◌∙◌, sym, ◌==◌, refl, [], ◌∷◌, arith, inl,
  inr, Bool-cases, ltb,
}
use redis_in_go.Prelude.Int.{ℤ, pos, negsuc, IsInt64}
use redis_in_go.Text.Strings.{Bytes, All, Lacks}
use redis_in_go.Text.Decimal.{
  print, format_nat, format_int, scan, scan_digits, positive, negative, atoi, parsed, Scan, number,
  bad_digit, too_large,
}

abbrev pub IsDigit : ℕ → Type 0
IsDigit c = (b'0' ≤ c) × (c ≤ b'9')

print-IsDigit : (fuel n : ℕ) (out : Bytes) → All IsDigit out → All IsDigit (print fuel n out)
unfolding print
print-IsDigit zero n out h = h
print-IsDigit (suc fuel) n out h = elim (Bool-cases (ltb n 10)) [
  | inl small ↦ rw small ((ground arith, ground arith), h)
  | inr large ↦
      rw large (print-IsDigit fuel (n / 10) ((b'0' + n % 10) ∷ out) ((omega arith, omega arith), h))
]

pub format_nat-IsDigit : (n : ℕ) → All IsDigit (format_nat n)
unfolding format_nat
format_nat-IsDigit n = print-IsDigit (suc n) n [] tt

-- What is printed has a first digit.
print-cons :
    (fuel n : ℕ) (out : Bytes) → n < fuel → (c : ℕ) × (s : Bytes) × (print fuel n out ≡ c ∷ s)
unfolding print
print-cons zero n out h = elim h [ ]
print-cons (suc fuel) n out h = elim (Bool-cases (ltb n 10)) [
  | inl small ↦ (b'0' + n, out, rw small)
  | inr large ↦ rw large (print-cons fuel (n / 10) ((b'0' + n % 10) ∷ out) (ground arith))
]

pub format_nat-cons : (n : ℕ) → (c : ℕ) × (s : Bytes) × (format_nat n ≡ c ∷ s)
unfolding format_nat
format_nat-cons n = print-cons (suc n) n [] (omega arith)

-- Reading the digits of `n` from 0 gives `n`.
scan-print :
    (fuel n : ℕ) (out : Bytes) → n < fuel → n < 2 ^ 64 → scan (print fuel n out) 0 ≡ scan out n
unfolding print
scan-print zero n out h b = elim h [ ]
scan-print (suc fuel) n out h b = elim (Bool-cases (ltb n 10)) [
  | inl small ↦ rw small (unfold scan in ground arith)
  | inr large ↦
      rw (large, scan-print fuel (n / 10) ((b'0' + n % 10) ∷ out) (ground arith) (omega arith))
        (unfold scan in ground arith)
]

scan_digits-cons : (c : ℕ) (s : Bytes) → scan_digits (c ∷ s) ≡ scan (c ∷ s) 0
unfolding scan_digits
scan_digits-cons c s = refl

pub scan_digits-format_nat : (n : ℕ) → n < 2 ^ 64 → scan_digits (format_nat n) ≡ number n
scan_digits-format_nat n b =
    let (c, s, e) = format_nat-cons n in
    rw (e, scan_digits-cons, ← e)
      (unfold format_nat scan in scan-print (suc n) n [] (omega arith) b)

atoi_no_sign : (c : ℕ) (s : Bytes) → IsDigit c → atoi (c ∷ s) ≡ positive (scan_digits (c ∷ s))
unfolding atoi
atoi_no_sign c s d = ground arith

pub format_nat-head_IsDigit : (n c : ℕ) (s : Bytes) → format_nat n ≡ c ∷ s → IsDigit c
format_nat-head_IsDigit n c s e = (rw e at (format_nat-IsDigit n)).0

pub atoi-format_nat : (n : ℕ) → n < 2 ^ 63 → atoi (format_nat n) ≡ parsed (pos n)
atoi-format_nat n b =
    let (c, s, e) = format_nat-cons n in
    rw
      (
        e,
        atoi_no_sign c s (format_nat-head_IsDigit n c s e),
        ← e,
        scan_digits-format_nat n (omega arith),
      )
      (unfold positive in ground arith)

atoi_minus : (s : Bytes) → atoi (b'-' ∷ s) ≡ negative (scan_digits s)
unfolding atoi
atoi_minus s = refl

-- Every 64-bit `int` is read back from its decimal print.
pub atoi-format_int : (z : ℤ) → IsInt64 z → atoi (format_int z) ≡ parsed z
unfolding format_int
atoi-format_int (pos n) h = atoi-format_nat n h
atoi-format_int (negsuc n) h =
    rw (atoi_minus, scan_digits-format_nat (suc n) (omega arith)) (unfold negative in ground arith)

positive-parsed : (r : Scan) {z : ℤ} → positive r ≡ parsed z → (n : ℕ) × (z ≡ pos n) × (n < 2 ^ 63)
unfolding positive
positive-parsed (number n) h = (n, ground arith, ground arith)
positive-parsed bad_digit h = cc
positive-parsed too_large h = cc

atoi_unsigned : (c : ℕ) (s : Bytes) → c ≢ b'-' → (r : Scan) × (atoi (c ∷ s) ≡ positive r)
unfolding atoi
atoi_unsigned c s h = elim (Bool-cases (c == b'+')) [
  | inl t ↦ (scan_digits s, ground arith)
  | inr f ↦ (scan_digits (c ∷ s), ground arith)
]

-- Text without a minus sign is read as a number that is not negative.
pub atoi_no_minus :
    (s : Bytes) {z : ℤ} → Lacks b'-' s → atoi s ≡ parsed z → (n : ℕ) × (z ≡ pos n) × (n < 2 ^ 63)
atoi_no_minus [] l h = unfold atoi in cc
atoi_no_minus (c ∷ s) {z} l h = let (r, e) = atoi_unsigned c s l.0 in positive-parsed r (sym e ∙ h)
