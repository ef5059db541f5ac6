-- ===== src/Prelude/Wrap.antt =====
-- Sums of Go's `int64` that wrap around, taken together.
use redis_in_go.Prelude.{ℕ, ◌+◌, ◌-◌, ◌%◌, ◌^◌, ◌<◌, ◌≡◌, refl, arith, ltb, if◌then◌else◌}
use redis_in_go.Prelude.Int.{ℤ, pos, negsuc, ◌+ℤ◌, wrap_int}

-- the 64 bits of a number, and the number that they stand for
residue : ℤ → ℕ
residue (pos n) = n % 2 ^ 64
residue (negsuc n) = 2 ^ 64 - 1 - n % 2 ^ 64

of_residue : ℕ → ℤ
of_residue r = if ltb r (2 ^ 63) then pos r else negsuc (2 ^ 64 - r - 1)

wrap_int-residue : (z : ℤ) → wrap_int z ≡ of_residue (residue z)
unfolding wrap_int residue of_residue
wrap_int-residue (pos n) = refl
wrap_int-residue (negsuc n) = ground arith

residue_lt : (z : ℤ) → residue z < 2 ^ 64
unfolding residue
residue_lt (pos n) = omega arith
residue_lt (negsuc n) = omega arith

residue-of_residue : (r : ℕ) → r < 2 ^ 64 → residue (of_residue r) ≡ r
unfolding residue of_residue
residue-of_residue r h = ground arith

residue-add : (z : ℤ) (m : ℕ) → residue (z +ℤ pos m) ≡ (residue z + m) % 2 ^ 64
unfolding residue ◌+ℤ◌
residue-add (pos n) m = ground arith
residue-add (negsuc n) m = ground arith

mod_twice : (a n m : ℕ) → ((a + n) % 2 ^ 64 + m) % 2 ^ 64 ≡ (a + (n + m)) % 2 ^ 64
mod_twice a n m = omega arith

-- Two sums, the first of which has wrapped around, wrap around like one.
pub wrap_int-add_twice :
    (z : ℤ) (n m : ℕ) → wrap_int (wrap_int (z +ℤ pos n) +ℤ pos m) ≡ wrap_int (z +ℤ pos (n + m))
wrap_int-add_twice z n m =
    rw
      (
        wrap_int-residue (z +ℤ pos n),
        wrap_int-residue (z +ℤ pos (n + m)),
        wrap_int-residue (of_residue (residue (z +ℤ pos n)) +ℤ pos m),
        residue-add (of_residue (residue (z +ℤ pos n))) m,
        residue-of_residue (residue (z +ℤ pos n)) (residue_lt (z +ℤ pos n)),
        residue-add z n,
        residue-add z (n + m),
        mod_twice (residue z) n m,
      )
      refl
