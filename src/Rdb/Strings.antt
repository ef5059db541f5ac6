-- ===== src/Rdb/Strings.antt =====
-- The primitives of internal/rdbParser/rdbParser.go on the encodings of Rdb/Encode.
use redis_in_go.Prelude.{
  ℕ, zero, suc, ◌/◌, ◌^◌, ◌<◌, ◌≡◌, ◌++◌, append_assoc, arith, length, length-append, done, refl,
  ap, sym, ◌∙◌,
}
use native.Mathlib.Nat.{pow-suc}
use redis_in_go.Text.{Bytes}
use redis_in_go.Resp.RoundTrip.{take-append, drop-append}
use redis_in_go.Rdb.{
  little_endian, little_endian_value, read_length, read_14_bit, big_endian_uint32, read_string,
  read_plain, take_bytes,
}
use redis_in_go.Rdb.Encode.{encode_length, encode_string, encode_little_endian}

quotient_bound : (k n : ℕ) → n < 256 ^ suc k → n / 256 < 256 ^ k
quotient_bound k n h = omega (arith, pow-suc 256 k)

little_endian_value-encode :
    (k n : ℕ)
    → n < 256 ^ k
    → (length (encode_little_endian k n) ≡ k) × (little_endian_value (encode_little_endian k n) ≡ n)
unfolding little_endian_value
little_endian_value-encode zero n h = (refl, ground arith)
little_endian_value-encode (suc k) n h =
    let (len, value) = little_endian_value-encode k (n / 256) (quotient_bound k n h) in
    (omega (arith, len), omega (arith, value))

module _ (spare : Bytes) where
  pub read_length-encode_length :
      (n : ℕ) (rest : Bytes)
      → n < 2 ^ 32
      → read_length spare (encode_length n ++ rest) ≡ done (n, rest)
  unfolding read_length read_14_bit big_endian_uint32
  read_length-encode_length n rest h = ground arith

  take_bytes-append : (s rest : Bytes) → take_bytes spare (length s) (s ++ rest) ≡ done (s, rest)
  unfolding take_bytes
  take_bytes-append s rest = ground (
    arith,
    length-append s rest,
    append_assoc s rest spare,
    take-append s (rest ++ spare),
    drop-append s rest,
  )

  read_string-encode_length :
      (n : ℕ) (rest : Bytes)
      → n < 2 ^ 32
      → read_string spare (encode_length n ++ rest) ≡ read_plain spare (encode_length n ++ rest)
  unfolding read_string
  read_string-encode_length n rest h = ground arith

  pub read_string-encode_string :
      (s rest : Bytes)
      → length s < 2 ^ 32
      → read_string spare (encode_string s ++ rest) ≡ done (s, rest)
  unfolding read_plain
  read_string-encode_string s rest h =
      rw
        (
          append_assoc (encode_length (length s)) s rest,
          read_string-encode_length (length s) (s ++ rest) h,
          read_length-encode_length (length s) (s ++ rest) h,
        )
        (take_bytes-append s rest)

  pub little_endian-encode :
      (k n : ℕ) (rest : Bytes)
      → n < 256 ^ k
      → little_endian spare k (encode_little_endian k n ++ rest) ≡ done (n, rest)
  unfolding little_endian
  little_endian-encode k n rest h =
      let (len, value) = little_endian_value-encode k n h in
      let bytes : take_bytes spare k (encode_little_endian k n ++ rest)
          ≡ done (encode_little_endian k n, rest) =
        ap (λ l. take_bytes spare l (encode_little_endian k n ++ rest)) (sym len)
        ∙ take_bytes-append (encode_little_endian k n) rest in
      rw (bytes, value) refl
