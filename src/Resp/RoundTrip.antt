-- ===== src/Resp/RoundTrip.antt =====
-- `ParseCommand` reads back what `formatPropagatedCommand` writes.
use redis_in_go.Prelude.{
  ℕ, suc, ◌+◌, ◌^◌, ◌≤◌, ◌<◌, ◌≡◌, refl, List, [], ◌∷◌, ◌++◌, append_assoc, append-nil, some, arith,
  length, length-append, take, drop,
}
use redis_in_go.Prelude.Int.{pos, ◌+ℤ◌, wrap_int}
use redis_in_go.Text.{Bytes, All}
use redis_in_go.Text.Decimal.{format_nat, atoi}
use redis_in_go.Text.DecimalRoundTrip.{IsDigit, format_nat-IsDigit, atoi-format_nat}
use redis_in_go.Resp.Encode.{crlf, bulk, bulks, array_header, format_propagated_command}
use redis_in_go.Resp.{
  scan_line, read_line, read_body, skip_crlf, parse_bulk, parse_args, parse_command, atoi_or_error,
  make_args, max_cap, ok, ◌>>=◌,
}

scan_line-append :
    (line rest acc : Bytes) (i : ℕ)
    → All IsDigit line
    → scan_line (line ++ (b'\r' ∷ b'\n' ∷ rest)) i acc
      ≡ some (acc ++ line, rest, i + length line + 2)
unfolding scan_line
scan_line-append [] rest acc i h = ground (arith, append-nil acc)
scan_line-append (c ∷ []) rest acc i h = ground arith
scan_line-append (c ∷ d ∷ line) rest acc i h = ground (
  arith,
  scan_line-append (d ∷ line) rest (acc ++ c ∷ []) (i + 1) h.1,
  append_assoc acc (c ∷ []) (d ∷ line),
)

pub read_line-format_nat :
    (n i : ℕ) (rest : Bytes)
    → read_line (format_nat n ++ (b'\r' ∷ b'\n' ∷ rest)) i
      ≡ ok (format_nat n, rest, i + length (format_nat n) + 2)
unfolding read_line
read_line-format_nat n i rest =
    rw (scan_line-append (format_nat n) rest [] i (format_nat-IsDigit n))

pub take-append {ℓ} : {A : Type ℓ} (xs ys : List A) → take (length xs) (xs ++ ys) ≡ xs
take-append [] ys = refl
take-append (x ∷ xs) ys = rw (take-append xs ys)

pub drop-append {ℓ} : {A : Type ℓ} (xs ys : List A) → drop (length xs) (xs ++ ys) ≡ ys
drop-append [] ys = refl
drop-append (x ∷ xs) ys = drop-append xs ys

wrap_sum : (a b : ℕ) → a + b < 2 ^ 63 → wrap_int (pos a +ℤ pos b) ≡ pos (a + b)
unfolding wrap_int ◌+ℤ◌
wrap_sum a b h = ground arith

skip_crlf-append :
    (arg rest : Bytes) (i : ℕ) → skip_crlf arg (crlf ++ rest) i ≡ ok (arg, rest, i + 2)
unfolding skip_crlf
skip_crlf-append arg rest i = refl

read_body-append :
    (s rest : Bytes) (i : ℕ)
    → i + length s < 2 ^ 63
    → read_body (pos (length s)) (s ++ (crlf ++ rest)) i ≡ ok (s, rest, i + length s + 2)
unfolding read_body
read_body-append s rest i h = ground (
  arith,
  wrap_sum i (length s) h,
  take-append s (crlf ++ rest),
  drop-append s (crlf ++ rest),
  length-append s (crlf ++ rest),
)

bulk-append :
    (s rest : Bytes)
    → bulk s ++ rest ≡ b'$' ∷ (format_nat (length s) ++ (b'\r' ∷ b'\n' ∷ (s ++ (crlf ++ rest))))
unfolding bulk
bulk-append s rest = simp append_assoc

pub length-bulk : (s : Bytes) → length (bulk s) ≡ length (format_nat (length s)) + length s + 5
unfolding bulk
length-bulk s = omega (
  arith,
  length-append (format_nat (length s)) (b'\r' ∷ b'\n' ∷ (s ++ crlf)),
  length-append s crlf,
)

parse_bulk_dollar :
    (rest : Bytes) (i : ℕ)
    → parse_bulk (b'$' ∷ rest) i ≡ (
        read_line rest (i + 1) >>= λ (line, rest', i').
        atoi_or_error (atoi line) >>= λ n. read_body n rest' i')
unfolding parse_bulk
parse_bulk_dollar rest i = refl

pub parse_bulk-bulk :
    (s rest : Bytes) (i : ℕ)
    → i + length (bulk s) < 2 ^ 63
    → parse_bulk (bulk s ++ rest) i ≡ ok (s, rest, i + length (bulk s))
unfolding atoi_or_error
parse_bulk-bulk s rest i h =
    let k : ℕ = length (format_nat (length s)) in
    let fits : i + 1 + k + 2 + length s < 2 ^ 63 = omega (arith, length-bulk s) in
    rw (bulk-append, parse_bulk_dollar, read_line-format_nat)
      (rw (atoi-format_nat (length s) (omega arith), read_body-append s rest _ fits)
        (let e : i + 1 + k + 2 + length s + 2 ≡ i + length (bulk s) =
            omega (arith, length-bulk s) in
          rw e))

parse_args_step :
    (n : ℕ) (rest rest' arg : Bytes) (i i' : ℕ) (args : List Bytes)
    → parse_bulk rest i ≡ ok (arg, rest', i')
    → parse_args (suc n) rest i args ≡ parse_args n rest' i' (args ++ arg ∷ [])
unfolding parse_args
parse_args_step n rest rest' arg i i' args h = rw h

bulks-cons :
    (s : Bytes) (ss : List Bytes) (rest : Bytes)
    → bulks (s ∷ ss) ++ rest ≡ bulk s ++ (bulks ss ++ rest)
unfolding bulks
bulks-cons s ss rest = append_assoc (bulk s) (bulks ss) rest

length-bulks :
    (s : Bytes) (ss : List Bytes) → length (bulks (s ∷ ss)) ≡ length (bulk s) + length (bulks ss)
unfolding bulks
length-bulks s ss = length-append (bulk s) (bulks ss)

parse_args-bulks :
    (ss : List Bytes) (rest : Bytes) (i : ℕ) (args : List Bytes)
    → i + length (bulks ss) < 2 ^ 63
    → parse_args (length ss) (bulks ss ++ rest) i args ≡ ok (args ++ ss, i + length (bulks ss))
parse_args-bulks [] rest i args h = unfold parse_args bulks in ground (arith, append-nil args)
parse_args-bulks (s ∷ ss) rest i args h =
    let fits : i + length (bulk s) < 2 ^ 63 = omega (arith, length-bulks s ss) in
    let more : i + length (bulk s) + length (bulks ss) < 2 ^ 63 =
      omega (arith, length-bulks s ss) in
    rw
      (
        bulks-cons s ss rest,
        parse_args_step (length ss) _ _ s i _ args (parse_bulk-bulk s (bulks ss ++ rest) i fits),
        parse_args-bulks ss rest (i + length (bulk s)) (args ++ s ∷ []) more,
        append_assoc args (s ∷ []) ss,
      )
      (let e : i + length (bulk s) + length (bulks ss) ≡ i + length (bulks (s ∷ ss)) =
          omega (arith, length-bulks s ss) in
        rw e)

parse_args-bulks_count :
    (n : ℕ) (ss : List Bytes) (rest : Bytes) (i : ℕ)
    → n ≡ length ss
    → i + length (bulks ss) < 2 ^ 63
    → parse_args n (bulks ss ++ rest) i [] ≡ ok (ss, i + length (bulks ss))
parse_args-bulks_count n ss rest i e h = rw e (parse_args-bulks ss rest i [] h)

command-append :
    (cmd : Bytes) (args : List Bytes) (rest : Bytes)
    → format_propagated_command cmd args ++ rest
      ≡ b'*' ∷ (format_nat (length args + 1) ++ (b'\r' ∷ b'\n' ∷ (bulks (cmd ∷ args) ++ rest)))
unfolding format_propagated_command array_header
command-append cmd args rest = simp append_assoc

pub length-command :
    (cmd : Bytes) (args : List Bytes)
    → length (format_propagated_command cmd args)
      ≡ length (format_nat (length args + 1)) + length (bulks (cmd ∷ args)) + 3
unfolding format_propagated_command array_header
length-command cmd args = omega (
  arith,
  length-append (b'*' ∷ (format_nat (length args + 1) ++ crlf)) (bulk cmd ++ bulks args),
  length-append (format_nat (length args + 1)) crlf,
)

parse_command_star :
    (rest : Bytes)
    → parse_command (b'*' ∷ rest) ≡ (
        read_line rest 1 >>= λ (line, rest', i).
        atoi_or_error (atoi line) >>= λ n. make_args n >>= λ n'. parse_args n' rest' i [])
unfolding parse_command
parse_command_star rest = refl

make_args_few : (n : ℕ) → n ≤ max_cap → make_args (pos n) ≡ ok n
unfolding make_args
make_args_few n few = ground arith

-- A command of at most 2^44 words whose text has an `int` for its length is read back: the words are
-- the name and the arguments, the position is the length of the text, and what stands behind the
-- text does not matter.
pub parse_command-format :
    (cmd : Bytes) (args : List Bytes) (rest : Bytes)
    → length args + 1 ≤ max_cap
    → length (format_propagated_command cmd args) < 2 ^ 63
    → parse_command (format_propagated_command cmd args ++ rest)
      ≡ ok (cmd ∷ args, length (format_propagated_command cmd args))
unfolding atoi_or_error
parse_command-format cmd args rest few fits =
    let n : ℕ = length args + 1 in
    let k : ℕ = length (format_nat n) in
    let room : 1 + k + 2 + length (bulks (cmd ∷ args)) < 2 ^ 63 =
      omega (arith, length-command cmd args) in
    rw
      (
        command-append cmd args rest,
        parse_command_star,
        read_line-format_nat,
        atoi-format_nat n (omega arith),
        make_args_few n few,
        parse_args-bulks_count n (cmd ∷ args) rest (1 + k + 2) (omega arith) room,
      )
      ((let e : 1 + k + 2 + length (bulks (cmd ∷ args))
            ≡ length (format_propagated_command cmd args) =
          omega (arith, length-command cmd args) in
        rw e))
