-- ===== src/Resp.antt =====
-- internal/resp/parser.go: the parser of RESP commands, and the encoders of bulk strings and commands
-- that the handlers of internal/commands/commands.go write. The proofs are in the children.
mod Encode
pub mod RoundTrip
pub mod Format
pub mod Bounds
unfoldable pub use Encode.{crlf, bulk, bulks, array_header, format_propagated_command}
use redis_in_go.Prelude.{
  ℕ, zero, suc, ◌+◌, ◌-◌, ◌^◌, Bool, ◌&&◌, List, [], ◌∷◌, ◌++◌, Option, none, some, ltb, ◌==◌,
  if◌then◌else◌, length, take, drop,
}
use redis_in_go.Prelude.Int.{ℤ, pos, negsuc, pos_part, ◌+ℤ◌, ltb_ℤ, wrap_int}
use redis_in_go.Text.{Bytes}
use redis_in_go.Text.Decimal.{Atoi, parsed, syntax_error, range_error, atoi}

-- the messages that `errors.New` and `strconv` make
pub data ParseError : Type 0 where
  not_array no_crlf bad_number expected_bulk not_enough expected_crlf : ParseError

-- `panic` is a Go run-time panic: a slice bound or a capacity out of range.
pub data Parsed {ℓ} (A : Type ℓ) : Type ℓ where
  ok : A → Parsed A
  err : ParseError → Parsed A
  panic : Parsed A

infixl 5 ◌>>=◌
abbrev pub ◌>>=◌ {ℓ κ} : {A : Type ℓ} {B : Type κ} → Parsed A → (A → Parsed B) → Parsed B
ok a >>= f = f a
err e >>= f = err e
panic >>= f = panic

-- What is read, the unread rest data[pos:], and the position `pos`.
abbrev pub Cursor : Type 0
Cursor = Bytes × Bytes × ℕ

-- The loop of `ReadLine`: it stands at data[i:], and `line` is data[pos:i].
unfoldable pub scan_line : Bytes → ℕ → Bytes → Option Cursor
scan_line [] i line = none
scan_line (c ∷ []) i line = none
scan_line (c ∷ d ∷ rest) i line =
    let more = scan_line (d ∷ rest) (i + 1) (line ++ c ∷ []) in
    if c == b'\r' && d == b'\n' then some (line, rest, i + 2) else more

abbrev line_or_error : Option Cursor → Parsed Cursor
line_or_error none = err no_crlf
line_or_error (some cursor) = ok cursor

unfoldable pub read_line : Bytes → ℕ → Parsed Cursor
unfolding scan_line
read_line rest i = line_or_error (scan_line rest i [])

unfoldable pub atoi_or_error : Atoi → Parsed ℤ
atoi_or_error (parsed n) = ok n
atoi_or_error syntax_error = err bad_number
atoi_or_error (range_error n) = err bad_number

-- the two bytes behind a bulk string
unfoldable pub skip_crlf : Bytes → Bytes → ℕ → Parsed Cursor
skip_crlf arg [] i = err expected_crlf
skip_crlf arg (c ∷ []) i = err expected_crlf
skip_crlf arg (c ∷ d ∷ rest) i =
    if c == b'\r' && d == b'\n' then ok (arg, rest, i + 2) else err expected_crlf

-- data[pos:pos+strLen] with `pos+strLen` computed as an `int`, and the CRLF behind it
unfoldable pub read_body : ℤ → Bytes → ℕ → Parsed Cursor
unfolding skip_crlf
read_body str_len rest i =
    let stop = wrap_int (pos i +ℤ str_len) in
    if ltb_ℤ (pos (i + length rest)) stop
    then err not_enough
    else if ltb_ℤ stop (pos i)
    then panic
    else (let n = pos_part stop - i in skip_crlf (take n rest) (drop n rest) (pos_part stop))

-- one round of the loop of `ParseCommand`
unfoldable pub parse_bulk : Bytes → ℕ → Parsed Cursor
parse_bulk [] i = err expected_bulk
parse_bulk (c ∷ rest) i =
    if c == b'$'
    then (do
      (line, rest', i') ← read_line rest (i + 1)
      str_len ← atoi_or_error (atoi line)
      read_body str_len rest' i')
    else err expected_bulk

-- the rounds that are left, and the arguments so far
unfoldable pub parse_args : ℕ → Bytes → ℕ → List Bytes → Parsed (List Bytes × ℕ)
parse_args zero rest i args = ok (args, i)
parse_args (suc n) rest i args = do
  (arg, rest', i') ← parse_bulk rest i
  parse_args n rest' i' (args ++ arg ∷ [])

-- `make([]string, 0, n)` panics for a negative `n`, and where 16 * n bytes pass the 2^48 bytes that
-- Go's runtime can address on a 64-bit machine.
abbrev pub max_cap : ℕ
max_cap = 2 ^ 44

unfoldable pub make_args : ℤ → Parsed ℕ
make_args (pos n) = if ltb max_cap n then panic else ok n
make_args (negsuc n) = panic

-- The arguments, and how many bytes were read.
unfoldable pub parse_command : Bytes → Parsed (List Bytes × ℕ)
unfolding make_args
parse_command [] = err not_array
parse_command (c ∷ rest) =
    if c == b'*'
    then (do
      (num_args, rest', i) ← read_line rest 1
      n ← atoi_or_error (atoi num_args)
      n' ← make_args n
      parse_args n' rest' i [])
    else err not_array
