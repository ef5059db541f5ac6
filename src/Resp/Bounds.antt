-- ===== src/Resp/Bounds.antt =====
-- How far `ParseCommand` reads: forward, and never past the end of the data.
use redis_in_go.Prelude.{
  ℕ, zero, suc, ◌+◌, ◌-◌, ◌≤◌, ◌<◌, ◌≡◌, List, [], ◌∷◌, ◌++◌, some, arith, inl, inr, Bool-cases,
  Option-cases, ◌&&◌, ◌==◌, length, length-append, length-drop, take, drop,
}
use redis_in_go.Prelude.Int.{ℤ, pos, pos_part, ltb_ℤ, wrap_int, ◌+ℤ◌, one_part}
use redis_in_go.Text.{Bytes}
use redis_in_go.Text.Decimal.{atoi}
use redis_in_go.Resp.{
  Parsed, ok, err, panic, ◌>>=◌, Cursor, scan_line, read_line, read_body, skip_crlf, parse_bulk,
  parse_args, parse_command, atoi_or_error, make_args,
}

abbrev Ensures : {A : Type 0} → (A → Type 0) → Parsed A → Type 0
Ensures P (ok a) = P a
Ensures P (err e) = Unit
Ensures P panic = Unit

Ensures-bind :
    {A B : Type 0} (P : A → Type 0) (Q : B → Type 0) (m : Parsed A) (f : A → Parsed B)
    → Ensures P m
    → ((a : A) → P a → Ensures Q (f a))
    → Ensures Q (m >>= f)
Ensures-bind P Q (ok a) f h k = k a h
Ensures-bind P Q (err e) f h k = tt
Ensures-bind P Q panic f h k = tt

any-Ensures : {A : Type 0} (m : Parsed A) → Ensures (λ _. Unit {0}) m
any-Ensures (ok a) = tt
any-Ensures (err e) = tt
any-Ensures panic = tt

Ensures-map :
    {A : Type 0} (P Q : A → Type 0) (m : Parsed A)
    → ((a : A) → P a → Q a)
    → Ensures P m
    → Ensures Q m
Ensures-map P Q (ok a) f h = f a h
Ensures-map P Q (err e) f h = tt
Ensures-map P Q panic f h = tt

-- The cursor has moved forward inside the data: `total` is the position of the data's end.
abbrev Forward : ℕ → ℕ → Cursor → Type 0
Forward total i (s, rest, i') = (i' + length rest ≡ total) × (i < i')

scan_line-Forward :
    (rest line s rest' : Bytes) (i i' : ℕ)
    → scan_line rest i line ≡ some (s, rest', i')
    → Forward (i + length rest) i (s, rest', i')
unfolding scan_line
scan_line-Forward [] line s rest' i i' h = cc
scan_line-Forward (c ∷ []) line s rest' i i' h = cc
scan_line-Forward (c ∷ d ∷ rest) line s rest' i i' h =
    ground (arith, scan_line-Forward (d ∷ rest) (line ++ c ∷ []) s rest' (i + 1) i')

read_line-Forward :
    (rest : Bytes) (i : ℕ) → Ensures (Forward (i + length rest) i) (read_line rest i)
unfolding read_line
read_line-Forward rest i = elim (Option-cases (scan_line rest i [])) [
  | inl e ↦ rw e tt
  | inr ((s, rest', i'), e) ↦ rw e (scan_line-Forward rest [] s rest' i i' e)
]

skip_crlf-Forward :
    (arg rest : Bytes) (i k total : ℕ)
    → i + length rest ≡ total
    → k ≤ i
    → Ensures (Forward total k) (skip_crlf arg rest i)
unfolding skip_crlf
skip_crlf-Forward arg [] i k total e h = tt
skip_crlf-Forward arg (c ∷ []) i k total e h = tt
skip_crlf-Forward arg (c ∷ d ∷ rest) i k total e h = elim (Bool-cases (c == b'\r' && d == b'\n')) [
  | inl t ↦ rw t (omega arith)
  | inr f ↦ rw f tt
]

read_body-Forward :
    (n : ℤ) (rest : Bytes) (i : ℕ) → Ensures (Forward (i + length rest) i) (read_body n rest i)
unfolding read_body
read_body-Forward n rest i =
    let stop : ℤ = wrap_int (pos i +ℤ n) in
    elim (Bool-cases (ltb_ℤ (pos (i + length rest)) stop)) [
      | inl t ↦ rw t tt
      | inr f ↦ rw f (elim (Bool-cases (ltb_ℤ stop (pos i))) [
        | inl t ↦ rw t tt
        | inr g ↦ rw g (
            let within : (i ≤ pos_part stop) × (pos_part stop ≤ i + length rest) =
              ground (arith, one_part stop) in
            skip_crlf-Forward (take (pos_part stop - i) rest) (drop (pos_part stop - i) rest)
              (pos_part stop) i (i + length rest)
              (omega (arith, within, length-drop (pos_part stop - i) rest)) within.0)
      ])
    ]

atoi-Ensures : (line : Bytes) → Ensures (λ _. Unit {0}) (atoi_or_error (atoi line))
atoi-Ensures line = any-Ensures (atoi_or_error (atoi line))

parse_bulk-Forward :
    (rest : Bytes) (i : ℕ) → Ensures (Forward (i + length rest) i) (parse_bulk rest i)
unfolding parse_bulk
parse_bulk-Forward [] i = tt
parse_bulk-Forward (c ∷ rest) i = elim (Bool-cases (c == b'$')) [
  | inl t ↦ rw t (
      Ensures-bind (Forward (i + 1 + length rest) (i + 1)) _ (read_line rest (i + 1)) _
        (read_line-Forward rest (i + 1))
        λ (line, rest', i') p.
          Ensures-bind (λ _. Unit {0}) _ (atoi_or_error (atoi line)) _ (atoi-Ensures line)
            λ n _.
              Ensures-map _ _ (read_body n rest' i') (λ (s, rest'', i'') q. omega (arith, p, q))
                (read_body-Forward n rest' i'))
  | inr f ↦ rw f tt
]

-- The position stays inside the data, and each round adds one argument.
parse_args-Forward :
    (n : ℕ) (rest : Bytes) (i : ℕ) (args : List Bytes)
    → Ensures
        (λ (args', i'). (i ≤ i') × (i' ≤ i + length rest) × (length args' ≡ length args + n))
        (parse_args n rest i args)
unfolding parse_args
parse_args-Forward zero rest i args = omega arith
parse_args-Forward (suc n) rest i args =
    Ensures-bind (Forward (i + length rest) i) _ (parse_bulk rest i) _ (parse_bulk-Forward rest i)
      λ (arg, rest', i') p.
        Ensures-map _ _ (parse_args n rest' i' (args ++ arg ∷ []))
          (λ (args', i'') q. omega (arith, p, q, length-append args (arg ∷ [])))
          (parse_args-Forward n rest' i' (args ++ arg ∷ []))

parse_command-Forward :
    (buf : Bytes) → Ensures (λ (args, i). (0 < i) × (i ≤ length buf)) (parse_command buf)
unfolding parse_command
parse_command-Forward [] = tt
parse_command-Forward (c ∷ rest) = elim (Bool-cases (c == b'*')) [
  | inl t ↦ rw t (
      Ensures-bind (Forward (1 + length rest) 1) _ (read_line rest 1) _ (read_line-Forward rest 1)
        λ (line, rest', i) p.
          Ensures-bind (λ _. Unit {0}) _ (atoi_or_error (atoi line)) _ (atoi-Ensures line)
            λ n _.
              Ensures-bind (λ _. Unit {0}) _ (make_args n) _ (any-Ensures (make_args n))
                λ n' _.
                  Ensures-map _ _ (parse_args n' rest' i []) (λ (args, i') q. omega (arith, p, q))
                    (parse_args-Forward n' rest' i []))
  | inr f ↦ rw f tt
]

-- Whenever `ParseCommand` returns arguments, it has read at least one byte and no byte past the end,
-- so that the caller's `buf[pos:]` is in range and shorter than `buf`.
pub parse_command_progress :
    (buf : Bytes) {args : List Bytes} {i : ℕ}
    → parse_command buf ≡ ok (args, i)
    → (0 < i) × (i ≤ length buf)
parse_command_progress buf h = rw h at (parse_command-Forward buf)
