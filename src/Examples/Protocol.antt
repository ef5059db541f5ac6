-- ===== src/Examples/Protocol.antt =====
-- Inputs for the laws of internal/resp/parser.go.
use redis_in_go.Prelude.{◌^◌, ◌<◌, ◌≤◌, ◌≡◌, refl, [], ◌∷◌, ◌++◌, arith, length}
use redis_in_go.Text.{codes}
use redis_in_go.Text.Decimal.{atoi, format_nat}
use redis_in_go.Resp.{
  parse_command, format_propagated_command, ok, err, panic, not_enough, not_array, no_crlf,
  expected_crlf, bulk, array_header, parse_args, parse_bulk, read_line, read_body, atoi_or_error,
}
use redis_in_go.Resp.RoundTrip.{parse_command-format}
use redis_in_go.Resp.Bounds.{parse_command_progress}
use redis_in_go.Prelude.Int.{wrap_int, ◌+ℤ◌}

set_is_short :
    length (format_propagated_command (codes "set") (codes "k" ∷ codes "v" ∷ [])) < 2 ^ 63
unfolding format_propagated_command array_header bulk format_nat
set_is_short = omega arith

parse_command-format_example :
    parse_command
      (format_propagated_command (codes "set") (codes "k" ∷ codes "v" ∷ []) ++ codes "*1")
    ≡ ok (
      codes "set" ∷ codes "k" ∷ codes "v" ∷ [],
      length (format_propagated_command (codes "set") (codes "k" ∷ codes "v" ∷ [])),
    )
parse_command-format_example =
    parse_command-format (codes "set") (codes "k" ∷ codes "v" ∷ []) (codes "*1") (omega arith)
      set_is_short

ping_parses : parse_command (codes "*1\r\n$4\r\nPING\r\n*1") ≡ ok (codes "PING" ∷ [], 14)
unfolding parse_command parse_args parse_bulk read_line read_body atoi_or_error atoi wrap_int ◌+ℤ◌
ping_parses = refl

parse_command_progress_example : (0 < 14) × (14 ≤ length (codes "*1\r\n$4\r\nPING\r\n*1"))
parse_command_progress_example = parse_command_progress (codes "*1\r\n$4\r\nPING\r\n*1") ping_parses

-- Incomplete and malformed input. The caller reads more data after the first two errors only.
errors :
    (parse_command (codes "*1\r\n$4\r\nPI") ≡ err not_enough)
    × (parse_command [] ≡ err not_array)
    × (parse_command (codes "*1") ≡ err no_crlf)
    × (parse_command (codes "*1\r\n$4\r\nPING\r") ≡ err expected_crlf)
    × (parse_command (codes "*-1\r\n") ≡ panic)
    × (parse_command (codes "*1\r\n$-1\r\n") ≡ panic)
unfolding parse_command parse_args parse_bulk read_line read_body atoi_or_error atoi wrap_int ◌+ℤ◌
errors = (refl, refl, refl, refl, refl, refl)
