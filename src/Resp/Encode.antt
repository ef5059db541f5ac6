-- ===== src/Resp/Encode.antt =====
-- The encoders: the verb "$%d\r\n%s\r\n" that the handlers use for a bulk string, "*%d\r\n" for the
-- head of an array, and `formatPropagatedCommand` of internal/commands/commands.go.
use redis_in_go.Prelude.{ℕ, ◌+◌, List, [], ◌∷◌, ◌++◌, length}
use redis_in_go.Text.{Bytes}
use redis_in_go.Text.Decimal.{format_nat}

abbrev pub crlf : Bytes
crlf = b'\r' ∷ b'\n' ∷ []

-- fmt.Sprintf("$%d\r\n%s\r\n", len(s), s)
unfoldable pub bulk : Bytes → Bytes
bulk s = b'$' ∷ (format_nat (length s) ++ (b'\r' ∷ b'\n' ∷ (s ++ crlf)))

-- fmt.Sprintf("*%d\r\n", n)
unfoldable pub array_header : ℕ → Bytes
array_header n = b'*' ∷ (format_nat n ++ crlf)

unfoldable pub bulks : List Bytes → Bytes
bulks [] = []
bulks (s ∷ ss) = bulk s ++ bulks ss

unfoldable pub format_propagated_command : Bytes → List Bytes → Bytes
unfolding bulks
format_propagated_command cmd args = array_header (length args + 1) ++ (bulk cmd ++ bulks args)
