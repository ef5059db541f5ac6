-- ===== src/Replica.antt =====
-- internal/replica/replica.go, and the answer of psyncCmd in internal/commands/commands.go. What a
-- reader gives is a text, and an error is `none`.
pub mod Handshake
use redis_in_go.Prelude.{
  ℕ, ◌≤◌, ◌++◌, Bool, true, false, ◌||◌, List, [], ◌∷◌, Option, none, some, ◌==◌, leb,
  if◌then◌else◌, drop, length, Outcome, done, panic,
}
use redis_in_go.Prelude.Int.{ℤ, pos, negsuc}
use redis_in_go.Text.{Bytes, codes, str_eq, split}
use redis_in_go.Text.Decimal.{Atoi, parsed, syntax_error, range_error, atoi, format_int}
use redis_in_go.Text.Scan.{has_prefix, trim_right, trim_space}

-- reader.ReadString('\n') with the line break, and what follows
unfoldable pub read_to_newline : Bytes → Option (Bytes × Bytes)
read_to_newline [] = none
read_to_newline (c ∷ s) = elim (c == 10) [
  | true ↦ some (c ∷ [], s)
  | false ↦ (elim (read_to_newline s) [ none ↦ none | some (line, rest) ↦ some (c ∷ line, rest) ])
]

unfoldable pub line_break : ℕ → Bool
line_break c = c == 13 || c == 10

unfoldable pub read_trimmed_line : Bytes → Option (Bytes × Bytes)
unfolding read_to_newline line_break
read_trimmed_line s = elim (read_to_newline s) [
  | none ↦ none
  | some (line, rest) ↦ some (trim_right line_break line, rest)
]

unfoldable pub read_simple_string : Bytes → Bytes → Option Bytes
unfolding read_trimmed_line
read_simple_string s expected = elim (read_trimmed_line s) [
  | none ↦ none
  | some (line, rest) ↦
      if has_prefix line (codes "+")
      then (if str_eq (drop 1 line) expected then some rest else none)
      else none
]

-- The loops of DiscardRDBPayload: the first line that starts with `prefix`, trimmed, and what follows
-- it; `line` is what ReadString has read so far.
unfoldable pub find_line : Bytes → Bytes → Bytes → Option (Bytes × Bytes)
find_line prefix [] line = none
find_line prefix (c ∷ s) line = elim (c == 10) [
  | true ↦ (elim (has_prefix (trim_space (line ++ c ∷ [])) prefix) [
    | true ↦ some (trim_space (line ++ c ∷ []), s)
    | false ↦ find_line prefix s []
  ])
  | false ↦ find_line prefix s (line ++ c ∷ [])
]

-- io.CopyN to io.Discard
unfoldable pub copy_n : ℤ → Bytes → Option Bytes
copy_n (pos n) s = if leb n (length s) then some (drop n s) else none
copy_n (negsuc n) s = some s

unfoldable pub discard_body : Atoi → Bytes → Option Bytes
unfolding copy_n
discard_body (parsed rdb_len) s = copy_n rdb_len s
discard_body syntax_error s = none
discard_body (range_error n) s = none

unfoldable pub discard_rdb_payload : Bytes → Option Bytes
unfolding find_line discard_body
discard_rdb_payload s = elim (find_line (codes "+FULLRESYNC") s []) [
  | none ↦ none
  | some (_, s') ↦ (elim (find_line (codes "$") s' []) [
    | none ↦ none
    | some (rdb_header, body) ↦ discard_body (atoi (drop 1 rdb_header)) body
  ])
]

-- What ConnectToMaster ends with: no connection, a failed step after the bytes that it has sent, or
-- the bytes that it has sent and those that HandleIncomingStream goes on with.
pub data Connected : Type 0 where
  refused : Connected
  failed : Bytes → Connected
  handed_over : Bytes → Bytes → Connected

unfoldable pub ping_request : Bytes
ping_request = codes "*1\r\n$4\r\nPING\r\n"

unfoldable pub port_request : ℤ → Bytes
port_request port =
    codes "*3\r\n$8\r\nREPLCONF\r\n$14\r\nlistening-port\r\n$4\r\n"
    ++ (format_int port ++ codes "\r\n")

unfoldable pub capa_request : Bytes
capa_request = codes "*3\r\n$8\r\nREPLCONF\r\n$4\r\ncapa\r\n$6\r\npsync2\r\n"

unfoldable pub psync_request : Bytes
psync_request = codes "*3\r\n$5\r\nPSYNC\r\n$1\r\n?\r\n$2\r\n-1\r\n"

unfoldable pub sync_step : Bytes → Bytes → Connected
unfolding discard_rdb_payload
sync_step sent s = elim (discard_rdb_payload s) [
  | none ↦ failed sent
  | some rest ↦ handed_over sent rest
]

-- A request is sent, the answer is OK, and `next` goes on.
unfoldable pub ok_step : Bytes → Bytes → (Bytes → Connected) → Connected
unfolding read_simple_string
ok_step sent s next = elim (read_simple_string s (codes "OK")) [
  | none ↦ failed sent
  | some rest ↦ next rest
]

-- The exchange with the master, whose bytes are `s`.
unfoldable pub handshake : ℤ → Bytes → Connected
unfolding sync_step ok_step ping_request port_request capa_request psync_request read_simple_string
handshake port s = elim (read_simple_string s (codes "PONG")) [
  | none ↦ failed ping_request
  | some s1 ↦ ok_step (ping_request ++ port_request port) s1 λ s2.
      ok_step (ping_request ++ (port_request port ++ capa_request)) s2
        λ s3. sync_step (ping_request ++ (port_request port ++ (capa_request ++ psync_request))) s3
]

-- net.Dial is an argument: the bytes that come from the address, if there is a connection.
unfoldable pub connect_parts : (Bytes → Option Bytes) → List Bytes → ℤ → Outcome Connected
unfolding handshake
connect_parts dial (host ∷ number ∷ _) port = elim (dial (host ++ codes ":" ++ number)) [
  | none ↦ done refused
  | some s ↦ done (handshake port s)
]
connect_parts dial _ port = panic

unfoldable pub connect_to_master : (Bytes → Option Bytes) → Bytes → ℤ → Outcome Connected
unfolding connect_parts
connect_to_master dial replica_of port = connect_parts dial (split replica_of 32) port

-- What psyncCmd writes: the ID and the offset of the master, and the file of GetEmptyRDB.
unfoldable pub sync_reply : Bytes → ℤ → Bytes → Bytes
sync_reply id offset rdb =
    codes "+FULLRESYNC "
    ++ (id
        ++ (codes " "
            ++ (format_int offset
                ++ (codes "\r\n"
                    ++ (codes "$" ++ (format_int (pos (length rdb)) ++ (codes "\r\n" ++ rdb)))))))
