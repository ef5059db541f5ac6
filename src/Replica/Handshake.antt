-- ===== src/Replica/Handshake.antt =====
-- A replica and a master that answers it as psyncCmd does.
use redis_in_go.Prelude.{
  ℕ, suc, ◌<◌, ◌^◌, ◌≡◌, ◌≢◌, refl, ap, ◌∙◌, ◌++◌, true, false, [], ◌∷◌, Option, some, arith,
  append_assoc, append-nil, length, done, length-append,
}
use redis_in_go.Prelude.Int.{ℤ, pos, negsuc}
use redis_in_go.Text.{str_eq, Bytes, codes, All-append, All-map, Lacks, split_pair}
use redis_in_go.Text.Decimal.{atoi, format_int, format_nat}
use redis_in_go.Text.DecimalRoundTrip.{IsDigit, format_nat-IsDigit, atoi-format_nat}
use redis_in_go.Text.Scan.{
  lacks, lacks-Lacks, has_prefix, is_space, Spaceless, trim_left, trim_right, trim_space,
  trim_right-append,
}
use redis_in_go.Resp.RoundTrip.{drop-append}
use redis_in_go.Replica.{
  find_line, copy_n, discard_body, discard_rdb_payload, sync_step, ok_step, handshake, sync_reply,
  handed_over, connect_to_master, connect_parts, ping_request, port_request, capa_request,
  psync_request, read_simple_string, read_trimmed_line, read_to_newline, line_break,
}

find_line-append :
    (prefix text rest line : Bytes)
    → Lacks 10 text
    → has_prefix (trim_space (line ++ (text ++ 10 ∷ []))) prefix ≡ true
    → find_line prefix (text ++ 10 ∷ rest) line
      ≡ some (trim_space (line ++ (text ++ 10 ∷ [])), rest)
unfolding find_line
find_line-append prefix [] rest line h p =
    ap
      (λ b. elim b [
        | true ↦ some (trim_space (line ++ 10 ∷ []), rest)
        | false ↦ find_line prefix rest []
      ])
      p
find_line-append prefix (c ∷ text) rest line h p = ground (
  arith,
  h.0,
  find_line-append prefix text rest (line ++ c ∷ []) h.1,
  append_assoc line (c ∷ []) (text ++ 10 ∷ []),
)

digits-Spaceless : (n : ℕ) → Spaceless (format_nat n)
unfolding is_space
digits-Spaceless n =
    All-map IsDigit (λ c. is_space c ≡ false) (format_nat n) (λ c d. ground (arith, d))
      (format_nat-IsDigit n)

digits-Lacks : (n : ℕ) → Lacks 10 (format_nat n)
digits-Lacks n =
    All-map IsDigit (λ c. c ≢ 10) (format_nat n) (λ c d e. omega (arith, d, e))
      (format_nat-IsDigit n)

format_int-Lacks : (z : ℤ) → Lacks 10 (format_int z)
unfolding format_int
format_int-Lacks (pos n) = digits-Lacks n
format_int-Lacks (negsuc n) = (omega arith, digits-Lacks (suc n))

-- the first line of the answer
sync_line : Bytes → ℤ → Bytes
sync_line id offset = id ++ (codes " " ++ (format_int offset ++ codes "\r"))

sync_line-Lacks : (id : Bytes) (offset : ℤ) → Lacks 10 id → Lacks 10 (sync_line id offset)
unfolding sync_line
sync_line-Lacks id offset h =
    All-append (λ c. c ≢ 10) id _ h
      (
        ground arith,
        All-append (λ c. c ≢ 10) (format_int offset) (codes "\r") (format_int-Lacks offset)
            (ground arith, tt),
      )

sync_line_kept :
    (s : Bytes) → has_prefix (trim_space (codes "+FULLRESYNC" ++ s)) (codes "+FULLRESYNC") ≡ true
unfolding trim_space trim_left is_space has_prefix
sync_line_kept s =
    rw
      (trim_right-append is_space (codes "+FULLRESYNC") s
        (refl, (refl, (refl, (refl, (refl, (refl, (refl, (refl, (refl, (refl, (refl, tt))))))))))))
      refl

header_trimmed :
    (n : ℕ) → trim_space (codes "$" ++ (format_nat n ++ codes "\r\n")) ≡ codes "$" ++ format_nat n
unfolding trim_space trim_left is_space trim_right
header_trimmed n =
    trim_right-append is_space (codes "$" ++ format_nat n) (codes "\r\n") (refl, digits-Spaceless n)
    ∙ append-nil (codes "$" ++ format_nat n)

lines_apart :
    (a b c r rest : Bytes)
    → (codes "+FULLRESYNC "
          ++ (a
              ++ (codes " " ++ (b ++ (codes "\r\n" ++ (codes "$" ++ (c ++ (codes "\r\n" ++ r))))))))
        ++ rest
      ≡ (codes "+FULLRESYNC " ++ (a ++ (codes " " ++ (b ++ codes "\r"))))
        ++ (10 ∷ ((codes "$" ++ (c ++ codes "\r")) ++ (10 ∷ (r ++ rest))))
lines_apart a b c r rest = simp (append_assoc)

-- the answer as lines, each without its line feed
sync_reply-lines :
    (id : Bytes) (offset : ℤ) (rdb rest : Bytes)
    → sync_reply id offset rdb ++ rest
      ≡ (codes "+FULLRESYNC " ++ sync_line id offset)
        ++ (10
            ∷ ((codes "$" ++ (format_int (pos (length rdb)) ++ codes "\r"))
                ++ (10 ∷ (rdb ++ rest))))
unfolding sync_reply sync_line
sync_reply-lines id offset rdb rest =
    lines_apart id (format_int offset) (format_int (pos (length rdb))) rdb rest

header_line :
    (n : ℕ)
    → trim_space ((codes "$" ++ (format_nat n ++ codes "\r")) ++ (10 ∷ []))
      ≡ codes "$" ++ format_nat n
header_line n =
    ap (λ s. trim_space (codes "$" ++ s)) (append_assoc (format_nat n) (codes "\r") (codes "\n"))
    ∙ header_trimmed n

header_kept :
    (n : ℕ)
    → has_prefix (trim_space ((codes "$" ++ (format_nat n ++ codes "\r")) ++ (10 ∷ []))) (codes "$")
      ≡ true
unfolding has_prefix
header_kept n = ap (λ s. has_prefix s (codes "$")) (header_line n)

find_header :
    (n : ℕ) (body : Bytes)
    → find_line (codes "$") ((codes "$" ++ (format_nat n ++ codes "\r")) ++ (10 ∷ body)) []
      ≡ some (codes "$" ++ format_nat n, body)
find_header n body =
    find_line-append (codes "$") (codes "$" ++ (format_nat n ++ codes "\r")) body []
      (
        ground arith,
        All-append (λ c. c ≢ 10) (format_nat n) (codes "\r") (digits-Lacks n) (ground arith, tt),
      )
      (header_kept n)
    ∙ ap (λ line. some (line, body)) (header_line n)

reply_text-Lacks : Lacks 10 (codes "+FULLRESYNC ")
unfolding lacks
reply_text-Lacks = lacks-Lacks 10 (codes "+FULLRESYNC ") refl

find_sync_line :
    (id : Bytes) (offset : ℤ) (rest : Bytes)
    → Lacks 10 id
    → find_line
        (codes "+FULLRESYNC")
        ((codes "+FULLRESYNC " ++ sync_line id offset) ++ (10 ∷ rest))
        []
      ≡ some (trim_space ((codes "+FULLRESYNC " ++ sync_line id offset) ++ (10 ∷ [])), rest)
find_sync_line id offset rest h =
    find_line-append (codes "+FULLRESYNC") (codes "+FULLRESYNC " ++ sync_line id offset) rest []
      (All-append (λ c. c ≢ 10) (codes "+FULLRESYNC ") (sync_line id offset) reply_text-Lacks
        (sync_line-Lacks id offset h))
      (sync_line_kept (32 ∷ (sync_line id offset ++ (10 ∷ []))))

copy_n-append : (r rest : Bytes) → copy_n (pos (length r)) (r ++ rest) ≡ some rest
unfolding copy_n
copy_n-append r rest = ground (arith, length-append r rest, drop-append r rest)

discard_body-format :
    (r rest : Bytes)
    → length r < 2 ^ 63
    → discard_body (atoi (format_nat (length r))) (r ++ rest) ≡ some rest
unfolding discard_body
discard_body-format r rest b = rw (atoi-format_nat (length r) b) (copy_n-append r rest)

pub discard_rdb_payload-sync_reply :
    (id : Bytes) (offset : ℤ) (rdb rest : Bytes)
    → Lacks 10 id
    → length rdb < 2 ^ 63
    → discard_rdb_payload (sync_reply id offset rdb ++ rest) ≡ some rest
unfolding discard_rdb_payload format_int
discard_rdb_payload-sync_reply id offset rdb rest h b =
    rw
      (
        sync_reply-lines id offset rdb rest,
        find_sync_line id offset
            ((codes "$" ++ (format_nat (length rdb) ++ codes "\r")) ++ (10 ∷ (rdb ++ rest))) h,
        find_header (length rdb) (rdb ++ rest),
        discard_rdb_payload,
      )
      (discard_body-format rdb rest b)

-- what a master with no other traffic writes to a replica
abbrev pub master_answers : Bytes → ℤ → Bytes → Bytes
master_answers id offset rdb = codes "+PONG\r\n+OK\r\n+OK\r\n" ++ sync_reply id offset rdb

-- the four requests of a replica
abbrev pub requests : ℤ → Bytes
requests port = ping_request ++ (port_request port ++ (capa_request ++ psync_request))

sync_step-sync_reply :
    (sent id : Bytes) (offset : ℤ) (rdb rest : Bytes)
    → Lacks 10 id
    → length rdb < 2 ^ 63
    → sync_step sent (sync_reply id offset rdb ++ rest) ≡ handed_over sent rest
unfolding sync_step
sync_step-sync_reply sent id offset rdb rest h b =
    rw (discard_rdb_payload-sync_reply id offset rdb rest h b, sync_step) refl

handshake-answers :
    (port : ℤ) (id : Bytes) (offset : ℤ) (rdb rest : Bytes)
    → Lacks 10 id
    → length rdb < 2 ^ 63
    → handshake port (master_answers id offset rdb ++ rest) ≡ handed_over (requests port) rest
unfolding handshake ok_step read_simple_string read_trimmed_line read_to_newline line_break
    trim_right has_prefix str_eq
handshake-answers port id offset rdb rest h b =
    sync_step-sync_reply (requests port) id offset rdb rest h b

-- A replica that is told a host and a port, and whose master answers as psyncCmd does, sends its four
-- requests, and its HandleIncomingStream goes on with exactly the bytes behind the RDB file, whatever
-- they are. Neither part of the address has a blank, the ID of the master has no line feed, and the
-- file is shorter than 2^63 bytes.
pub replica_takes_over :
    (dial : Bytes → Option Bytes) (host number : Bytes) (port : ℤ) (id : Bytes) (offset : ℤ)
    (rdb rest : Bytes)
    → Lacks 32 host
    → Lacks 32 number
    → Lacks 10 id
    → length rdb < 2 ^ 63
    → dial (host ++ codes ":" ++ number) ≡ some (master_answers id offset rdb ++ rest)
    → connect_to_master dial (host ++ 32 ∷ number) port ≡ done (handed_over (requests port) rest)
unfolding connect_to_master
replica_takes_over dial host number port id offset rdb rest lh ln li b e =
    rw (split_pair 32 host number lh ln, connect_to_master)
      (rw (e, connect_parts) (ap done (handshake-answers port id offset rdb rest li b)))
