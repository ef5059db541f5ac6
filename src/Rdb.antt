-- ===== src/Rdb.antt =====
-- internal/rdbParser/rdbParser.go: the reader of an RDB file, and `loadRDBIntoStore` of app/main.go. The
-- reader keeps `data[pos:]` in place of `data` and `pos`. A byte is a number below 256.
use redis_in_go.Prelude.{
  ℕ, zero, suc, ◌+◌, ◌-◌, ◌*◌, ◌/◌, ◌%◌, ◌^◌, List, [], ◌∷◌, ◌++◌, Option, none, some, Outcome,
  done, panic, blocked, ◌>>=◌, ltb, leb, ◌==◌, if◌then◌else◌, length, take, drop,
}
use redis_in_go.Prelude.Int.{ℤ, pos, negsuc, wrap_int}
use redis_in_go.Text.{Bytes}
use redis_in_go.Text.Decimal.{format_int}
use redis_in_go.Table
use redis_in_go.Table.{Table}
use redis_in_go.Store.{Store, set_with_absolute_expiry}
pub mod Encode
mod Strings
mod Rounds
pub mod Loop
pub mod RoundTrip
pub mod Restore

pub record RdbEntry : Type 0 where
  pub key : Bytes
  pub value : Bytes
  pub expire_at : ℤ

-- the numbers that binary.LittleEndian and binary.BigEndian read
unfoldable pub little_endian_value : Bytes → ℕ
little_endian_value [] = 0
little_endian_value (b ∷ bytes) = b + 256 * little_endian_value bytes

unfoldable pub big_endian_value : ℕ → Bytes → ℕ
big_endian_value high [] = high
big_endian_value high (b ∷ bytes) = big_endian_value (high * 256 + b) bytes

-- the second byte of a 14-bit length; `high` is the first one without its two top bits
unfoldable pub read_14_bit : ℕ → Bytes → Outcome (ℕ × Bytes)
read_14_bit high [] = panic
read_14_bit high (next ∷ rest) = done (high * 256 + next, rest)

-- int8, int16 and int32 of an unsigned number of `bits` bits
unfoldable pub signed : ℕ → ℕ → ℤ
signed bits n = if ltb n (2 ^ (bits - 1)) then pos n else negsuc (2 ^ bits - n - 1)

-- The map, and the type of the value that the reader does not support, if it met one.
abbrev pub RdbResult : Type 0
RdbResult = Table RdbEntry × Option ℕ

-- What one round of the loop leads to.
pub data Round : Type 0 where
  stop : RdbResult → Round
  next : Table RdbEntry → ℤ → Bytes → Round

-- A slice may reach behind the end of the file, up to the capacity of the buffer of os.ReadFile: `spare`
-- is what the buffer holds there. An index, and a slice that goes further, is a panic. A slice that has
-- gone behind the end leaves no byte: the next index is a panic, and the loop ends.
module _ (spare : Bytes) where
  -- data[pos:pos+n]
  unfoldable pub take_bytes : ℕ → Bytes → Outcome (Bytes × Bytes)
  take_bytes n buf =
      if leb n (length buf + length spare) then done (take n (buf ++ spare), drop n buf) else panic

  unfoldable pub little_endian : ℕ → Bytes → Outcome (ℕ × Bytes)
  unfolding take_bytes little_endian_value
  little_endian n buf = do (bytes, rest) ← take_bytes n buf; done (little_endian_value bytes, rest)

  unfoldable pub big_endian_uint32 : Bytes → Outcome (ℕ × Bytes)
  unfolding take_bytes big_endian_value
  big_endian_uint32 buf = do (bytes, rest) ← take_bytes 4 buf; done (big_endian_value 0 bytes, rest)

  unfoldable pub read_length : Bytes → Outcome (ℕ × Bytes)
  unfolding read_14_bit big_endian_uint32
  read_length [] = panic
  read_length (b ∷ rest) =
      if b / 64 == 0
      then done (b % 64, rest)
      else if b / 64 == 1
      then read_14_bit (b % 64) rest
      else if b / 64 == 2
      then big_endian_uint32 rest
      else done (b, rest)

  read_number : ℕ → Bytes → Outcome (Bytes × Bytes)
  unfolding little_endian signed
  read_number bytes buf = do
    (n, rest) ← little_endian bytes buf
    done (format_int (signed (8 * bytes) n), rest)

  -- An LZF compressed string is a panic.
  read_special : ℕ → Bytes → Outcome (Bytes × Bytes)
  unfolding read_number
  read_special kind buf =
      if kind == 0
      then read_number 1 buf
      else if kind == 1
      then read_number 2 buf
      else if kind == 2
      then read_number 4 buf
      else panic

  unfoldable pub read_plain : Bytes → Outcome (Bytes × Bytes)
  unfolding read_length take_bytes
  read_plain buf = do (n, rest) ← read_length buf; take_bytes n rest

  unfoldable pub read_string : Bytes → Outcome (Bytes × Bytes)
  unfolding read_special read_plain
  read_string [] = panic
  read_string (b ∷ rest) = if b / 64 == 3 then read_special (b % 64) rest else read_plain (b ∷ rest)

  read_value : ℕ → Table RdbEntry → ℤ → Bytes → Bytes → Outcome Round
  read_value op result pending key buf =
      if op == 0
      then (do
        (val, rest) ← read_string buf
        done (
            next (Table.put result key (record { key = key; value = val; expire_at = pending }))
              (pos 0) rest))
      else done (stop (result, some op))

  unfoldable pub read_op : ℕ → Table RdbEntry → ℤ → Bytes → Outcome Round
  unfolding read_value
  read_op op result pending buf =
      if op == 0xFF
      then done (stop (result, none))
      else if op == 0xFE
      then (do (_, rest) ← read_length buf; done (next result pending rest))
      else if op == 0xFB
      then (do
        (_, rest) ← read_length buf
        (_, rest') ← read_length rest
        done (next result pending rest'))
      else if op == 0xFA
      then (do
        (_, rest) ← read_string buf
        (_, rest') ← read_string rest
        done (next result pending rest'))
      else if op == 0xFD
      then (do
        (secs, rest) ← little_endian 4 buf
        done (next result (wrap_int (pos (secs * 1000))) rest))
      else if op == 0xFC
      then (do (ms, rest) ← little_endian 8 buf; done (next result (wrap_int (pos ms)) rest))
      else (do (key, rest) ← read_string buf; read_value op result pending key rest)

  -- The loop, for at most `fuel` rounds.
  unfoldable pub read_loop : ℕ → Table RdbEntry → ℤ → Bytes → Outcome RdbResult
  unfolding read_op
  read_loop fuel result pending [] = done (result, none)
  read_loop zero result pending (op ∷ buf) = blocked
  read_loop (suc fuel) result pending (op ∷ buf) = read_op op result pending buf >>= λ r. elim r [
    | stop end ↦ done end
    | next result' pending' rest ↦ read_loop fuel result' pending' rest
  ]

  -- `ReadRDBFile` on the content of the file; its header is 9 bytes
  unfoldable pub read_rdb_file : Bytes → Outcome RdbResult
  unfolding read_loop
  read_rdb_file content = let buf = drop 9 content in read_loop (length buf) [] (pos 0) buf

unfoldable pub load_entries : Table RdbEntry → Store → Store
load_entries [] s = s
load_entries ((_, e) ∷ entries) s =
    load_entries entries (set_with_absolute_expiry e.key e.value e.expire_at s)
