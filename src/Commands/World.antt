-- ===== src/Commands/World.antt =====
-- What the command handlers of internal/commands/commands.go act on, `HandleModifyingCmd` with
-- `PropagateToReplicas` and `FlushWriteCmdsToAOF`, and the texts of the replies.
use redis_in_go.Prelude.{
  ◌≡◌, refl, append_assoc, ℕ, ◌+◌, Bool, List, [], ◌∷◌, ◌++◌, if◌then◌else◌, length,
}
use redis_in_go.Prelude.Int.{ℤ, pos, ◌+ℤ◌, wrap_int}
use redis_in_go.Text.{Bytes, codes, to_upper}
use redis_in_go.Text.Decimal.{format_int}
use redis_in_go.Resp.{crlf, bulk, bulks, array_header, format_propagated_command}
use redis_in_go.Store.{Store}

-- The clock is read `ticks` times so far; a reading is in nanoseconds. `replicated` is what was
-- written to each connected replica. `aof_file` is the content of the active incremental file, and
-- `aof_opens` tells whether `GetActiveIncrementalFile` opens it. `aof_buffer` is the handler's own.
pub record World : Type 0 where
  pub store : Store
  pub clock : ℕ → ℕ
  pub ticks : ℕ
  pub is_master : Bool
  pub replicated : Bytes
  pub global_offset : ℤ
  pub aof_opens : Bool
  pub aof_file : Bytes
  pub aof_buffer : List Bytes

abbrev pub with_store : Store → World → World
with_store s w = record w { store = s }

unfoldable pub propagate_to_replicas : Bytes → List Bytes → World → World
propagate_to_replicas cmd args w =
    let formated = format_propagated_command cmd args in
    record w {
      replicated = w.replicated ++ formated;
      global_offset = wrap_int (w.global_offset +ℤ pos (length formated));
    }

unfoldable pub concat : List Bytes → Bytes
concat [] = []
concat (s ∷ ss) = s ++ concat ss

-- a file that does not open leaves the buffer as it is
unfoldable pub flush_write_cmds_to_aof : World → World
unfolding concat
flush_write_cmds_to_aof w =
    if w.aof_opens
    then record w { aof_file = w.aof_file ++ concat w.aof_buffer; aof_buffer = [] }
    else w

-- fmt.Sprintf("$%d\r\n%s\r\n", len(cmd), strings.ToUpper(cmd)) behind the array header, and the rest
unfoldable pub aof_line : Bytes → List Bytes → Bytes
aof_line cmd args = array_header (length args + 1) ++ (bulk (to_upper cmd) ++ bulks args)

unfoldable pub handle_modifying_cmd : Bytes → List Bytes → World → World
unfolding propagate_to_replicas flush_write_cmds_to_aof
handle_modifying_cmd cmd args w =
    let w' = if w.is_master then propagate_to_replicas cmd args w else w in
    flush_write_cmds_to_aof (record w' { aof_buffer = w'.aof_buffer ++ aof_line cmd args ∷ [] })

-- fmt.Sprintf(":%d\r\n", n)
unfoldable pub integer_reply : ℤ → Bytes
integer_reply n = b':' ∷ (format_int n ++ crlf)

abbrev pub ok_reply : Bytes
ok_reply = codes "+OK\r\n"

abbrev pub null_array : Bytes
null_array = codes "*-1\r\n"

abbrev pub null_bulk : Bytes
null_bulk = codes "$-1\r\n"

abbrev pub empty_array : Bytes
empty_array = codes "*0\r\n"

abbrev pub not_integer_reply : Bytes
not_integer_reply = codes "-ERR value is not an integer or out of range\r\n"

pub concat-append : (ss ts : List Bytes) → concat (ss ++ ts) ≡ concat ss ++ concat ts
unfolding concat
concat-append [] ts = refl
concat-append (s ∷ ss) ts = rw (concat-append ss ts, append_assoc) refl
