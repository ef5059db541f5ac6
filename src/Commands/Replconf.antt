-- ===== src/Commands/Replconf.antt =====
-- `replconfCmd` and `psyncCmd` of internal/commands/commands.go. The connection has a number and an
-- address, and a handler on the side of a replica has no MasterNode, so that a use of it is a panic.
pub mod Acknowledge
use redis_in_go.Prelude.{
  ◌++◌, List, [], ◌∷◌, Option, none, some, Outcome, done, panic, if◌then◌else◌, length, ℕ,
}
use redis_in_go.Prelude.Int.{ℤ, pos}
use redis_in_go.Text.{Bytes, codes, str_eq, to_lower}
use redis_in_go.Text.Decimal.{Atoi, parsed, atoi, format_int}
use redis_in_go.Table
use redis_in_go.Commands.Wait.{MasterNode, update_replica_offset}

-- A response goes through SendResponse; other bytes are written to the connection at once.
pub data Output : Type 0 where
  response written : Bytes → Output

abbrev pub Handled : Type 0
Handled = Outcome (List Output × Option MasterNode)

unfoldable pub ack_offset : Bytes → Atoi → Option MasterNode → Handled
ack_offset addr (parsed offset) (some m) = done ([], some (update_replica_offset addr offset m))
ack_offset addr (parsed offset) none = panic
ack_offset addr _ master = done ([], master)

unfoldable pub replconf_ack : Bytes → List Bytes → Option MasterNode → Handled
unfolding ack_offset
replconf_ack addr (_ ∷ offset ∷ _) master = ack_offset addr (atoi offset) master
replconf_ack addr _ master = done ([], master)

unfoldable pub ack_reply : ℤ → Bytes
ack_reply repl_offset =
    codes "*3\r\n$8\r\nreplconf\r\n$3\r\nACK\r\n$"
    ++ (format_int (pos (length (format_int repl_offset)))
        ++ (codes "\r\n" ++ (format_int repl_offset ++ codes "\r\n")))

-- `repl_offset` is MasterReplOffset of internal/info.
unfoldable pub replconf_cmd : Bytes → ℤ → List Bytes → Option MasterNode → Handled
unfolding replconf_ack ack_reply
replconf_cmd addr repl_offset [] master = done ([], master)
replconf_cmd addr repl_offset (sub ∷ args) master =
    let sub_command = to_lower sub in
    if str_eq sub_command (codes "listening-port")
    then done (response (codes "+OK\r\n") ∷ [], master)
    else (if str_eq sub_command (codes "capa")
        then done (response (codes "+OK\r\n") ∷ [], master)
        else (if str_eq sub_command (codes "getack")
            then done (written (ack_reply repl_offset) ∷ [], master)
            else (if str_eq sub_command (codes "ack")
                then replconf_ack addr (sub ∷ args) master
                else done ([], master))))

-- The entry of a replica: a new one has offset 0.
unfoldable pub add_replica : ℕ → Bytes → MasterNode → MasterNode
add_replica conn addr m = elim (Table.get m.replicas addr) [
  | none ↦ record m {
    replicas = Table.put m.replicas addr (record { conn = some conn; offset = pos 0 });
  }
  | some r ↦ record m { replicas = Table.put m.replicas addr (record r { conn = some conn }) }
]

unfoldable pub full_resync : Bytes → ℤ → Bytes
full_resync id offset =
    codes "+FULLRESYNC " ++ (id ++ (codes " " ++ (format_int offset ++ codes "\r\n")))

unfoldable pub rdb_header : Bytes → Bytes
rdb_header rdb = codes "$" ++ (format_int (pos (length rdb)) ++ codes "\r\n")

-- The ID and the offset of internal/info, and the file of GetEmptyRDB.
unfoldable pub psync_cmd : ℕ → Bytes → Bytes → ℤ → Bytes → List Bytes → Option MasterNode → Handled
unfolding add_replica full_resync rdb_header
psync_cmd conn addr id offset rdb (_ ∷ _ ∷ _) (some m) = done (
  response (full_resync id offset) ∷ response (rdb_header rdb) ∷ written rdb ∷ [],
  some (add_replica conn addr m),
)
psync_cmd conn addr id offset rdb (_ ∷ _ ∷ _) none = panic
psync_cmd conn addr id offset rdb _ master = done ([], master)
