-- ===== src/Commands/Wait.antt =====
-- The master's side of the acknowledgements in internal/commands/commands.go: MasterNode, REPLCONF ACK and
-- WAIT. A connection is a number. WAIT is cut where it waits in its select.
pub mod Wakeups
use redis_in_go.Prelude.{
  ℕ, zero, suc, ◌-◌, Bool, true, false, ◌||◌, List, [], ◌∷◌, Option, none, some, Outcome, done,
  panic, ltb, ◌==◌, if◌then◌else◌, length,
}
use redis_in_go.Prelude.Int.{ℤ, pos, leb_ℤ, eqb_ℤ, wrap_int, ◌+ℤ◌}
use redis_in_go.Text.{Bytes, codes}
use redis_in_go.Text.Decimal.{Atoi, parsed, syntax_error, range_error, atoi}
use redis_in_go.Table
use redis_in_go.Table.{Table, empty}

pub record ReplicaInfo : Type 0 where
  pub conn : Option ℕ
  pub offset : ℤ

-- `ack_chan` is the number of signals in AckChan.
pub record MasterNode : Type 0 where
  pub global_offset : ℤ
  pub replicas : Table ReplicaInfo
  pub ack_chan : ℕ

unfoldable pub init_master_node : MasterNode
init_master_node = record { global_offset = pos 0; replicas = empty; ack_chan = 0 }

unfoldable pub add_global_offset : ℤ → MasterNode → MasterNode
add_global_offset offset m = record m { global_offset = wrap_int (m.global_offset +ℤ offset) }

unfoldable pub count_synced : ℤ → Table ReplicaInfo → ℕ
count_synced target [] = 0
count_synced target ((_, r) ∷ rs) =
    let rest = count_synced target rs in if leb_ℤ target r.offset then suc rest else rest

unfoldable pub count_synced_replicas : ℤ → MasterNode → ℕ
unfolding count_synced
count_synced_replicas target m = count_synced target m.replicas

-- UpdateReplicaOffset under its lock, and the signal behind it
unfoldable pub set_offset : Bytes → ℤ → MasterNode → MasterNode
set_offset id offset m = elim (Table.get m.replicas id) [
  | none ↦ m
  | some r ↦ record m { replicas = Table.put m.replicas id (record r { offset = offset }) }
]

unfoldable pub signal_ack : MasterNode → MasterNode
signal_ack m = if ltb m.ack_chan 100 then record m { ack_chan = suc m.ack_chan } else m

unfoldable pub update_replica_offset : Bytes → ℤ → MasterNode → MasterNode
unfolding set_offset signal_ack
update_replica_offset id offset m = signal_ack (set_offset id offset m)

unfoldable pub get_ack_cmd : Bytes
get_ack_cmd = codes "*3\r\n$8\r\nREPLCONF\r\n$6\r\nGETACK\r\n$1\r\n*\r\n"

-- What is written, with the connection that it is written to.
unfoldable pub send_get_ack : Table ReplicaInfo → List (ℕ × Bytes)
unfolding get_ack_cmd
send_get_ack [] = []
send_get_ack ((_, r) ∷ rs) = elim r.conn [
  | none ↦ send_get_ack rs
  | some c ↦ (c, get_ack_cmd) ∷ send_get_ack rs
]

unfoldable pub broadcast_get_ack : MasterNode → List (ℕ × Bytes)
unfolding send_get_ack
broadcast_get_ack m = send_get_ack m.replicas

-- How WAIT goes on: no reply, an integer, or the loop for so many replicas at an offset.
pub data Waiting : Type 0 where
  no_reply : Waiting
  replied : ℤ → Waiting
  in_loop : ℤ → ℤ → Waiting

-- The part of waitCmd from the first lock to the loop, with what is written. The replicas are counted
-- twice, under a lock each: `m`, `tested` and `counted` are the master at the first lock, at the test
-- and for the reply.
unfoldable pub start_wait : ℤ → MasterNode → MasterNode → MasterNode → List (ℕ × Bytes) × Waiting
unfolding count_synced_replicas broadcast_get_ack
start_wait number m tested counted =
    let target = m.global_offset in
    let count = pos (count_synced_replicas target m) in
    if eqb_ℤ target (pos 0) || (length m.replicas == 0 || eqb_ℤ number (pos 0))
    then ([], replied count)
    else (
      broadcast_get_ack m,
      if leb_ℤ number (pos (count_synced_replicas target tested))
          then replied (pos (count_synced_replicas target counted))
          else in_loop target number,
    )

-- A handler without a MasterNode panics where it locks it.
unfoldable pub wait_numbers :
    Atoi → Atoi → Option MasterNode → MasterNode → MasterNode → Outcome (List (ℕ × Bytes) × Waiting)
unfolding start_wait
wait_numbers (parsed number) (parsed timeout) (some m) tested counted =
    done (start_wait number m tested counted)
wait_numbers (parsed number) (parsed timeout) none tested counted = panic
wait_numbers _ _ master tested counted = done ([], no_reply)

unfoldable pub wait_cmd :
    List Bytes → Option MasterNode → MasterNode → MasterNode → Outcome (List (ℕ × Bytes) × Waiting)
unfolding wait_numbers
wait_cmd (number ∷ timeout ∷ _) master tested counted =
    wait_numbers (atoi number) (atoi timeout) master tested counted
wait_cmd _ master tested counted = done ([], no_reply)

-- The test at the head of the loop, and the arm of the select for a timeout.
unfoldable pub wait_round : ℤ → ℤ → MasterNode → Option ℤ
unfolding count_synced_replicas
wait_round target number m =
    if leb_ℤ number (pos (count_synced_replicas target m)) then some number else none

unfoldable pub wait_timeout : ℤ → MasterNode → ℤ
unfolding count_synced_replicas
wait_timeout target m = pos (count_synced_replicas target m)
