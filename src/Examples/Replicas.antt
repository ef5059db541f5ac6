-- ===== src/Examples/Replicas.antt =====
-- Concrete inputs for internal/replica/replica.go.
use redis_in_go.Prelude.{
  ◌≡◌, refl, ◌++◌, Option, none, some, length, [], ◌∷◌, arith, done, if◌then◌else◌,
}
use redis_in_go.Prelude.Int.{pos}
use redis_in_go.Text.{Bytes, codes, str_eq}
use redis_in_go.Text.Scan.{lacks, lacks-Lacks}
use redis_in_go.Table
use redis_in_go.Commands.Wait.{MasterNode}
use redis_in_go.Text.Decimal.{format_int}
use redis_in_go.Resp.{parse_command, ok}
use redis_in_go.Commands.Replconf.{ack_reply, replconf_cmd}
use redis_in_go.Commands.Replconf.Acknowledge.{Acknowledged, acknowledgement_arrives}
use redis_in_go.Replica.{connect_to_master, handed_over}
use redis_in_go.Replica.Handshake.{master_answers, requests, replica_takes_over}

-- the bytes behind the RDB file
abbrev ping_from_master : Bytes
ping_from_master = codes "*1\r\n$4\r\nPING\r\n"

abbrev answers : Bytes
answers = master_answers (codes "8371b4fb") (pos 0) (codes "REDIS0011") ++ ping_from_master

abbrev dial_local : Bytes → Option Bytes
dial_local address = if str_eq address (codes "localhost:6379") then some answers else none

replica_takes_over_example :
    connect_to_master dial_local (codes "localhost 6379") (pos 6380)
    ≡ done (handed_over (requests (pos 6380)) ping_from_master)
unfolding lacks str_eq
replica_takes_over_example =
    replica_takes_over dial_local (codes "localhost") (codes "6379") (pos 6380) (codes "8371b4fb")
      (pos 0) (codes "REDIS0011") ping_from_master (lacks-Lacks 32 (codes "localhost") refl)
      (lacks-Lacks 32 (codes "6379") refl) (lacks-Lacks 10 (codes "8371b4fb") refl) (omega arith)
      refl

-- two replicas, of which one acknowledges while a client waits for both
abbrev two_replicas : MasterNode
two_replicas = record {
  global_offset = pos 5;
  replicas =
      (codes "a", record { conn = some 1; offset = pos 0 })
      ∷ (codes "b", record { conn = some 2; offset = pos 0 })
      ∷ [];
  ack_chan = 0;
}

abbrev one_in_step : MasterNode
one_in_step = record two_replicas {
  replicas =
      (codes "a", record { conn = some 1; offset = pos 5 })
      ∷ (codes "b", record { conn = some 2; offset = pos 0 })
      ∷ [];
}

acknowledgement_arrives_example :
    (parse_command (ack_reply (pos 42) ++ ping_from_master)
      ≡ ok (codes "replconf" ∷ codes "ACK" ∷ format_int (pos 42) ∷ [], length (ack_reply (pos 42))))
    × ((m' : MasterNode) × ((replconf_cmd
              (codes "a")
              (pos 0)
              (codes "ACK" ∷ format_int (pos 42) ∷ [])
              (some two_replicas)
            ≡ done ([], some m'))
          × Acknowledged (codes "a") (pos 42) two_replicas m'))
acknowledgement_arrives_example =
    acknowledgement_arrives (codes "a") ping_from_master (pos 42) (pos 0) two_replicas (omega arith)
