-- ===== src/Commands/Replconf/Acknowledge.antt =====
-- The answer of a replica to GETACK, as its master takes it.
use redis_in_go.Prelude.{
  ℕ, zero, suc, ◌+◌, ◌/◌, ◌%◌, append-nil, append_assoc, ◌≤◌, ◌<◌, ◌^◌, ◌≡◌, ap, ◌++◌, [], ◌∷◌,
  some, none, Option, done, arith, ltb, if◌then◌else◌, false, refl, ◌∙◌, Option-cases, inl, inr,
  length, length-append, ltb→lt, lt→ltb,
}
use redis_in_go.Prelude.Int.{ℤ, pos, negsuc, IsInt64}
use redis_in_go.Text.{Bytes, codes, str_eq, str_eq_refl, to_lower}
use redis_in_go.Text.Decimal.{print, format_nat, format_int}
use redis_in_go.Text.DecimalRoundTrip.{atoi-format_int}
use redis_in_go.Resp.{parse_command, ok, bulk, bulks, array_header, format_propagated_command}
use redis_in_go.Resp.RoundTrip.{parse_command-format, length-bulk, length-command}
use redis_in_go.Table
use redis_in_go.Commands.Wait.{
  MasterNode, ReplicaInfo, set_offset, signal_ack, update_replica_offset,
}
use redis_in_go.Commands.Replconf.{ack_reply, ack_offset, replconf_ack, replconf_cmd}

length-print : (fuel n : ℕ) (out : Bytes) → length (print fuel n out) ≤ n / 2 + 1 + length out
unfolding print
length-print zero n out = omega arith
length-print (suc fuel) n out =
    ground (arith, ltb→lt n 10, lt→ltb n 10, length-print fuel (n / 10) ((b'0' + n % 10) ∷ out))

length-format_int : (z : ℤ) → IsInt64 z → length (format_int z) ≤ 2 ^ 62 + 2
unfolding format_int format_nat
length-format_int (pos n) h = omega (arith, length-print (suc n) n [])
length-format_int (negsuc n) h = omega (arith, length-print (suc (suc n)) (suc n) [])

length-format_nat : (n : ℕ) → length (format_nat n) ≤ n / 2 + 1
unfolding format_nat
length-format_nat n = omega (arith, length-print (suc n) n [])

ack_reply-format :
    (offset : ℤ)
    → ack_reply offset
      ≡ format_propagated_command (codes "replconf") (codes "ACK" ∷ format_int offset ∷ [])
unfolding ack_reply format_propagated_command bulks bulk array_header format_int
ack_reply-format offset = simp (append_assoc, append-nil)

length-bulk_le : (s : Bytes) → length (bulk s) ≤ length s / 2 + length s + 6
length-bulk_le s = omega (arith, length-bulk s, length-format_nat (length s))

ack_is_short :
    (offset : ℤ)
    → IsInt64 offset
    → length (format_propagated_command (codes "replconf") (codes "ACK" ∷ format_int offset ∷ []))
      < 2 ^ 63
unfolding bulks
ack_is_short offset h =
    rw
      (
        length-command (codes "replconf") (codes "ACK" ∷ format_int offset ∷ []),
        length-append (bulk (codes "replconf"))
            (bulk (codes "ACK") ++ (bulk (format_int offset) ++ [])),
        length-append (bulk (codes "ACK")) (bulk (format_int offset) ++ []),
        append-nil (bulk (format_int offset)),
      )
      (omega (
        arith,
        length-bulk_le (codes "replconf"),
        length-bulk_le (codes "ACK"),
        length-bulk_le (format_int offset),
        length-format_nat 3,
        length-format_int offset h,
      ))

ack_reply_parsed :
    (rest : Bytes) (offset : ℤ)
    → IsInt64 offset
    → parse_command (ack_reply offset ++ rest)
      ≡ ok (codes "replconf" ∷ codes "ACK" ∷ format_int offset ∷ [], length (ack_reply offset))
ack_reply_parsed rest offset h = rw (ack_reply-format offset) (
    parse_command-format (codes "replconf") (codes "ACK" ∷ format_int offset ∷ []) rest
      (omega arith) (ack_is_short offset h))

ack_handled :
    (addr : Bytes) (offset own : ℤ) (m : MasterNode)
    → IsInt64 offset
    → replconf_cmd addr own (codes "ACK" ∷ format_int offset ∷ []) (some m)
      ≡ done ([], some (update_replica_offset addr offset m))
unfolding replconf_cmd replconf_ack ack_offset to_lower str_eq
ack_handled addr offset own m h = ap (λ a. ack_offset addr a (some m)) (atoi-format_int offset h)

-- What a master has after an acknowledgement: the replica of this address, if it is known, has the
-- offset, the others are as before, and AckChan has one signal more, up to the 100 that it holds.
pub record Acknowledged (addr : Bytes) (offset : ℤ) (m m' : MasterNode) : Type 0 where
  pub known :
      (r : ReplicaInfo)
      → Table.get m.replicas addr ≡ some r
      → Table.get m'.replicas addr ≡ some (record { conn = r.conn; offset = offset })
  pub unknown : Table.get m.replicas addr ≡ none → Table.get m'.replicas addr ≡ none
  pub others :
      (other : Bytes)
      → str_eq addr other ≡ false
      → Table.get m'.replicas other ≡ Table.get m.replicas other
  pub signalled : m.ack_chan < 100 → m'.ack_chan ≡ m.ack_chan + 1
  pub full : 100 ≤ m.ack_chan → m'.ack_chan ≡ m.ack_chan
  pub global_kept : m'.global_offset ≡ m.global_offset

signal_ack-ack_chan :
    (m : MasterNode)
    → (signal_ack m).ack_chan ≡ (if ltb m.ack_chan 100 then m.ack_chan + 1 else m.ack_chan)
unfolding signal_ack
signal_ack-ack_chan m = ground arith

signal_ack-replicas : (m : MasterNode) → (signal_ack m).replicas ≡ m.replicas
unfolding signal_ack
signal_ack-replicas m = ground arith

signal_ack-global_offset : (m : MasterNode) → (signal_ack m).global_offset ≡ m.global_offset
unfolding signal_ack
signal_ack-global_offset m = ground arith

set_offset-replicas :
    (id other : Bytes) (offset : ℤ) (m : MasterNode) (found : Option ReplicaInfo)
    → Table.get m.replicas id ≡ found
    → ((set_offset id offset m).ack_chan ≡ m.ack_chan)
      × ((set_offset id offset m).global_offset ≡ m.global_offset)
      × (Table.get (set_offset id offset m).replicas other ≡ (elim found [
        | none ↦ Table.get m.replicas other
        | some r ↦
            if str_eq id other
            then some (record { conn = r.conn; offset = offset })
            else Table.get m.replicas other
      ]))
unfolding set_offset
set_offset-replicas id other offset m none e = rw (e, set_offset) (refl, refl, refl)
set_offset-replicas id other offset m (some r) e =
    rw (e, set_offset)
      (refl, refl, Table.get-put m.replicas id other (record r { offset = offset }))

update_replica_offset-Acknowledged :
    (addr : Bytes) (offset : ℤ) (m : MasterNode)
    → Acknowledged addr offset m (update_replica_offset addr offset m)
unfolding update_replica_offset
update_replica_offset-Acknowledged addr offset m =
    let m1 = set_offset addr offset m in
    let here = set_offset-replicas addr addr offset m in
    let (chan, kept, _) = here (Table.get m.replicas addr) refl in
    record {
      known = λ r e. rw (signal_ack-replicas m1) ((here (some r) e).2 ∙ rw str_eq_refl);
      unknown = λ e. rw (signal_ack-replicas m1) ((here none e).2 ∙ e);
      others = λ other ne.
          rw (signal_ack-replicas m1) (elim (Option-cases (Table.get m.replicas addr)) [
            | inl e ↦ (set_offset-replicas addr other offset m none e).2
            | inr (r, e) ↦ (set_offset-replicas addr other offset m (some r) e).2 ∙ rw ne
          ]);
      signalled = λ lt. ground (arith, signal_ack-ack_chan m1, chan, lt);
      full = λ le. ground (arith, signal_ack-ack_chan m1, chan, le);
      global_kept = signal_ack-global_offset m1 ∙ kept;
    }

-- The answer of a replica to GETACK is a request that its master parses to REPLCONF with the words ACK
-- and the offset, whatever follows. Handling it writes nothing, sets the offset of that replica if the
-- master knows it, and puts a signal into AckChan unless that holds 100; no other replica changes. The
-- offset is an int64.
pub acknowledgement_arrives :
    (addr rest : Bytes) (offset own : ℤ) (m : MasterNode)
    → IsInt64 offset
    → (parse_command (ack_reply offset ++ rest)
        ≡ ok (codes "replconf" ∷ codes "ACK" ∷ format_int offset ∷ [], length (ack_reply offset)))
      × ((m' : MasterNode) × ((replconf_cmd addr own (codes "ACK" ∷ format_int offset ∷ []) (some m)
              ≡ done ([], some m'))
            × Acknowledged addr offset m m'))
acknowledgement_arrives addr rest offset own m h = (
  ack_reply_parsed rest offset h,
  (
    update_replica_offset addr offset m,
    (ack_handled addr offset own m h, update_replica_offset-Acknowledged addr offset m),
  ),
)
