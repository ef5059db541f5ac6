-- ===== src/Examples/Streams.antt =====
-- Inputs for the laws of the stream commands.
use redis_in_go.Prelude.{ℕ, ◌≡◌, refl, [], ◌∷◌, ◌++◌, arith, inl, done, map}
use redis_in_go.Prelude.Int.{pos, ◌+ℤ◌, wrap_int}
use redis_in_go.Text.{codes, str_eq, split}
use redis_in_go.Text.Decimal.{format_int, atoi}
use redis_in_go.Table
use redis_in_go.Store.{
  Store, StreamEntry, init, entries_at, xadd, xrange, added, refused, not_greater,
  resolve_stream_id, stream_id, convert_id, last_id, search_id, collect_between, range_entry,
  flat_values, id_less, id_equal, range_end,
}
use redis_in_go.Store.RangeLaws.{xrange-between}
use redis_in_go.Store.StreamLaws.{Chain, xadd_increasing}

abbrev first_entry : StreamEntry
first_entry = record { id = codes "5-1"; values = (codes "t", codes "21") ∷ [] }

abbrev one_entry : Store
one_entry = record init { streams = (codes "s", record { entries = first_entry ∷ [] }) ∷ [] }

one_entry-Chain : Chain 0 0 (entries_at (codes "s") one_entry) 5 1
unfolding Table.get str_eq stream_id format_int
one_entry-Chain = (5, 1, refl, omega arith, omega arith, inl (omega arith), (refl, refl))

next_added : (xadd (pos 9) (codes "s") (codes "5-*") [] one_entry).0 ≡ added (codes "5-2")
unfolding xadd Table.get str_eq stream_id format_int resolve_stream_id convert_id split atoi ◌+ℤ◌
    wrap_int last_id
next_added = refl

xadd_increasing_example :
    (entries_at (codes "s") (xadd (pos 9) (codes "s") (codes "5-*") [] one_entry).1
      ≡ entries_at (codes "s") one_entry ++ record { id = codes "5-2"; values = [] } ∷ [])
    × ((m : ℕ) × (n : ℕ) × Chain 0 0
          (entries_at (codes "s") (xadd (pos 9) (codes "s") (codes "5-*") [] one_entry).1)
          m
          n)
xadd_increasing_example =
    xadd_increasing 9 5 1 (codes "s") (codes "5-*") (codes "5-2") [] one_entry (omega arith)
      (omega arith) one_entry-Chain next_added

same_refused : (xadd (pos 9) (codes "s") (codes "5-1") [] one_entry).0 ≡ refused not_greater
unfolding xadd Table.get str_eq stream_id format_int resolve_stream_id convert_id split atoi ◌+ℤ◌
    wrap_int last_id
same_refused = refl

whole_range :
    xrange (codes "s") (codes "-") (codes "+") one_entry
    ≡ done (record { id = codes "5-1"; values = codes "t" ∷ codes "21" ∷ [] } ∷ [])
unfolding xrange Table.get str_eq convert_id split atoi last_id search_id collect_between
    range_entry flat_values id_less id_equal range_end
whole_range = refl

-- a stream with the IDs 1-1, 5-1, 7-2 and 9-1
abbrev entry_1 : StreamEntry
entry_1 = record { id = codes "1-1"; values = [] }

abbrev entry_7 : StreamEntry
entry_7 = record { id = codes "7-2"; values = (codes "t", codes "22") ∷ [] }

abbrev entry_9 : StreamEntry
entry_9 = record { id = codes "9-1"; values = [] }

abbrev four_entries : Store
four_entries = record init {
  streams = (codes "s", record { entries = entry_1 ∷ first_entry ∷ entry_7 ∷ entry_9 ∷ [] }) ∷ [];
}

xrange-between_example :
    xrange (codes "s") (codes "2-0") (codes "7-2") four_entries
    ≡ done (map range_entry (first_entry ∷ entry_7 ∷ []))
unfolding Table.get str_eq id_less id_equal convert_id split atoi
xrange-between_example =
    xrange-between (codes "s") (codes "2-0") (codes "7-2") four_entries (entry_1 ∷ [])
      (first_entry ∷ []) (entry_7 ∷ []) (entry_9 ∷ []) refl refl refl (refl, tt)
      (refl, (refl, (refl, tt))) (refl, (refl, tt)) (refl, refl, (refl, tt))
