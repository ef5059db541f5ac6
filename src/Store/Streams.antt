-- ===== src/Store/Streams.antt =====
-- The stream commands of internal/store/store.go: `XAdd`, `XRange` and `XRead`, with the binary
-- search of Go's `slices.BinarySearchFunc`.
use redis_in_go.Prelude.{
  ℕ, zero, suc, ◌+◌, ◌-◌, ◌/◌, Bool, false, List, [], ◌∷◌, ◌++◌, Option, none, some, Outcome, done,
  panic, ◌>>=◌, ltb, leb, if◌then◌else◌, length, get_elem?,
}
use redis_in_go.Prelude.Int.{ℤ, pos, ltb_ℤ}
use redis_in_go.Text.{Bytes, codes, str_eq}
use redis_in_go.Table
use redis_in_go.Table.{Table}
use redis_in_go.Store.State.{StreamEntry, Stream, Store}
use redis_in_go.Store.Channels.{waiters, try_send, receive, enqueue, make_chan, without_first}
use redis_in_go.Store.StreamIds.{
  Resolved, resolved, invalid_id, zero_id, not_greater, resolve_stream_id, id_less, id_equal,
}

-- the entries under a key; a key that is not there has none
abbrev pub entries_of : Option Stream → List StreamEntry
entries_of none = []
entries_of (some stream) = stream.entries

abbrev pub entries_at : Bytes → Store → List StreamEntry
entries_at key s = entries_of (Table.get s.streams key)

-- stream.Entries[len(stream.Entries)-1].ID, and "" where there is no entry
unfoldable pub last_id : List StreamEntry → Bytes
last_id [] = []
last_id (e ∷ []) = e.id
last_id (e ∷ f ∷ es) = last_id (f ∷ es)

-- the loop over the waiters, after the mutex is released; a full channel is passed over
unfoldable pub notify : List ℕ → Bytes → Store → Store
notify [] final_id s = s
notify (ch ∷ chs) final_id s = notify chs final_id (try_send ch final_id s)

pub data Xadd : Type 0 where
  added : Bytes → Xadd
  refused : Resolved → Xadd

unfoldable pub add_entry : Bytes → Bytes → Table Bytes → Store → Store
add_entry key final_id values s =
    let entry : StreamEntry = record { id = final_id; values = values } in
    notify (waiters key s) final_id (record s {
      streams = Table.put s.streams key (record { entries = entries_at key s ++ entry ∷ [] });
      blocking_clients = Table.put s.blocking_clients key [];
    })

unfoldable pub finish_xadd : Bytes → Table Bytes → Resolved → Store → Xadd × Store
unfolding add_entry
finish_xadd key values (resolved final_id) s = (added final_id, add_entry key final_id values s)
finish_xadd key values invalid_id s = (refused invalid_id, s)
finish_xadd key values zero_id s = (refused zero_id, s)
finish_xadd key values not_greater s = (refused not_greater, s)

-- `now` is time.Now().UnixMilli()
unfoldable pub xadd : ℤ → Bytes → Bytes → Table Bytes → Store → Xadd × Store
unfolding finish_xadd
xadd now key id values s =
    finish_xadd key values (resolve_stream_id now id (last_id (entries_at key s))) s

-- The loop of `slices.BinarySearchFunc` between `i` and `j`: `less` tells whether an element is
-- before the target.
unfoldable pub search_from {ℓ} : {A : Type ℓ} → ℕ → List A → (A → Bool) → ℕ → ℕ → ℕ
search_from zero xs less i j = i
search_from (suc fuel) xs less i j =
    let h = (i + j) / 2 in
    let up = search_from fuel xs less (h + 1) j in
    let down = search_from fuel xs less i h in
    let inside : ℕ = elim (get_elem? xs h) [
      | none ↦ down
      | some x ↦ (if less x then up else down)
    ] in
    if ltb i j then inside else i

-- the index of the first element that is not before the target
unfoldable pub binary_search {ℓ} : {A : Type ℓ} → List A → (A → Bool) → ℕ
unfolding search_from
binary_search xs less = search_from (length xs + 1) xs less 0 (length xs)

-- The index for an ID, and whether that very ID is there.
unfoldable pub search_id : List StreamEntry → Bytes → ℕ × Bool
unfolding binary_search
search_id entries target =
    let i = binary_search entries (λ e. id_less e.id target) in
    (i, elim (get_elem? entries i) [ none ↦ false | some e ↦ id_equal e.id target ])

pub record RangeEntry : Type 0 where
  pub id : Bytes
  pub values : List Bytes

-- keys and values in turn
unfoldable pub flat_values : Table Bytes → List Bytes
flat_values [] = []
flat_values ((k, v) ∷ values) = k ∷ v ∷ flat_values values

unfoldable pub range_entry : StreamEntry → RangeEntry
range_entry e = record { id = e.id; values = flat_values e.values }

-- the loop over stream.Entries[i], for `n` rounds
unfoldable pub collect : ℕ → ℕ → List StreamEntry → List RangeEntry → Outcome (List RangeEntry)
collect zero i entries out = done out
collect (suc n) i entries out = elim (get_elem? entries i) [
  | none ↦ panic
  | some e ↦ collect n (i + 1) entries (out ++ range_entry e ∷ [])
]

-- `make` with a negative capacity panics.
unfoldable pub collect_between : List StreamEntry → ℕ → ℕ → Outcome (List RangeEntry)
unfolding collect
collect_between entries i j = if ltb j i then panic else collect (j - i) i entries []

-- "+" reads the last entry, and panics if there is none
unfoldable pub range_end : List StreamEntry → Bytes → Outcome Bytes
range_end [] end_id = if str_eq end_id (codes "+") then panic else done end_id
range_end (e ∷ es) end_id =
    if str_eq end_id (codes "+") then done (last_id (e ∷ es)) else done end_id

abbrev pub range_start : Bytes → Bytes
range_start start_id = if str_eq start_id (codes "-") then codes "0-1" else start_id

-- the end index is one more where the ID is there, since XRANGE is inclusive
unfoldable pub range_entries : List StreamEntry → Bytes → Bytes → Outcome (List RangeEntry)
range_entries entries start_id end_id = do
  end' ← range_end entries end_id
  let (i, _) = search_id entries (range_start start_id)
  let (j, found) = search_id entries end'
  collect_between entries i (if found then j + 1 else j)

unfoldable pub xrange : Bytes → Bytes → Bytes → Store → Outcome (List RangeEntry)
unfolding range_entries
xrange key start_id end_id s = elim (Table.get s.streams key) [
  | none ↦ done []
  | some stream ↦ range_entries stream.entries start_id end_id
]

pub record ReadEntry : Type 0 where
  pub stream_key : Bytes
  pub values : List RangeEntry

-- "$" stands for the last ID at the time of the call
unfoldable pub start_ids : List (Bytes × Bytes) → Store → List (Bytes × Bytes)
start_ids [] s = []
start_ids ((key, id) ∷ rest) s =
    let last = last_id (entries_at key s) in
    let start =
      if str_eq id (codes "$") then (if str_eq last [] then codes "0-0" else last) else id in
    (key, start) ∷ start_ids rest s

-- The entries of one stream behind an ID; `none` where there are none.
unfoldable pub read_stream : Bytes → Bytes → Store → Outcome (Option ReadEntry)
read_stream key start s =
    let entries = entries_at key s in
    let (i, found) = search_id entries start in
    let i' = if found then i + 1 else i in
    if leb (length entries) i' then done none else do
      values ← collect (length entries - i') i' entries []
      done (some (record { stream_key = key; values = values }))

abbrev add_read : Option ReadEntry → List ReadEntry → List ReadEntry
add_read none out = out
add_read (some r) out = r ∷ out

unfoldable pub collect_entries : List (Bytes × Bytes) → Store → Outcome (List ReadEntry)
collect_entries [] s = done []
collect_entries ((key, start) ∷ rest) s = do
  r ← read_stream key start s
  out ← collect_entries rest s
  done (add_read r out)

pub data Xread : Type 0 where
  read : List ReadEntry → Xread
  no_reply : Xread
  waiting : ℕ → Xread

unfoldable pub enqueue_all : ℕ → List (Bytes × Bytes) → Store → Store
enqueue_all ch [] s = s
enqueue_all ch ((key, _) ∷ rest) s = enqueue_all ch rest (enqueue ch key s)

begin_wait : List (Bytes × Bytes) → ℤ → Store → Xread × Store
unfolding enqueue_all
begin_wait starts block_for_ms s =
    if ltb_ℤ block_for_ms (pos 0)
    then (no_reply, s)
    else (let (ch, s') = make_chan s in (waiting ch, enqueue_all ch starts s'))

after_collect : List (Bytes × Bytes) → ℤ → List ReadEntry → Store → Xread × Store
unfolding begin_wait
after_collect starts block_for_ms [] s = begin_wait starts block_for_ms s
after_collect starts block_for_ms (r ∷ rs) s = (read (r ∷ rs), s)

-- The part of `XRead` in front of the wait; the IDs are those of `start_ids`.
unfoldable pub xread : List (Bytes × Bytes) → ℤ → Store → Outcome (Xread × Store)
unfolding start_ids collect_entries after_collect
xread queries block_for_ms s = do
  let starts = start_ids queries s
  out ← collect_entries starts s
  done (after_collect starts block_for_ms out s)

abbrev leave_queue : Bytes → ℕ → Store → Store
leave_queue key ch s = elim (Table.get s.blocking_clients key) [
  | none ↦ s
  | some q ↦ record s { blocking_clients = Table.put s.blocking_clients key (without_first ch q) }
]

unfoldable pub remove_waiter_from_keys : List (Bytes × Bytes) → ℕ → Store → Store
remove_waiter_from_keys [] ch s = s
remove_waiter_from_keys ((key, _) ∷ rest) ch s =
    remove_waiter_from_keys rest ch (leave_queue key ch s)

-- The arm of `XRead` for a message on its channel.
unfoldable pub xread_wake : List (Bytes × Bytes) → ℕ → Store → Outcome (List ReadEntry × Store)
xread_wake starts ch s = do
  let s' = remove_waiter_from_keys starts ch (receive ch s).1
  out ← collect_entries starts s'
  done (out, s')

-- The arm for the time that is up: a message that has come in between is answered after all.
unfoldable pub xread_timeout :
    List (Bytes × Bytes) → ℕ → Store → Outcome (Option (List ReadEntry) × Store)
xread_timeout starts ch s =
    let (message, s') = receive ch (remove_waiter_from_keys starts ch s) in
    elim message [
      | none ↦ done (none, s')
      | some _ ↦ (do out ← collect_entries starts s'; done (some out, s'))
    ]
