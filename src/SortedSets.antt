-- ===== src/SortedSets.antt =====
-- The sorted sets of internal/store/store.go, and the handlers of internal/commands/commands.go on top
-- of them. The map holds SkipList values: a copy shares the nodes and the dictionary with the original,
-- while its length is its own.
use redis_in_go.Prelude.{
  ℕ, zero, suc, ◌+◌, ◌-◌, Bool, List, [], ◌∷◌, ◌++◌, Option, none, some, Outcome, done, panic,
  ◌>>=◌, if◌then◌else◌, length,
}
use redis_in_go.Prelude.Int.{ℤ, pos, pos_part, ltb_ℤ, leb_ℤ}
use redis_in_go.Text.{Bytes, codes}
use redis_in_go.Text.Decimal.{Atoi, parsed, syntax_error, range_error, atoi}
use redis_in_go.Resp.{array_header, bulk}
use redis_in_go.Table
use redis_in_go.Table.{Table}
use redis_in_go.SkipList
use redis_in_go.SkipList.{
  Node, SkipList, new_skip_list, insert_element, remove_element_by_name, find_element_rank,
  get_element, link_at, add_int, sub_int,
}
use redis_in_go.SkipList.Float.{Float64}
use redis_in_go.Commands.World.{integer_reply, null_bulk, concat}
pub mod Laws
pub mod Ranges

abbrev pub Sets : Type 0
Sets = Table SkipList

unfoldable pub set_or_new : Option SkipList → SkipList
set_or_new none = new_skip_list
set_or_new (some sl) = sl

unfoldable pub zadd : List Bool → Bytes → Bytes → Float64 → Sets → Outcome (ℤ × Sets)
unfolding set_or_new
zadd coins set_name member score sets = do
  let sl = set_or_new (Table.get sets set_name)
  sl' ← insert_element coins member score sl
  done (sub_int sl'.length sl.length, Table.put sets set_name sl')

-- The nodes and the dictionary are shared, so that the set in the map changes, all but its length.
unfoldable pub zrem_from : Bytes → Bytes → SkipList → Sets → Outcome (ℤ × Sets)
zrem_from set_name member sl sets = elim (Table.get sl.dictionary member) [
  | none ↦ done (pos 0, sets)
  | some a ↦ (do
    sl' ← remove_element_by_name member sl
    done (pos 1, Table.put sets set_name (record sl' { length = sl.length })))
]

unfoldable pub zrem : Bytes → Bytes → Sets → Outcome (ℤ × Sets)
unfolding zrem_from
zrem set_name member sets = elim (Table.get sets set_name) [
  | none ↦ done (pos 0, sets)
  | some sl ↦ zrem_from set_name member sl sets
]

unfoldable pub zcard : Bytes → Sets → ℤ
zcard set_name sets = elim (Table.get sets set_name) [ none ↦ pos 0 | some sl ↦ sl.length ]

score_in : Bytes → SkipList → Option Float64
score_in member sl = elim (Table.get sl.dictionary member) [
  | none ↦ none
  | some a ↦ some ((sl.nodes a).score)
]

unfoldable pub zscore : Bytes → Bytes → Sets → Option Float64
unfolding score_in
zscore set_name member sets = elim (Table.get sets set_name) [
  | none ↦ none
  | some sl ↦ score_in member sl
]

rank_in : Bytes → SkipList → Outcome (Option ℤ)
rank_in member sl = elim (Table.get sl.dictionary member) [
  | none ↦ done none
  | some a ↦ (do rank ← find_element_rank member sl; done (some rank))
]

-- `none` is an error
unfoldable pub zrank : Bytes → Bytes → Sets → Outcome (Option ℤ)
unfolding rank_in
zrank set_name member sets = elim (Table.get sets set_name) [
  | none ↦ done none
  | some sl ↦ rank_in member sl
]

-- the loop of `ZRange`, over `count` elements from `curr` on
unfoldable pub collect_members : ℕ → (ℕ → Node) → Option ℕ → Outcome (List Bytes)
collect_members zero nodes curr = done []
collect_members (suc count) nodes none = done []
collect_members (suc count) nodes (some a) = do
  l ← link_at (nodes a) 0
  rest ← collect_members count nodes l.forward
  done ((nodes a).member ∷ rest)

-- an index below 0 is one from the end
unfoldable pub index_from_end : ℤ → ℤ → ℤ
index_from_end length i = if ltb_ℤ i (pos 0) then pos (pos_part (add_int length i)) else i

unfoldable pub range_in : ℤ → ℤ → SkipList → Outcome (List Bytes)
unfolding collect_members
range_in start stop sl =
    if ltb_ℤ stop start then done [] else if leb_ℤ sl.length start then done [] else (do
      let stop' = if ltb_ℤ sl.length stop then sub_int sl.length (pos 1) else stop
      curr ← get_element start sl
      collect_members (suc (pos_part (sub_int stop' start))) sl.nodes curr)

unfoldable pub zrange : Bytes → ℤ → ℤ → Sets → Outcome (List Bytes)
unfolding range_in index_from_end
zrange set_name start stop sets = elim (Table.get sets set_name) [
  | none ↦ done []
  | some sl ↦ range_in (index_from_end sl.length start) (index_from_end sl.length stop) sl
]

-- The handlers, with the responses that they send. `strconv.ParseFloat` and `strconv.FormatFloat` are
-- the arguments `parse_float`, where `none` is an error, and `format_float`.
abbrev pub SetReply : Type 0
SetReply = Outcome (List Bytes × Sets)

added_reply : ℤ × Sets → SetReply
added_reply (n, sets) = done (integer_reply n ∷ [], sets)

unfoldable pub zadd_cmd : (Bytes → Option Float64) → List Bool → List Bytes → Sets → SetReply
unfolding added_reply
zadd_cmd parse_float coins (set_name ∷ score ∷ []) sets = elim (parse_float score) [
  | none ↦ done ([], sets)
  | some x ↦ panic
]
zadd_cmd parse_float coins (set_name ∷ score ∷ member ∷ _) sets = elim (parse_float score) [
  | none ↦ done ([], sets)
  | some x ↦ zadd coins set_name member x sets >>= added_reply
]
zadd_cmd parse_float coins _ sets = panic

unfoldable pub zrem_cmd : List Bytes → Sets → SetReply
unfolding added_reply
zrem_cmd (set_name ∷ member ∷ _) sets = zrem set_name member sets >>= added_reply
zrem_cmd _ sets = panic

unfoldable pub zcard_cmd : List Bytes → Sets → SetReply
zcard_cmd [] sets = panic
zcard_cmd (set_name ∷ _) sets = done (integer_reply (zcard set_name sets) ∷ [], sets)

score_reply : (Float64 → Bytes) → Option Float64 → Bytes
score_reply format_float none = null_bulk
score_reply format_float (some x) = bulk (format_float x)

unfoldable pub zscore_cmd : (Float64 → Bytes) → List Bytes → Sets → SetReply
unfolding score_reply
zscore_cmd format_float (set_name ∷ member ∷ _) sets =
    done (score_reply format_float (zscore set_name member sets) ∷ [], sets)
zscore_cmd format_float _ sets = panic

rank_reply : Option ℤ → Bytes
rank_reply none = null_bulk
rank_reply (some rank) = integer_reply rank

unfoldable pub zrank_cmd : List Bytes → Sets → SetReply
unfolding rank_reply
zrank_cmd (set_name ∷ member ∷ _) sets = do
  rank ← zrank set_name member sets
  done (rank_reply rank ∷ [], sets)
zrank_cmd _ sets = panic

bulk_list : List Bytes → List Bytes
bulk_list [] = []
bulk_list (s ∷ ss) = bulk s ∷ bulk_list ss

range_answer : Bytes → ℤ → ℤ → Sets → SetReply
range_answer set_name start stop sets = do
  elements ← zrange set_name start stop sets
  done ((array_header (length elements) ++ concat (bulk_list elements)) ∷ [], sets)

-- An index that is no number ends the handler without a reply, before the next one is looked at.
range_from : Bytes → ℤ → List Bytes → Sets → SetReply
range_from set_name start [] sets = panic
range_from set_name start (stop ∷ _) sets = elim (atoi stop) [
  | parsed n ↦ range_answer set_name start n sets
  | syntax_error ↦ done ([], sets)
  | range_error n ↦ done ([], sets)
]

unfoldable pub zrange_cmd : List Bytes → Sets → SetReply
unfolding range_from range_answer bulk_list
zrange_cmd (set_name ∷ start ∷ rest) sets = elim (atoi start) [
  | parsed n ↦ range_from set_name n rest sets
  | syntax_error ↦ done ([], sets)
  | range_error n ↦ done ([], sets)
]
zrange_cmd _ sets = panic
