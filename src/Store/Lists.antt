-- ===== src/Store/Lists.antt =====
-- The list commands of internal/store/store.go: `RPush`, `LPush`, `LRange`, `LLen`, `LPop`, `BLPop`
-- and `checkForBlockingClients`. `LRange` and `LPop` return RESP text, as in the source.
use redis_in_go.Prelude.{
  ℕ, zero, suc, ◌+◌, ◌-◌, Bool, true, false, ◌||◌, List, [], ◌∷◌, ◌++◌, Option, none, some, Outcome,
  done, panic, ◌>>=◌, ltb, leb, if◌then◌else◌, length, get_elem?, drop,
}
use redis_in_go.Prelude.Int.{ℤ, pos, negsuc, pos_part, clamp, ◌+ℤ◌, ltb_ℤ}
use redis_in_go.Text.{Bytes, codes}
use redis_in_go.Resp.{bulk, array_header}
use redis_in_go.Table
use redis_in_go.Table.{Table}
use redis_in_go.Store.State.{Store}
use redis_in_go.Store.Channels.{
  send, receive, enqueue, make_chan, set_queue, remove_waiter, waiters,
}

abbrev pub put_list : Bytes → List Bytes → Store → Store
put_list key l s = record s { elements = Table.put s.elements key l }

abbrev pub stored : Bytes → Store → List Bytes
stored key s = Table.get_or s.elements key []

-- what is left of a push after the first value went to a client
unfoldable pub store_remaining : Bytes → Bool → List Bytes → Store → Store
store_remaining key is_left_push [] s = s
store_remaining key is_left_push (v ∷ vs) s =
    put_list key (if is_left_push then (v ∷ vs) ++ stored key s else stored key s ++ (v ∷ vs)) s

-- The first value goes to the client that has waited longest; an empty `value` is an index panic.
serve_client : Bytes → Bool → List Bytes → ℕ → List ℕ → Store → Outcome (Option ℕ × Store)
unfolding store_remaining
serve_client key is_left_push [] ch rest s = panic
serve_client key is_left_push (v ∷ vs) ch rest s = do
  s' ← send ch v (set_queue key rest s)
  let s'' = store_remaining key is_left_push vs s'
  done (some (length (stored key s'') + 1), s'')

dispatch_push : Bytes → Bool → List Bytes → List ℕ → Store → Outcome (Option ℕ × Store)
unfolding serve_client
dispatch_push key is_left_push value [] s = done (none, s)
dispatch_push key is_left_push value (ch ∷ rest) s = serve_client key is_left_push value ch rest s

-- `some n` stands for `(n, true)`, and `none` for `(0, false)`
unfoldable pub check_for_blocking_clients :
    Bytes → Bool → List Bytes → Store → Outcome (Option ℕ × Store)
unfolding dispatch_push
check_for_blocking_clients key is_left_push value s =
    dispatch_push key is_left_push value (waiters key s) s

finish_rpush : Bytes → List Bytes → Option ℕ → Store → Outcome (ℕ × Store)
finish_rpush key value (some n) s = done (n, s)
finish_rpush key value none s = let l = stored key s ++ value in done (length l, put_list key l s)

unfoldable pub rpush : Bytes → List Bytes → Store → Outcome (ℕ × Store)
unfolding finish_rpush
rpush key value s = do
  (handled, s') ← check_for_blocking_clients key false value s
  finish_rpush key value handled s'

-- reversed[len(values)-1-i] = v, for each i
unfoldable pub reversed : List Bytes → List Bytes
reversed [] = []
reversed (v ∷ vs) = reversed vs ++ v ∷ []

finish_lpush : Bytes → List Bytes → Option ℕ → Store → Outcome (ℕ × Store)
finish_lpush key value (some n) s = done (n, s)
finish_lpush key value none s = let l = value ++ stored key s in done (length l, put_list key l s)

unfoldable pub lpush : Bytes → List Bytes → Store → Outcome (ℕ × Store)
unfolding finish_lpush
lpush key values s = do
  (handled, s') ← check_for_blocking_clients key true (reversed values) s
  finish_lpush key (reversed values) handled s'

unfoldable pub llen : Bytes → Store → ℕ
llen key s = length (stored key s)

-- the loop that writes the elements from index `i` on, for `n` rounds
unfoldable pub write_elements : ℕ → ℕ → List Bytes → Bytes → Outcome Bytes
write_elements zero i l out = done out
write_elements (suc n) i l out = elim (get_elem? l i) [
  | none ↦ panic
  | some e ↦ write_elements n (i + 1) l (out ++ bulk e)
]

-- a negative index counts from the end
unfoldable pub from_end : ℕ → ℤ → ℕ
from_end len i = if ltb_ℤ i (pos 0) then clamp (pos len +ℤ i) else pos_part i

unfoldable pub range_list : List Bytes → ℕ → ℕ → Outcome Bytes
range_list l start stop =
    if leb (length l) start || ltb stop start
    then done []
    else (let stop' = if leb (length l) stop then length l - 1 else stop in
        write_elements (stop' - start + 1) start l (array_header (stop' - start + 1)))

unfoldable pub lrange : Bytes → ℤ → ℤ → Store → Outcome Bytes
unfolding range_list
lrange key start stop s = elim (Table.get s.elements key) [
  | none ↦ done []
  | some l ↦ range_list l (from_end (length l) start) (from_end (length l) stop)
]

-- the head of the reply for more than one element
pop_header : ℕ → Bytes
pop_header n = if ltb 1 n then array_header n else []

unfoldable pub pop_list : Bytes → List Bytes → ℤ → Store → Outcome (Bytes × Store)
unfolding pop_header
pop_list key l (negsuc _) s = panic
pop_list key l (pos m) s = do
  let n = if leb (length l) m then length l else m
  out ← write_elements n 0 l (pop_header n)
  done (out, put_list key (drop n l) s)

-- A negative number of elements makes no round of the loop, and then a slice bound out of range.
unfoldable pub lpop : Bytes → ℤ → Store → Outcome (Bytes × Store)
unfolding pop_list
lpop key number_elements s = elim (Table.get s.elements key) [
  | none ↦ done (codes "$-1\r\n", s)
  | some l ↦ pop_list key l number_elements s
]

pub data Blpop : Type 0 where
  popped : Bytes → Blpop
  waiting : ℕ → Blpop

-- The part of `BLPop` in front of the wait: a value, or the channel on which the client waits.
unfoldable pub blpop : Bytes → Store → Blpop × Store
blpop key s = elim (stored key s) [
  | [] ↦ (let (ch, s') = make_chan s in (waiting ch, enqueue ch key s'))
  | v ∷ vs ↦ (popped v, put_list key vs s)
]

-- the arm `case <-timeoutChan` of the wait: a value may have come in between
unfoldable pub blpop_timeout : Bytes → ℕ → Store → Option Bytes × Store
blpop_timeout key ch s = receive ch (remove_waiter key ch s)

-- "list" is not among the types
unfoldable pub key_type : Bytes → Store → Bytes
key_type key s = elim (Table.get s.items key) [
  | some _ ↦ codes "string"
  | none ↦ elim (Table.get s.streams key) [ some _ ↦ codes "stream" | none ↦ codes "none" ]
]
