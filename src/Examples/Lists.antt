-- ===== src/Examples/Lists.antt =====
-- Inputs for the laws of the list commands, and of the clients that wait in `BLPop`.
use redis_in_go.Prelude.{ℕ, ◌+◌, ◌≡◌, refl, false, [], ◌∷◌, ◌++◌, none, some, done, ◌>>=◌, length}
use redis_in_go.Prelude.Int.{pos, negsuc, ◌+ℤ◌}
use redis_in_go.Text.{Bytes, codes, str_eq}
use redis_in_go.Text.Decimal.{format_nat}
use redis_in_go.Resp.{bulk, array_header}
use redis_in_go.Table
use redis_in_go.Store.{
  Store, init, waiters, stored, put_list, rpush, lpush, reversed, lrange, lpop, blpop,
  blpop_timeout, from_end, write_elements, enqueue, make_chan,
}
use redis_in_go.Store.ListLaws.{lrange-slice, place_of, range_reply, slice, pop_reply}
use redis_in_go.Store.PushLaws.{rpush_serves, lpush_serves, Served, lpop-rpush}
use redis_in_go.Store.WaitLaws.{IsValid, init-IsValid, In}
use redis_in_go.Store.WaitBegin.{blpop-IsValid}
use redis_in_go.Store.WaitEnd.{blpop_timeout_lem}
use redis_in_go.Store.WaitSteps.{wait, here, next, reachable_push_returns}

abbrev letters : Store
letters = record init { elements = (codes "q", codes "a" ∷ codes "b" ∷ codes "c" ∷ []) ∷ [] }

letters_at : Table.get letters.elements (codes "q") ≡ some (codes "a" ∷ codes "b" ∷ codes "c" ∷ [])
unfolding Table.get str_eq
letters_at = refl

lrange-slice_example :
    lrange (codes "q") (negsuc 1) (pos 9) letters
    ≡ done (
        range_reply (
          slice
            (codes "a" ∷ codes "b" ∷ codes "c" ∷ [])
            (place_of 3 (negsuc 1))
            (place_of 3 (pos 9))))
lrange-slice_example =
    lrange-slice (codes "q") (negsuc 1) (pos 9) (codes "a" ∷ codes "b" ∷ codes "c" ∷ []) letters
      letters_at

last_two :
    lrange (codes "q") (negsuc 1) (pos 9) letters ≡ done (codes "*2\r\n$1\r\nb\r\n$1\r\nc\r\n")
unfolding lrange write_elements from_end Table.get str_eq ◌+ℤ◌ bulk array_header format_nat
last_two = refl

-- two clients wait under "q"
abbrev waiting_pair : Store
waiting_pair = record init { blocking_clients = (codes "q", 0 ∷ 1 ∷ []) ∷ []; next_chan = 2 }

pair_waits : waiters (codes "q") waiting_pair ≡ 0 ∷ 1 ∷ []
unfolding Table.get_or Table.get str_eq
pair_waits = refl

nothing_sent : waiting_pair.chans 0 ≡ none
nothing_sent = refl

rpush_serves_example :
    (s' : Store) × (rpush (codes "q") (codes "a" ∷ codes "b" ∷ []) waiting_pair
      ≡ done (length (stored (codes "q") waiting_pair ++ codes "b" ∷ []) + 1, s'))
    × Served
        (codes "q")
        0
        (1 ∷ [])
        (codes "a")
        (stored (codes "q") waiting_pair ++ codes "b" ∷ [])
        waiting_pair
        s'
rpush_serves_example =
    rpush_serves (codes "q") (codes "a") (codes "b" ∷ []) 0 (1 ∷ []) waiting_pair pair_waits
      nothing_sent

lpush_serves_example :
    (s' : Store) × (lpush (codes "q") (codes "b" ∷ codes "a" ∷ []) waiting_pair
      ≡ done (length (reversed (codes "b" ∷ []) ++ stored (codes "q") waiting_pair) + 1, s'))
    × Served
        (codes "q")
        0
        (1 ∷ [])
        (codes "a")
        (reversed (codes "b" ∷ []) ++ stored (codes "q") waiting_pair)
        waiting_pair
        s'
lpush_serves_example =
    lpush_serves (codes "q") (codes "a") (codes "b" ∷ []) 0 (1 ∷ []) waiting_pair pair_waits
      nothing_sent

nobody : waiters (codes "q") init ≡ []
unfolding Table.get_or Table.get
nobody = refl

nothing_stored : stored (codes "q") init ≡ []
unfolding Table.get_or Table.get
nothing_stored = refl

lpop-rpush_example :
    (rpush (codes "q") (codes "a" ∷ codes "b" ∷ []) init >>= λ (n, s'). lpop (codes "q") (pos n) s')
    ≡ done (
      pop_reply (codes "a" ∷ codes "b" ∷ []),
      put_list (codes "q") [] (put_list (codes "q") (codes "a" ∷ codes "b" ∷ []) init),
    )
lpop-rpush_example = lpop-rpush (codes "q") (codes "a" ∷ codes "b" ∷ []) init nobody nothing_stored

-- one client waits under "q"
abbrev one_waits : Store
one_waits = (blpop (codes "q") init).1

one_waits-IsValid : IsValid one_waits
one_waits-IsValid = blpop-IsValid (codes "q") init init-IsValid

only_there : (k : Bytes) → str_eq (codes "q") k ≡ false → ¬ In 0 (waiters k one_waits)
unfolding blpop enqueue make_chan Table.get_or Table.get Table.put str_eq
only_there k f i = rw f at i

blpop_timeout_lem_example :
    ((blpop_timeout (codes "q") 0 one_waits).0 ≡ one_waits.chans 0)
    × ((k : Bytes) → ¬ In 0 (waiters k (blpop_timeout (codes "q") 0 one_waits).1))
blpop_timeout_lem_example = blpop_timeout_lem (codes "q") 0 one_waits one_waits-IsValid only_there

reachable_push_returns_example :
    (n : ℕ) × (s' : Store) × (rpush (codes "q") (codes "a" ∷ []) one_waits ≡ done (n, s'))
reachable_push_returns_example =
    reachable_push_returns one_waits (codes "q") (codes "a") [] (next here (wait (codes "q")))
