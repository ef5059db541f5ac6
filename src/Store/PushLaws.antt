-- ===== src/Store/PushLaws.antt =====
-- What `RPush` and `LPush` do, with and without a waiting client.
use redis_in_go.Prelude.{
  ℕ, ◌+◌, ◌≡◌, ◌∙◌, refl, Bool, true, false, List, [], ◌∷◌, ◌++◌, append-nil, none, some, done,
  panic, ◌>>=◌, arith, if◌then◌else◌, length, ◌==◌,
}
use redis_in_go.Prelude.Int.{pos}
use redis_in_go.Text.{Bytes, str_eq, str_eq_refl}
use redis_in_go.Resp.{bulk}
use redis_in_go.Table
use redis_in_go.Table.{Table}
use redis_in_go.Store.State.{Store}
use redis_in_go.Store.Channels.{waiters, send, set_queue, update}
use redis_in_go.Store.Lists.{
  check_for_blocking_clients, store_remaining, rpush, lpush, reversed, lpop, stored, put_list,
}
use redis_in_go.Store.ListLaws.{pop_reply, lpop-take, take-length, drop_all}

pub stored-put :
    (key other : Bytes) (l : List Bytes) (s : Store)
    → stored other (put_list key l s) ≡ (if str_eq key other then l else stored other s)
stored-put key other l s = Table.get_or-put s.elements key other l []

-- Without a waiting client RPUSH appends its values and returns the new length.
pub rpush_appends :
    (key : Bytes) (values : List Bytes) (s : Store)
    → waiters key s ≡ []
    → rpush key values s
      ≡ done (length (stored key s ++ values), put_list key (stored key s ++ values) s)
unfolding rpush check_for_blocking_clients
rpush_appends key values s h = rw h

-- Without a waiting client LPUSH puts its values in front, the last one first.
pub lpush_prepends :
    (key : Bytes) (values : List Bytes) (s : Store)
    → waiters key s ≡ []
    → lpush key values s
      ≡ done (
        length (reversed values ++ stored key s),
        put_list key (reversed values ++ stored key s) s,
      )
unfolding lpush check_for_blocking_clients
lpush_prepends key values s h = rw h

-- What a push does that gives `v` to the client on channel `ch`, the first one in the queue of `key`,
-- and leaves `l` under the key; every other part of the store stays.
pub record Served (key : Bytes) (ch : ℕ) (rest : List ℕ) (v : Bytes) (l : List Bytes) (s s' : Store)
    : Type 0 where
  pub delivered : s'.chans ch ≡ some v
  pub queue : waiters key s' ≡ rest
  pub list : stored key s' ≡ l
  pub other_chans : (c : ℕ) → (c == ch) ≡ false → s'.chans c ≡ s.chans c
  pub other_queues : (other : Bytes) → str_eq key other ≡ false → waiters other s' ≡ waiters other s
  pub other_lists : (other : Bytes) → str_eq key other ≡ false → stored other s' ≡ stored other s
  pub next_kept : s'.next_chan ≡ s.next_chan
  pub items_kept : s'.items ≡ s.items
  pub streams_kept : s'.streams ≡ s.streams

abbrev handed_over : Bytes → ℕ → List ℕ → Bytes → Store → Store
handed_over key ch rest v s = record (set_queue key rest s) {
  chans = update (set_queue key rest s).chans ch (some v);
}

pub chans-set_queue : (key : Bytes) (q : List ℕ) (s : Store) → (set_queue key q s).chans ≡ s.chans
unfolding set_queue
chans-set_queue key [] s = refl
chans-set_queue key (c ∷ q) s = refl

pub waiters-set_queue :
    (key other : Bytes) (q : List ℕ) (s : Store)
    → waiters other (set_queue key q s) ≡ (if str_eq key other then q else waiters other s)
unfolding set_queue
waiters-set_queue key other [] s = Table.get_or-remove s.blocking_clients key other []
waiters-set_queue key other (c ∷ q) s = Table.get_or-put s.blocking_clients key other (c ∷ q) []

elements-set_queue :
    (key : Bytes) (q : List ℕ) (s : Store) → (set_queue key q s).elements ≡ s.elements
unfolding set_queue
elements-set_queue key [] s = refl
elements-set_queue key (c ∷ q) s = refl

pub next_chan-set_queue :
    (key : Bytes) (q : List ℕ) (s : Store) → (set_queue key q s).next_chan ≡ s.next_chan
unfolding set_queue
next_chan-set_queue key [] s = refl
next_chan-set_queue key (c ∷ q) s = refl

items-set_queue : (key : Bytes) (q : List ℕ) (s : Store) → (set_queue key q s).items ≡ s.items
unfolding set_queue
items-set_queue key [] s = refl
items-set_queue key (c ∷ q) s = refl

streams-set_queue : (key : Bytes) (q : List ℕ) (s : Store) → (set_queue key q s).streams ≡ s.streams
unfolding set_queue
streams-set_queue key [] s = refl
streams-set_queue key (c ∷ q) s = refl

handed_over-Served :
    (key : Bytes) (ch : ℕ) (rest : List ℕ) (v : Bytes) (s : Store)
    → Served key ch rest v (stored key s) s (handed_over key ch rest v s)
handed_over-Served key ch rest v s = record {
  delivered = ground arith;
  queue = waiters-set_queue key key rest s ∙ rw str_eq_refl;
  list = rw elements-set_queue;
  other_chans = λ c ne. rw (ne, chans-set_queue);
  other_queues = λ other ne. waiters-set_queue key other rest s ∙ rw ne;
  other_lists = λ other ne. rw elements-set_queue;
  next_kept = next_chan-set_queue key rest s;
  items_kept = items-set_queue key rest s;
  streams_kept = streams-set_queue key rest s;
}

-- the list that a push leaves, with what a client did not take
abbrev joined : Bool → List Bytes → List Bytes → List Bytes
joined is_left_push vs old = if is_left_push then vs ++ old else old ++ vs

store_remaining-Served :
    (key : Bytes) (ch : ℕ) (rest : List ℕ) (v : Bytes) (b : Bool) (vs old : List Bytes)
    (s s' : Store)
    → Served key ch rest v old s s'
    → Served key ch rest v (joined b vs old) s (store_remaining key b vs s')
unfolding store_remaining
store_remaining-Served key ch rest v true [] old s s' h = h
store_remaining-Served key ch rest v false [] old s s' h = rw append-nil h
store_remaining-Served key ch rest v b (w ∷ vs) old s s' h = record {
  delivered = h.delivered;
  queue = h.queue;
  list = Table.get_or-put_self s'.elements key _ [] ∙ rw (h.list);
  other_chans = h.other_chans;
  other_queues = h.other_queues;
  other_lists =
      λ other ne. Table.get_or-put s'.elements key other _ [] ∙ rw ne (h.other_lists other ne);
  next_kept = h.next_kept;
  items_kept = h.items_kept;
  streams_kept = h.streams_kept;
}

send_empty :
    (ch : ℕ) (v : Bytes) (s : Store)
    → s.chans ch ≡ none
    → send ch v s ≡ done (record s { chans = update s.chans ch (some v) })
unfolding send
send_empty ch v s h = rw (h, send)

-- A push of at least one value under a key with a waiting client whose buffer is empty.
serve_lem :
    (key : Bytes) (b : Bool) (v : Bytes) (vs : List Bytes) (ch : ℕ) (rest : List ℕ) (s : Store)
    → waiters key s ≡ ch ∷ rest
    → s.chans ch ≡ none
    → (s' : Store) × (check_for_blocking_clients key b (v ∷ vs) s
        ≡ done (some (length (joined b vs (stored key s)) + 1), s'))
      × Served key ch rest v (joined b vs (stored key s)) s s'
unfolding check_for_blocking_clients
serve_lem key b v vs ch rest s q empty =
    let served =
      store_remaining-Served key ch rest v b vs (stored key s) s _
        (handed_over-Served key ch rest v s) in
    (
      store_remaining key b vs (handed_over key ch rest v s),
      rw (q, send_empty ch v (set_queue key rest s) (rw chans-set_queue empty), served.list),
      served,
    )

-- RPUSH under a key with waiting clients: the first value goes to the client that has waited longest,
-- whose buffer must be empty; the other values are appended, the reply counts the value that was
-- taken, and no other list, queue or channel, no string and no stream changes.
pub rpush_serves :
    (key v : Bytes) (vs : List Bytes) (ch : ℕ) (rest : List ℕ) (s : Store)
    → waiters key s ≡ ch ∷ rest
    → s.chans ch ≡ none
    → (s' : Store) × (rpush key (v ∷ vs) s ≡ done (length (stored key s ++ vs) + 1, s'))
      × Served key ch rest v (stored key s ++ vs) s s'
unfolding rpush
rpush_serves key v vs ch rest s q empty =
    let (s', e, served) = serve_lem key false v vs ch rest s q empty in (s', rw e, served)

reversed-append : (vs : List Bytes) (v : Bytes) → reversed (vs ++ v ∷ []) ≡ v ∷ reversed vs
unfolding reversed
reversed-append [] v = refl
reversed-append (w ∷ vs) v = rw (reversed-append vs v)

-- LPUSH under a key with waiting clients: the last value goes to the client that has waited longest,
-- whose buffer must be empty; the others stand in front of the list, the last of them first, the reply
-- counts the value that was taken, and no other list, queue or channel, no string and no stream changes.
pub lpush_serves :
    (key v : Bytes) (vs : List Bytes) (ch : ℕ) (rest : List ℕ) (s : Store)
    → waiters key s ≡ ch ∷ rest
    → s.chans ch ≡ none
    → (s' : Store) × (lpush key (vs ++ v ∷ []) s
        ≡ done (length (reversed vs ++ stored key s) + 1, s'))
      × Served key ch rest v (reversed vs ++ stored key s) s s'
unfolding lpush
lpush_serves key v vs ch rest s q empty =
    let (s', e, served) = serve_lem key true v (reversed vs) ch rest s q empty in
    (s', rw (reversed-append vs v, e), served)

-- A push of no value under a key with a waiting client panics.
pub push_of_nothing :
    (key : Bytes) (ch : ℕ) (rest : List ℕ) (s : Store)
    → waiters key s ≡ ch ∷ rest
    → (rpush key [] s ≡ panic) × (lpush key [] s ≡ panic)
unfolding rpush lpush check_for_blocking_clients reversed
push_of_nothing key ch rest s q = (rw q, rw q)

-- A stack: with no client waiting, LPUSH of a value and LPOP of one element reply with that value and
-- leave the list as it was.
pub lpop-lpush :
    (key v : Bytes) (s : Store)
    → waiters key s ≡ []
    → (lpush key (v ∷ []) s >>= λ (_, s'). lpop key (pos 1) s')
      ≡ done (bulk v, put_list key (stored key s) (put_list key (v ∷ stored key s) s))
unfolding reversed
lpop-lpush key v s h =
    rw (lpush_prepends key (v ∷ []) s h)
      (lpop-take key (v ∷ stored key s) 1 _ (Table.get-put_self s.elements key _))

-- A queue: with no client waiting and nothing stored, RPUSH of some values and LPOP of as many
-- elements reply with those values in order and leave the empty list.
pub lpop-rpush :
    (key : Bytes) (vs : List Bytes) (s : Store)
    → waiters key s ≡ []
    → stored key s ≡ []
    → (rpush key vs s >>= λ (n, s'). lpop key (pos n) s')
      ≡ done (pop_reply vs, put_list key [] (put_list key vs s))
lpop-rpush key vs s h e =
    rw (rpush_appends key vs s h, e)
      (rw (
        lpop-take key vs (length vs) (put_list key vs s) (Table.get-put_self s.elements key vs),
        take-length,
        drop_all (length vs) vs (omega arith),
      ))
