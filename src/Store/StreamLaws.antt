-- ===== src/Store/StreamLaws.antt =====
-- `XAdd` keeps the IDs of a stream increasing.
use redis_in_go.Prelude.{ℕ, ◌+◌, ◌^◌, ◌<◌, ◌≡◌, ◌∙◌, ap, ap₂, refl, List, [], ◌∷◌, ◌++◌, arith}
use redis_in_go.Prelude.Int.{ℤ, pos}
use redis_in_go.Text.{Bytes}
use redis_in_go.Table
use redis_in_go.Table.{Table}
use redis_in_go.Store.State.{StreamEntry, Store}
use redis_in_go.Store.Channels.{try_send}
use redis_in_go.Store.StreamIds.{
  Resolved, resolved, invalid_id, zero_id, not_greater, resolve_stream_id,
}
use redis_in_go.Store.StreamOrder.{id_of, Less, Greater, resolve-Greater, resolve_first}
use redis_in_go.Store.Streams.{entries_at, last_id, notify, finish_xadd, xadd, added, refused}

-- The IDs increase, from above a-b up to the last one, which is c-d.
abbrev pub Chain : ℕ → ℕ → List StreamEntry → ℕ → ℕ → Type 0
Chain a b [] c d = (a ≡ c) × (b ≡ d)
Chain a b (e ∷ es) c d =
    (m : ℕ) × (n : ℕ) × (e.id ≡ id_of m n)
    × (m < 2 ^ 63)
    × (n < 2 ^ 63)
    × Less a b m n
    × Chain m n es c d

Chain-append :
    (a b : ℕ) (es : List StreamEntry) (c d : ℕ) (e : StreamEntry)
    → Chain a b es c d
    → Greater c d e.id
    → (m : ℕ) × (n : ℕ) × Chain a b (es ++ e ∷ []) m n
Chain-append a b [] c d e (p, q) (m, n, i, hm, hn, less) =
    (m, n, (m, n, i, hm, hn, rw (p, q) less, (refl, refl)))
Chain-append a b (f ∷ es) c d e (m, n, i, hm, hn, less, rest) g =
    let (m', n', ch) = Chain-append m n es c d e rest g in (m', n', (m, n, i, hm, hn, less, ch))

-- The last ID of entries that are there.
last_id-Chain :
    (a b : ℕ) (e : StreamEntry) (es : List StreamEntry) (c d : ℕ)
    → Chain a b (e ∷ es) c d
    → (last_id (e ∷ es) ≡ id_of c d) × (c < 2 ^ 63)
unfolding last_id
last_id-Chain a b e [] c d (m, n, i, hm, hn, less, (p, q)) = (i ∙ ap₂ id_of p q, omega arith)
last_id-Chain a b e (f ∷ es) c d (m, n, i, hm, hn, less, rest) = last_id-Chain m n f es c d rest

streams-try_send : (ch : ℕ) (v : Bytes) (s : Store) → (try_send ch v s).streams ≡ s.streams
unfolding try_send
streams-try_send ch v s = ground arith

streams-notify : (q : List ℕ) (id : Bytes) (s : Store) → (notify q id s).streams ≡ s.streams
unfolding notify
streams-notify [] id s = refl
streams-notify (ch ∷ q) id s = streams-notify q id (try_send ch id s) ∙ streams-try_send ch id s

finish_added :
    (key id : Bytes) (values : Table Bytes) (r : Resolved) (s : Store)
    → (finish_xadd key values r s).0 ≡ added id
    → (r ≡ resolved id)
      × (entries_at key (finish_xadd key values r s).1
          ≡ entries_at key s ++ record { id = id; values = values } ∷ [])
unfolding finish_xadd
finish_added key id values (resolved final) s h =
    let e : final ≡ id = cc in (ap resolved e, rw (streams-notify, Table.get-put_self, e))
finish_added key id values invalid_id s h = cc
finish_added key id values zero_id s h = cc
finish_added key id values not_greater s h = cc

finish_refused :
    (key : Bytes) (values : Table Bytes) (r r' : Resolved) (s : Store)
    → (finish_xadd key values r s).0 ≡ refused r'
    → (finish_xadd key values r s).1 ≡ s
unfolding finish_xadd
finish_refused key values (resolved final) r' s h = cc
finish_refused key values invalid_id r' s h = refl
finish_refused key values zero_id r' s h = refl
finish_refused key values not_greater r' s h = refl

-- An XADD that is refused changes nothing.
pub xadd_refused :
    (now : ℤ) (key requested : Bytes) (values : Table Bytes) (s : Store) {r : Resolved}
    → (xadd now key requested values s).0 ≡ refused r
    → (xadd now key requested values s).1 ≡ s
unfolding xadd
xadd_refused now key requested values s {r} h = finish_refused key values _ r s h

new_id-Greater :
    (now : ℕ) (requested id : Bytes) (es : List StreamEntry) (c d : ℕ)
    → now < 2 ^ 63
    → d + 1 < 2 ^ 63
    → Chain 0 0 es c d
    → resolve_stream_id (pos now) requested (last_id es) ≡ resolved id
    → Greater c d id
new_id-Greater now requested id [] c d ht hd (p, q) h =
    rw (← p, ← q) (resolve_first now requested id ht (unfold last_id in h))
new_id-Greater now requested id (e ∷ es) c d ht hd ch h =
    let (e', hc) = last_id-Chain 0 0 e es c d ch in
    resolve-Greater now c d requested id ht hc hd (rw e' at h)

xadd_added :
    (now : ℤ) (key requested id : Bytes) (values : Table Bytes) (s : Store)
    → (xadd now key requested values s).0 ≡ added id
    → (resolve_stream_id now requested (last_id (entries_at key s)) ≡ resolved id)
      × (entries_at key (xadd now key requested values s).1
          ≡ entries_at key s ++ record { id = id; values = values } ∷ [])
unfolding xadd
xadd_added now key requested id values s h = finish_added key id values _ s h

-- `XAdd` on a stream whose IDs increase from above 0-0, and whose last sequence number is not the
-- largest `int`: whatever ID is requested, if an ID comes back, the new entry stands at the end with
-- that ID and the given values, behind the old entries, and the IDs still increase.
pub xadd_increasing :
    (now c d : ℕ) (key requested id : Bytes) (values : Table Bytes) (s : Store)
    → now < 2 ^ 63
    → d + 1 < 2 ^ 63
    → Chain 0 0 (entries_at key s) c d
    → (xadd (pos now) key requested values s).0 ≡ added id
    → (entries_at key (xadd (pos now) key requested values s).1
        ≡ entries_at key s ++ record { id = id; values = values } ∷ [])
      × ((m : ℕ) × (n : ℕ) × Chain 0 0
            (entries_at key (xadd (pos now) key requested values s).1)
            m
            n)
xadd_increasing now c d key requested id values s ht hd ch h =
    let (r, e) = xadd_added (pos now) key requested id values s h in
    (
      e,
      rw e (
          Chain-append 0 0 (entries_at key s) c d _ ch
            (new_id-Greater now requested id _ c d ht hd ch r)),
    )
