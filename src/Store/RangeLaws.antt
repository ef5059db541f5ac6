-- ===== src/Store/RangeLaws.antt =====
-- Proofs about `XRange` of internal/store/store.go.
use redis_in_go.Prelude.{
  ◌+◌, ◌-◌, ◌≡◌, refl, Bool, true, false, List, [], ◌∷◌, ◌++◌, append_assoc, append-nil, map,
  Option, none, some, done, panic, ltb, if◌then◌else◌, length, length-append, get_elem?, arith,
}
use redis_in_go.Text.{Bytes, codes, str_eq, All}
use redis_in_go.Table
use redis_in_go.Store.{
  StreamEntry, Store, RangeEntry, id_less, id_equal, search_id, range_entry, collect,
  collect_between, range_end, xrange,
}
use redis_in_go.Store.Streams.{range_entries}
use redis_in_go.Store.SearchLaws.{binary_search_boundary}

head_of : List StreamEntry → Option StreamEntry
head_of [] = none
head_of (e ∷ es) = some e

get_elem?-append : (ys zs : List StreamEntry) → get_elem? (ys ++ zs) (length ys) ≡ head_of zs
unfolding head_of
get_elem?-append [] [] = refl
get_elem?-append [] (z ∷ zs) = refl
get_elem?-append (y ∷ ys) zs = get_elem?-append ys zs

collect-append :
    (before inside after : List StreamEntry) (out : List RangeEntry)
    → collect (length inside) (length before) (before ++ (inside ++ after)) out
      ≡ done (out ++ map range_entry inside)
unfolding collect head_of
collect-append before [] after out = rw append-nil refl
collect-append before (e ∷ inside) after out =
    rw (get_elem?-append before (e ∷ (inside ++ after)), collect)
      (rw (length-append before (e ∷ []), append_assoc before, append_assoc out) at
        (collect-append (before ++ e ∷ []) inside after (out ++ range_entry e ∷ [])))

-- The entries between `before` and `after` that are before the end of the range, and then that end.
abbrev pub EndsAt : Bytes → List StreamEntry → List StreamEntry → Type 0
EndsAt end_id [] after =
    All (λ e. (id_less e.id end_id ≡ false) × (id_equal e.id end_id ≡ false)) after
EndsAt end_id (e ∷ []) after =
    (id_less e.id end_id ≡ false)
    × (id_equal e.id end_id ≡ true)
    × All (λ f. id_less f.id end_id ≡ false) after
EndsAt end_id (e ∷ f ∷ es) after = ⊥

abbrev at_end : List StreamEntry → Bool
at_end [] = false
at_end (e ∷ es) = true

search_id-start :
    (id : Bytes) (ys zs : List StreamEntry)
    → All (λ e. id_less e.id id ≡ true) ys
    → All (λ e. id_less e.id id ≡ false) zs
    → (search_id (ys ++ zs) id).0 ≡ length ys
unfolding search_id
search_id-start id ys zs hy hz = binary_search_boundary (λ e. id_less e.id id) ys zs hy hz

less_of :
    (id : Bytes) (after : List StreamEntry)
    → EndsAt id [] after
    → All (λ e. id_less e.id id ≡ false) after
less_of id [] h = tt
less_of id (e ∷ es) ((l, _), h) = (l, less_of id es h)

found_at_head :
    (id : Bytes) (after : List StreamEntry)
    → EndsAt id [] after
    → (elim (head_of after) [ none ↦ false | some e ↦ id_equal e.id id ]) ≡ false
unfolding head_of
found_at_head id [] h = refl
found_at_head id (e ∷ es) ((_, q), _) = q

search_id-end :
    (id : Bytes) (ys last after : List StreamEntry)
    → All (λ e. id_less e.id id ≡ true) ys
    → EndsAt id last after
    → search_id (ys ++ (last ++ after)) id ≡ (length ys, at_end last)
unfolding search_id head_of
search_id-end id ys [] after hy h =
    rw
      (
        binary_search_boundary (λ e. id_less e.id id) ys after hy (less_of id after h),
        get_elem?-append ys after,
      )
      (rw (found_at_head id after h) refl)
search_id-end id ys (e ∷ []) after hy (less, equal, h) =
    rw
      (
        binary_search_boundary (λ f. id_less f.id id) ys (e ∷ after) hy (less, h),
        get_elem?-append ys (e ∷ after),
        equal,
      )
      refl
search_id-end id ys (e ∷ f ∷ es) after hy h = absurd h

collect_between-append :
    (before inside after : List StreamEntry)
    → collect_between (before ++ (inside ++ after)) (length before) (length before + length inside)
      ≡ done (map range_entry inside)
unfolding collect_between
collect_between-append before inside after =
    let not_less : ltb (length before + length inside) (length before) ≡ false = ground arith in
    let count : length before + length inside - length before ≡ length inside = omega arith in
    rw (not_less, count) (collect-append before inside after [])

range_end_plain :
    (entries : List StreamEntry) (end_id : Bytes)
    → str_eq end_id (codes "+") ≡ false
    → range_end entries end_id ≡ done end_id
unfolding range_end
range_end_plain [] end_id h = rw h refl
range_end_plain (e ∷ es) end_id h = rw h refl

-- the end index of the source
end_index :
    (end_id : Bytes) (before inside last after : List StreamEntry)
    → EndsAt end_id last after
    → (if at_end last then length (before ++ inside) + 1 else length (before ++ inside))
      ≡ length before + length (inside ++ last)
end_index end_id before inside [] after h =
    omega (arith, length-append before inside, length-append inside [])
end_index end_id before inside (e ∷ []) after h =
    omega (arith, length-append before inside, length-append inside (e ∷ []))
end_index end_id before inside (e ∷ f ∷ es) after h = absurd h

range_entries-parts :
    (start_id end_id : Bytes) (before inside last after : List StreamEntry)
    → str_eq start_id (codes "-") ≡ false
    → str_eq end_id (codes "+") ≡ false
    → All (λ e. id_less e.id start_id ≡ true) before
    → All (λ e. id_less e.id start_id ≡ false) (inside ++ (last ++ after))
    → All (λ e. id_less e.id end_id ≡ true) (before ++ inside)
    → EndsAt end_id last after
    → range_entries (before ++ (inside ++ (last ++ after))) start_id end_id
      ≡ done (map range_entry (inside ++ last))
unfolding range_entries
range_entries-parts start_id end_id before inside last after hs he hb hi hl hend =
    let entries = before ++ (inside ++ (last ++ after)) in
    let from : (search_id entries start_id).0 ≡ length before =
      search_id-start start_id before (inside ++ (last ++ after)) hb hi in
    let to : search_id entries end_id ≡ (length (before ++ inside), at_end last) =
      rw (append_assoc before) at (search_id-end end_id (before ++ inside) last after hl hend) in
    rw
      (
        range_end_plain entries end_id he,
        hs,
        from,
        to,
        end_index end_id before inside last after hend,
      )
      (rw (append_assoc inside) at (collect_between-append before (inside ++ last) after))

-- A stream's entries stand in four parts: those before the start of the range, those from there on
-- that are before its end, the entry at the end if it is there, and those behind. Then XRANGE returns
-- the two parts in the middle, in order, and does not panic. The start is not "-", the end is not "+".
pub xrange-between :
    (key start_id end_id : Bytes) (s : Store) (before inside last after : List StreamEntry)
    → Table.get s.streams key ≡ some (record { entries = before ++ (inside ++ (last ++ after)) })
    → str_eq start_id (codes "-") ≡ false
    → str_eq end_id (codes "+") ≡ false
    → All (λ e. id_less e.id start_id ≡ true) before
    → All (λ e. id_less e.id start_id ≡ false) (inside ++ (last ++ after))
    → All (λ e. id_less e.id end_id ≡ true) (before ++ inside)
    → EndsAt end_id last after
    → xrange key start_id end_id s ≡ done (map range_entry (inside ++ last))
unfolding xrange
xrange-between key start_id end_id s before inside last after at hs he hb hi hl hend =
    rw (at, xrange)
      (range_entries-parts start_id end_id before inside last after hs he hb hi hl hend)

reversed_range :
    (start_id end_id : Bytes) (before between after : List StreamEntry) (e : StreamEntry)
    → str_eq start_id (codes "-") ≡ false
    → str_eq end_id (codes "+") ≡ false
    → All (λ f. id_less f.id start_id ≡ true) (before ++ (e ∷ between))
    → All (λ f. id_less f.id start_id ≡ false) after
    → All (λ f. id_less f.id end_id ≡ true) before
    → EndsAt end_id [] ((e ∷ between) ++ after)
    → range_entries (before ++ ((e ∷ between) ++ after)) start_id end_id ≡ panic
unfolding range_entries collect_between
reversed_range start_id end_id before between after e hs he hb ha hl hend =
    let entries = before ++ ((e ∷ between) ++ after) in
    let from : (search_id entries start_id).0 ≡ length (before ++ (e ∷ between)) =
      rw (append_assoc before) at
        (search_id-start start_id (before ++ (e ∷ between)) after hb ha) in
    let to : search_id entries end_id ≡ (length before, false) =
      search_id-end end_id before [] ((e ∷ between) ++ after) hl hend in
    let less : ltb (length before) (length (before ++ (e ∷ between))) ≡ true =
      ground (arith, length-append before (e ∷ between)) in
    rw (range_end_plain entries end_id he, hs, from, to, less) refl

-- XRANGE panics when the entry `e` of the stream is before the start and behind the end of the range,
-- and the entries are in order around the two; the start is not "-", the end is not "+".
pub xrange_reversed :
    (key start_id end_id : Bytes) (s : Store) (before between after : List StreamEntry)
    (e : StreamEntry)
    → Table.get s.streams key ≡ some (record { entries = before ++ ((e ∷ between) ++ after) })
    → str_eq start_id (codes "-") ≡ false
    → str_eq end_id (codes "+") ≡ false
    → All (λ f. id_less f.id start_id ≡ true) (before ++ (e ∷ between))
    → All (λ f. id_less f.id start_id ≡ false) after
    → All (λ f. id_less f.id end_id ≡ true) before
    → EndsAt end_id [] ((e ∷ between) ++ after)
    → xrange key start_id end_id s ≡ panic
unfolding xrange
xrange_reversed key start_id end_id s before between after e at hs he hb ha hl hend =
    rw (at, xrange) (reversed_range start_id end_id before between after e hs he hb ha hl hend)
