-- ===== src/Examples/SortedSets.antt =====
-- Sorted sets of internal/store/skiplist.go and internal/store/store.go at work.
use mathlib.Core.Option
use redis_in_go.Prelude.{◌≡◌, refl, true, false, List, [], ◌∷◌, some, Outcome, done, ◌>>=◌, arith}
use redis_in_go.Prelude.Int.{ℤ, pos, wrap_int, ◌+ℤ◌}
use redis_in_go.Text.{codes, str_less, str_eq}
use redis_in_go.Table
use redis_in_go.SkipList.{
  SkipList, new_skip_list, insert_element, remove_element_by_name, find_element_rank, get_element,
}
use redis_in_go.SkipList.Float.{Float64, is_nan, float_less, float_equal}
use redis_in_go.SkipList.Listing.{
  Scored, Holds, insert_entry, entry_before, entry_of, insert_element_lem,
}
use redis_in_go.SkipList.Ranks.{new_skip_list-Holds, rank_of_member, element_of_rank}
use redis_in_go.SortedSets.{Sets, set_or_new, zadd, zcard, zrem, range_in}
use redis_in_go.SortedSets.Laws.{HoldsIn, new-HoldsIn, zadd_new, zcard-zrem}
use redis_in_go.SortedSets.Ranges.{range_in_lem}

abbrev one : Float64
one = record { is_negative = false; magnitude = 0x3FF0000000000000 }

abbrev ann : Scored
ann = (codes "ann", one)

abbrev bob : Scored
bob = (codes "bob", one)

one-number : is_nan one ≡ false
unfolding is_nan
one-number = refl

insert_element_lem_example :
    (sl : SkipList) × (insert_element (true ∷ false ∷ []) (codes "bob") one new_skip_list ≡ done sl)
    × Holds sl (insert_entry bob [])
insert_element_lem_example =
    insert_element_lem (true ∷ false ∷ []) (codes "bob") one new_skip_list [] new_skip_list-Holds tt
      one-number (omega arith)

-- the list with bob, and then with ann in front of him
abbrev Built : List Scored → Type 0
Built es = (sl : SkipList) × Holds sl es

with_bob : Built (bob ∷ [])
unfolding insert_entry
with_bob =
    let (sl, _, holds) =
      insert_element_lem (true ∷ false ∷ []) (codes "bob") one new_skip_list [] new_skip_list-Holds
        tt one-number (omega arith) in
    (sl, holds)

with_ann : Built (ann ∷ bob ∷ [])
unfolding insert_entry entry_before str_less str_eq float_less float_equal
with_ann =
    let (sl, _, holds) =
      insert_element_lem (false ∷ []) (codes "ann") one with_bob.0 (bob ∷ []) with_bob.1 (refl, tt)
        one-number (omega arith) in
    (sl, holds)

rank_of_member_example : find_element_rank (codes "bob") with_ann.0 ≡ done (pos 1)
rank_of_member_example = rank_of_member with_ann.0 (ann ∷ []) [] bob with_ann.1

element_of_rank_example :
    (get_element (pos 0) with_ann.0 >>= λ found.
    done (Option.map (λ a. entry_of (with_ann.0.nodes a)) found))
    ≡ done (some ann)
element_of_rank_example = element_of_rank with_ann.0 [] (bob ∷ []) ann with_ann.1

range_in_lem_example : range_in (pos 0) (pos 5) with_ann.0 ≡ done (codes "ann" ∷ codes "bob" ∷ [])
range_in_lem_example =
    range_in_lem with_ann.0 (ann ∷ bob ∷ []) with_ann.1 0 5 (omega arith) (omega arith)
      (omega arith)

zadd_new_example :
    (sets : Sets) × (zadd [] (codes "team") (codes "bob") one [] ≡ done (pos 1, sets))
    × HoldsIn (codes "team") sets (insert_entry bob [])
    × (zcard (codes "team") sets ≡ pos 1)
zadd_new_example =
    zadd_new [] (codes "team") (codes "bob") one [] [] (new-HoldsIn (codes "team")) tt one-number
      (omega arith)

-- a set of one member, and the same set after the member is gone
abbrev team : Outcome (ℤ × Sets)
team = zadd [] (codes "team") (codes "bob") one []

abbrev sets_of : Outcome (ℤ × Sets) → Sets
sets_of (done (n, sets)) = sets
sets_of _ = []

abbrev bob_gone : Outcome (ℤ × Sets)
bob_gone = zrem (codes "team") (codes "bob") (sets_of team)

bob_is_removed : bob_gone ≡ done (pos 1, sets_of bob_gone)
unfolding zadd set_or_new insert_element new_skip_list zrem Table.get Table.put str_eq
    remove_element_by_name float_less float_equal str_less
bob_is_removed = refl

zcard-zrem_example : zcard (codes "team") (sets_of bob_gone) ≡ zcard (codes "team") (sets_of team)
zcard-zrem_example =
    zcard-zrem (codes "team") (codes "bob") (sets_of team) (sets_of bob_gone) (pos 1) bob_is_removed

-- ZCARD of the empty set
one_left : zcard (codes "team") (sets_of bob_gone) ≡ pos 1
unfolding zadd set_or_new insert_element new_skip_list zrem Table.get Table.put str_eq
    remove_element_by_name zcard float_less float_equal str_less wrap_int ◌+ℤ◌
one_left = refl
