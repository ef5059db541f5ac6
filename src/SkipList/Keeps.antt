-- ===== src/SkipList/Keeps.antt =====
-- The row of nodes after `InsertElement`, as a list of entries.
use redis_in_go.Prelude.{
  ℕ, suc, ◌+◌, ◌^◌, ◌≤◌, ◌<◌, ◌≡◌, refl, sym, ap, ◌∙◌, false, none, arith, length-replicate, inl,
  inr,
}
use redis_in_go.Prelude.Int.{pos}
use redis_in_go.Text.{Bytes}
use redis_in_go.Table
use redis_in_go.SkipList.{Node, SkipList, add_int, no_link}
use redis_in_go.SkipList.Float.{Float64, is_nan}
use redis_in_go.SkipList.Shape.{height, IsLevel}
use redis_in_go.SkipList.Search.{add_int-pos}
use redis_in_go.SkipList.Row.{IsRow}
use redis_in_go.SkipList.Splice.{insert_low, insert_self, insert_high}
use redis_in_go.SkipList.Write.{KeepsData}
use redis_in_go.SkipList.Insert.{with_new, position, new_row, with_new_old, IsLevel-tall}
use redis_in_go.SkipList.InsertRow.{
  within, place_cases, node_low, node_self, node_high, each_node, before-same, sorted_start,
  known_start, listed_start, apart_start,
}

module _ (sl : SkipList) (n : ℕ) (place : ℕ → ℕ) (row : IsRow sl n place) (levels : ℕ)
    (member : Bytes) (score : Float64) (absent : Table.get sl.dictionary member ≡ none)
    (is_number : is_nan score ≡ false) (low_enough : levels ≤ sl.max_level)
    (some_levels : 0 < levels) (few : suc n < 2 ^ 62) where
  abbrev row_after : ℕ → ℕ
  row_after = new_row sl n place row levels member score

  abbrev begun : ℕ → Node
  begun = with_new sl n place row levels member score

  abbrev pub after : (ℕ → Node) → SkipList
  after nodes = record sl {
    nodes = nodes;
    next_addr = suc sl.next_addr;
    length = add_int sl.length (pos 1);
    dictionary = Table.put sl.dictionary member sl.next_addr;
  }

  one_more : add_int (pos n) (pos 1) ≡ pos (suc n)
  one_more = let e : n + 1 ≡ suc n = omega arith in add_int-pos n 1 (omega (arith, few)) ∙ ap pos e

  upto : position sl n place row levels member score ≤ n
  upto = within sl n place row levels member score

  used_after : (p : ℕ) → p ≤ suc n → row_after p < suc sl.next_addr
  used_after p h = elim (place_cases sl n place row levels member score p h) [
    | inl low ↦
        rw (insert_low (position sl n place row levels member score) sl.next_addr place p low)
          (omega (arith, row.used p (omega (arith, low, upto))))
    | inr (inl e) ↦
        rw (e, insert_self (position sl n place row levels member score) sl.next_addr place)
          (omega arith)
    | inr (inr (m, e, high, hm)) ↦
        rw (e, insert_high (position sl n place row levels member score) sl.next_addr place m high)
          (omega (arith, row.used m hm))
  ]

  tall_enough : (p : ℕ) → 0 < p → p ≤ suc n → 0 < height (begun (row_after p))
  tall_enough p lo hi =
      each_node sl n place row levels member score (λ r x. 0 < height x) p lo hi
        (λ q lq hq. row.high_enough q lq (omega (arith, hq, upto)))
        (omega (arith, length-replicate levels no_link, some_levels))
        (λ m hm hn. row.high_enough m (omega (arith, hm)) hn)

  not_too_tall : (p : ℕ) → p ≤ suc n → height (begun (row_after p)) ≤ sl.max_level
  not_too_tall p h = elim (place_cases sl n place row levels member score p h) [
    | inl low ↦
        rw (node_low sl n place row levels member score p low)
          (row.not_too_high p (omega (arith, low, upto)))
    | inr (inl e) ↦
        rw (e, node_self sl n place row levels member score)
          (omega (arith, length-replicate levels no_link, low_enough))
    | inr (inr (m, e, high, hm)) ↦
        rw (e, node_high sl n place row levels member score m high hm) (row.not_too_high m hm)
  ]

  number_after : (p : ℕ) → 0 < p → p ≤ suc n → is_nan ((begun (row_after p)).score) ≡ false
  number_after p lo hi =
      each_node sl n place row levels member score (λ r x. is_nan x.score ≡ false) p lo hi
        (λ q lq hq. row.number q lq (omega (arith, hq, upto))) is_number
        (λ m hm hn. row.number m (omega (arith, hm)) hn)

  pub keeps_IsRow :
      (nodes : ℕ → Node)
      → KeepsData begun nodes
      → ((j : ℕ)
          → j < sl.max_level
          → IsLevel nodes row_after (λ p. height (begun (row_after p))) (suc n) j)
      → IsRow (after nodes) (suc n) row_after
  keeps_IsRow nodes d levels_right =
      let tall : (p : ℕ) → height (nodes (row_after p)) ≡ height (begun (row_after p)) =
        λ p. (d (row_after p)).2 in
      record {
        head =
            insert_low (position sl n place row levels member score) sl.next_addr place 0
              (omega arith)
            ∙ row.head;
        head_height =
            (d 0).2
            ∙ (ap height
                  (rw row.head at (with_new_old sl n place row levels member score 0 (omega arith)))
                ∙ row.head_height);
        some_level = row.some_level;
        counted = rw row.counted one_more;
        few = few;
        room = omega (arith, row.room);
        used = used_after;
        apart = λ p q hp hq e.
            apart_start sl n place row levels member score absent is_number low_enough some_levels
              few p q hp hq e;
        high_enough = λ p lo hi. omega (arith, tall p, tall_enough p lo hi);
        not_too_high = λ p h. omega (arith, tall p, not_too_tall p h);
        sorted = λ p q lo lt hi.
            before-same (begun (row_after p)) (begun (row_after q)) (nodes (row_after p))
              (nodes (row_after q)) (d (row_after p)).0 (d (row_after p)).1 (d (row_after q)).0
              (d (row_after q)).1
              (sorted_start sl n place row levels member score absent is_number low_enough
                some_levels few p q lo lt hi);
        number = λ p lo hi. rw (d (row_after p)).1 (number_after p lo hi);
        levels = λ i h.
            IsLevel-tall nodes nodes row_after (λ p. height (begun (row_after p)))
              (λ p. height (nodes (row_after p))) (suc n) i (λ q _. sym (tall q)) (λ p _. refl)
              (levels_right i h);
        known = λ p lo hi. rw (d (row_after p)).0 (
            known_start sl n place row levels member score absent is_number low_enough some_levels
              few p lo hi);
        listed = λ m a h.
            (let (p, lo, hi, e, is_m) =
                listed_start sl n place row levels member score absent is_number low_enough
                  some_levels few m a h in
              (p, lo, hi, e, (d a).0 ∙ is_m));
      }
