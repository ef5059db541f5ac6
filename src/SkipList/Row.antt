-- ===== src/SkipList/Row.antt =====
-- The invariant of the skip list of internal/store/skiplist.go, and what a search finds under it.
use redis_in_go.Prelude.{
  ℕ, zero, suc, ◌^◌, ◌≤◌, ◌<◌, ◌≡◌, refl, ap, ◌∙◌, Bool, true, false, List, some, done, arith, ltb,
  Bool-cases, inl, inr,
}
use redis_in_go.Prelude.Int.{ℤ, pos}
use redis_in_go.Text.{Bytes}
use redis_in_go.Table
use redis_in_go.SkipList.{Node, SkipList, Place, search, before, lowest}
use redis_in_go.SkipList.Float.{is_nan}
use redis_in_go.SkipList.Shape.{height, IsLevel}
use redis_in_go.SkipList.Search.{Splits, Stops, stops_from, stops_of-from, descend_lem}

-- The nodes stand at the places 1 to `n` in order, the head at place 0.
pub record IsRow (sl : SkipList) (n : ℕ) (place : ℕ → ℕ) : Type 0 where
  pub head : place 0 ≡ 0
  pub head_height : height (sl.nodes 0) ≡ sl.max_level
  pub some_level : 0 < sl.max_level
  pub counted : sl.length ≡ pos n
  pub few : n < 2 ^ 62
  pub room : n < sl.next_addr
  pub used : (p : ℕ) → p ≤ n → place p < sl.next_addr
  pub apart : (p q : ℕ) → p ≤ n → q ≤ n → place p ≡ place q → p ≡ q
  pub high_enough : (p : ℕ) → 0 < p → p ≤ n → 0 < height (sl.nodes (place p))
  pub not_too_high : (p : ℕ) → p ≤ n → height (sl.nodes (place p)) ≤ sl.max_level
  pub sorted :
      (p q : ℕ) → 0 < p → p < q → q ≤ n → before (sl.nodes (place p)) (sl.nodes (place q)) ≡ true
  pub number : (p : ℕ) → 0 < p → p ≤ n → is_nan ((sl.nodes (place p)).score) ≡ false
  pub levels :
      (i : ℕ) → i < sl.max_level → IsLevel sl.nodes place (λ p. height (sl.nodes (place p))) n i
  pub known :
      (p : ℕ) → 0 < p → p ≤ n → Table.get sl.dictionary (sl.nodes (place p)).member ≡ some (place p)
  pub listed :
      (m : Bytes) (a : ℕ)
      → Table.get sl.dictionary m ≡ some a
      → (p : ℕ) × (0 < p) × (p ≤ n) × (a ≡ place p) × ((sl.nodes a).member ≡ m)

module _ (sl : SkipList) (n : ℕ) (place : ℕ → ℕ) (row : IsRow sl n place) where
  abbrev tall : ℕ → ℕ
  tall p = height (sl.nodes (place p))

  pub search_lem :
      (go : ℤ → Node → Bool) (k : ℕ)
      → k ≤ n
      → Splits go sl.nodes place n k
      → (q : ℕ → ℕ) × (search go sl ≡ done (stops_from place q 0 sl.max_level))
        × (q 0 ≡ k)
        × ((i : ℕ) → i < sl.max_level → Stops tall k 0 i (q i))
  unfolding search
  search_lem go k within split =
      let fits : n < 2 ^ 63 = omega (arith, row.few) in
      let top : sl.max_level ≤ tall 0 = rw row.head (omega (arith, row.head_height)) in
      let (q, e, stops) =
        descend_lem go sl.nodes place tall n k within fits split sl.next_addr sl.max_level 0
          row.levels (omega arith) top (omega (arith, within, row.room)) in
      let (a, b, c, gap) = stops 0 row.some_level in
      (
        q,
        rw row.head at e ∙ ap done (stops_of-from place q sl.max_level),
        elim (Bool-cases (ltb (q 0) k)) [
          | inl t ↦ absurd (
              omega (
                arith,
                gap k (ground (arith, t)) (omega arith),
                row.high_enough k (ground (arith, t)) within,
              ))
          | inr f ↦ ground (arith, f, b)
        ],
        stops,
      )

  pub lowest_stop :
      (q : ℕ → ℕ) (levels k : ℕ)
      → 0 < levels
      → q 0 ≡ k
      → lowest (stops_from place q 0 levels) ≡ (place k, pos k)
  unfolding lowest
  lowest_stop q zero k h e = absurd (omega (arith, h))
  lowest_stop q (suc levels) k h e = rw e refl

  -- Where a search stops at last.
  pub search-place :
      (go : ℤ → Node → Bool) (k : ℕ)
      → k ≤ n
      → Splits go sl.nodes place n k
      → (places : List Place) × (search go sl ≡ done places) × (lowest places ≡ (place k, pos k))
  search-place go k within split =
      let (q, e, here, _) = search_lem go k within split in
      (stops_from place q 0 sl.max_level, e, lowest_stop q sl.max_level k row.some_level here)
