-- ===== src/SkipList/Lookup.antt =====
-- `FindElementRank`, `GetElement` and `FirstGE` of internal/store/skiplist.go.
use redis_in_go.Prelude.{
  ℕ, zero, suc, ◌+◌, ◌-◌, ◌^◌, ◌≤◌, ◌<◌, ◌≡◌, refl, ap, true, false, Option, none, some, done,
  arith, ◌==◌, ◌||◌, ltb, if◌then◌else◌, Bool-cases, inl, inr,
}
use redis_in_go.Prelude.Int.{ℤ, pos, wrap_int, ◌-ℤ◌, leb_ℤ, ltb_ℤ}
use redis_in_go.Text.{str_eq_refl, str_eq_iff, str_less_irrefl, str_less_trans}
use redis_in_go.SkipList.{
  Node, SkipList, before, not_after, lowest, find_element_rank, get_element, first_ge, sub_int,
  add_int,
}
use redis_in_go.SkipList.Float.{Float64, is_nan, float_less, float_equal}
use redis_in_go.SkipList.Shape.{height, Points}
use redis_in_go.SkipList.Search.{add_int-pos, link_at-some}
use redis_in_go.SkipList.Row.{IsRow, search-place}

pub sub_int-pos : (a b : ℕ) → b ≤ a → a < 2 ^ 63 → sub_int (pos a) (pos b) ≡ pos (a - b)
unfolding wrap_int ◌-ℤ◌
sub_int-pos a b h k = ground arith

not_after-before : (a b : Node) → before a b ≡ true → not_after a b ≡ true
unfolding before not_after
not_after-before a b h = ground (arith, h)

not_after_self : (a : Node) → is_nan a.score ≡ false → not_after a a ≡ true
unfolding not_after float_less float_equal is_nan
not_after_self a h = ground (arith, h, str_eq_refl a.member)

before-not_after : (a b : Node) → before a b ≡ true → not_after b a ≡ false
unfolding before not_after float_less float_equal is_nan
before-not_after a b h = ground (
  arith,
  h,
  str_eq_iff b.member a.member,
  str_less_irrefl a.member,
  str_less_trans a.member b.member a.member,
)

module _ (sl : SkipList) (n : ℕ) (place : ℕ → ℕ) (row : IsRow sl n place) where
  pub find_element_rank_lem :
      (p : ℕ)
      → 0 < p
      → p ≤ n
      → find_element_rank ((sl.nodes (place p)).member) sl ≡ done (pos (p - 1))
  unfolding find_element_rank lowest
  find_element_rank_lem p hp hn =
      let (places, e, low) =
        search-place sl n place row (λ rank next. not_after next (sl.nodes (place p))) p hn
          (
            λ i lo hi. elim (Bool-cases (i == p)) [
              | inl t ↦
                  (let same : i ≡ p = ground (arith, t) in
                    rw same (not_after_self (sl.nodes (place p)) (row.number p hp hn)))
              | inr f ↦
                  not_after-before (sl.nodes (place i)) (sl.nodes (place p))
                    (row.sorted i p lo (ground (arith, f, hi)) hn)
            ],
            λ i lo hi.
                before-not_after (sl.nodes (place p)) (sl.nodes (place i))
                  (row.sorted p i hp lo hi),
          ) in
      rw (find_element_rank, row.known p hp hn, e, low)
        (ap done (sub_int-pos p 1 hp (omega (arith, row.few, hn))))

  pub get_element_lem :
      (rank : ℕ)
      → rank < 2 ^ 62
      → get_element (pos rank) sl
        ≡ done (if ltb (rank + 1) n then some (place (rank + 1)) else none)
  unfolding get_element
  get_element_lem rank h =
      let next : add_int (pos rank) (pos 1) ≡ pos (rank + 1) =
        add_int-pos rank 1 (omega (arith, h)) in
      elim (Bool-cases (ltb (rank + 1) n)) [
        | inl t ↦
            (let (places, e, low) =
                search-place sl n place row (λ passed x. leb_ℤ passed (pos (rank + 1))) (rank + 1)
                  (ground (arith, t))
                  ((λ i lo hi. ground (arith, hi)), λ i lo hi. ground (arith, lo)) in
              let test : (ltb_ℤ (pos (rank + 1)) (pos 0) || leb_ℤ (pos n) (pos (rank + 1)))
                  ≡ false =
                ground (arith, t) in
              rw (get_element, next, row.counted, test, e, low, t) refl)
        | inr f ↦
            (let test : (ltb_ℤ (pos (rank + 1)) (pos 0) || leb_ℤ (pos n) (pos (rank + 1))) ≡ true =
                ground (arith, f) in
              rw (get_element, next, row.counted, test, f) refl)
      ]

  pub some_height : (p : ℕ) → p ≤ n → 0 < height (sl.nodes (place p))
  some_height zero h = rw row.head (omega (arith, row.head_height, row.some_level))
  some_height (suc p) h = row.high_enough (suc p) (omega arith) h

  -- At level 0 a pointer leads to the next place.
  pub next_place :
      (k : ℕ) (fw : Option ℕ) (span : ℤ)
      → k ≤ n
      → Points place (λ p. height (sl.nodes (place p))) n k 0 fw span
      → fw ≡ (if ltb k n then some (place (suc k)) else none)
  next_place k none span h gap = elim (Bool-cases (ltb k n)) [
    | inl t ↦ absurd (
        omega (
          arith,
          gap (suc k) (omega arith) (ground (arith, t)),
          some_height (suc k) (ground (arith, t)),
        ))
    | inr f ↦ rw f refl
  ]
  next_place k (some x) span h (q, lt, le, here, _, _, gap) = elim (Bool-cases (ltb (suc k) q)) [
    | inl t ↦ absurd (
        omega (
          arith,
          gap (suc k) (omega arith) (ground (arith, t)),
          some_height (suc k) (ground (arith, t, le)),
        ))
    | inr f ↦
        (let same : q ≡ suc k = ground (arith, f, lt) in
          let inside : ltb k n ≡ true = ground (arith, lt, le) in rw (here, same, inside) refl)
  ]

  -- `FirstGE` returns the node behind those with a lower score, which stand in front of the others.
  pub first_ge_lem :
      (score : Float64) (k : ℕ)
      → k ≤ n
      → ((i : ℕ) → 0 < i → i ≤ k → float_less ((sl.nodes (place i)).score) score ≡ true)
      → ((i : ℕ) → k < i → i ≤ n → float_less ((sl.nodes (place i)).score) score ≡ false)
      → first_ge score sl ≡ done (if ltb k n then some (place (suc k)) else none)
  unfolding first_ge
  first_ge_lem score k within lower others =
      let (places, e, low) =
        search-place sl n place row (λ rank next. float_less next.score score) k within
          (lower, others) in
      let (fw, span, link, points) = row.levels 0 row.some_level k within (some_height k within) in
      rw (first_ge, e, low, link_at-some (sl.nodes (place k)) 0 link)
        (ap done (next_place k fw span within points))
