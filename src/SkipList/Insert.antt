-- ===== src/SkipList/Insert.antt =====
-- `InsertElement` on a row of nodes.
use redis_in_go.Prelude.{
  ℕ, zero, suc, ◌≤◌, ◌<◌, ◌≡◌, ◌≢◌, refl, sym, ap, ◌∙◌, true, false, Option, none, some, done,
  arith, ◌==◌, if◌then◌else◌, get_elem?, replicate, length-replicate, Bool-cases, inl, inr,
}
use redis_in_go.Prelude.Int.{ℤ, pos}
use redis_in_go.Text.{Bytes}
use redis_in_go.Table
use redis_in_go.SkipList.{Node, SkipList, set_node, no_link, before, insert_new, add_int}
use redis_in_go.SkipList.Float.{Float64}
use redis_in_go.SkipList.Order.{before_trans}
use redis_in_go.SkipList.Shape.{height, Points, IsLevel}
use redis_in_go.SkipList.Search.{Splits, Stops}
use redis_in_go.SkipList.Row.{IsRow, search_lem, lowest_stop}
use redis_in_go.SkipList.Splice.{insert_at}
use redis_in_go.SkipList.Write.{KeepsData}
use redis_in_go.SkipList.Loop.{rounds_lem}

abbrev pub new_node : ℕ → Bytes → Float64 → Node
new_node levels member score = record {
  member = member;
  score = score;
  links = replicate levels no_link;
}

set_node_here : (a : ℕ) (x : Node) (nodes : ℕ → Node) → set_node a x nodes a ≡ x
set_node_here a x nodes = let test : (a == a) ≡ true = ground arith in rw test refl

set_node_there : (a b : ℕ) (x : Node) (nodes : ℕ → Node) → a ≢ b → set_node a x nodes b ≡ nodes b
set_node_there a b x nodes ne = let test : (a == b) ≡ false = ground (arith, ne) in rw test refl

-- How many of the first `n` nodes stand in front of a node.
abbrev pub count_before : (ℕ → Node) → (ℕ → ℕ) → Node → ℕ → ℕ
count_before nodes place x zero = 0
count_before nodes place x (suc m) =
    if before (nodes (place (suc m))) x then suc m else count_before nodes place x m

module _ (sl : SkipList) (n : ℕ) (place : ℕ → ℕ) (row : IsRow sl n place) (x : Node) where
  pub count_before_le : (m : ℕ) → count_before sl.nodes place x m ≤ m
  count_before_le zero = omega arith
  count_before_le (suc m) = elim (Bool-cases (before (sl.nodes (place (suc m))) x)) [
    | inl t ↦ rw t (omega arith)
    | inr f ↦ rw f (omega (arith, count_before_le m))
  ]

  count_before-true :
      (m q : ℕ)
      → m ≤ n
      → 0 < q
      → q ≤ count_before sl.nodes place x m
      → before (sl.nodes (place q)) x ≡ true
  count_before-true zero q hm lo hi = absurd (omega (arith, lo, hi))
  count_before-true (suc m) q hm lo hi = elim (Bool-cases (before (sl.nodes (place (suc m))) x)) [
    | inl t ↦
        (let upto : q ≤ suc m = rw t at hi in
          elim (Bool-cases (q == suc m)) [
            | inl a ↦ (let e : q ≡ suc m = ground (arith, a) in rw e t)
            | inr b ↦
                before_trans (sl.nodes (place q)) (sl.nodes (place (suc m))) x
                  (row.sorted q (suc m) lo (ground (arith, b, upto)) hm) t
          ])
    | inr f ↦ count_before-true m q (omega (arith, hm)) lo (rw f at hi)
  ]

  count_before-false :
      (m q : ℕ)
      → count_before sl.nodes place x m < q
      → q ≤ m
      → before (sl.nodes (place q)) x ≡ false
  count_before-false zero q lo hi = absurd (omega (arith, lo, hi))
  count_before-false (suc m) q lo hi = elim (Bool-cases (before (sl.nodes (place (suc m))) x)) [
    | inl t ↦ (let above : suc m < q = rw t at lo in absurd (omega (arith, above, hi)))
    | inr f ↦ elim (Bool-cases (q == suc m)) [
      | inl a ↦ (let e : q ≡ suc m = ground (arith, a) in rw e f)
      | inr b ↦ count_before-false m q (rw f at lo) (ground (arith, b, hi))
    ]
  ]

  pub count_before-Splits :
      Splits (λ rank next. before next x) sl.nodes place n (count_before sl.nodes place x n)
  count_before-Splits = (
    λ q lo hi. count_before-true n q (omega arith) lo hi,
    λ q lo hi. count_before-false n q lo hi,
  )

-- Heights that agree up to place `n`.
Points-tall :
    (place t t' : ℕ → ℕ) (n p i : ℕ) (fw : Option ℕ) (span : ℤ)
    → ((q : ℕ) → q ≤ n → t q ≡ t' q)
    → Points place t n p i fw span
    → Points place t' n p i fw span
Points-tall place t t' n p i none span same gap = λ r a b. omega (arith, gap r a b, same r b)
Points-tall place t t' n p i (some x) span same (s, ps, sn, here, spans, tall_s, gap) = (
  s,
  ps,
  sn,
  here,
  spans,
  omega (arith, tall_s, same s sn),
  λ r a b. omega (arith, gap r a b, same r (omega (arith, b, sn))),
)

pub IsLevel-tall :
    (nodes nodes' : ℕ → Node) (place t t' : ℕ → ℕ) (n i : ℕ)
    → ((q : ℕ) → q ≤ n → t q ≡ t' q)
    → ((p : ℕ) → p ≤ n → get_elem? (nodes' (place p)).links i ≡ get_elem? (nodes (place p)).links i)
    → IsLevel nodes place t n i
    → IsLevel nodes' place t' n i
IsLevel-tall nodes nodes' place t t' n i same links level p h hi =
    let (fw, span, e, points) = level p h (omega (arith, hi, same p h)) in
    (fw, span, links p h ∙ e, Points-tall place t t' n p i fw span same points)

Stops-tall :
    (t t' : ℕ → ℕ) (n k i q : ℕ)
    → k ≤ n
    → ((r : ℕ) → r ≤ n → t r ≡ t' r)
    → Stops t k 0 i q
    → Stops t' k 0 i q
Stops-tall t t' n k i q within same (a, b, c, d) = (
  a,
  b,
  omega (arith, c, same q (omega (arith, b, within))),
  λ r lo hi. omega (arith, d r lo hi, same r (omega (arith, hi, within))),
)

-- The nodes behind the loop of `InsertElement`, from the search on.
module _ (sl : SkipList) (n : ℕ) (place : ℕ → ℕ) (row : IsRow sl n place) (levels : ℕ)
    (member : Bytes) (score : Float64) where
  abbrev pub with_new : ℕ → Node
  with_new = set_node sl.next_addr (new_node levels member score) sl.nodes

  abbrev pub position : ℕ
  position = count_before sl.nodes place (new_node levels member score) n

  abbrev pub new_row : ℕ → ℕ
  new_row = insert_at position sl.next_addr place

  pub not_new : (p : ℕ) → p ≤ n → place p ≢ sl.next_addr
  not_new p h e = omega (arith, row.used p h, e)

  pub with_new_old : (p : ℕ) → p ≤ n → with_new (place p) ≡ sl.nodes (place p)
  with_new_old p h =
      set_node_there sl.next_addr (place p) (new_node levels member score) sl.nodes
        (λ e. not_new p h (sym e))

  pub with_new_self : with_new sl.next_addr ≡ new_node levels member score
  with_new_self = set_node_here sl.next_addr (new_node levels member score) sl.nodes

  pub insert_new_lem :
      (nodes : ℕ → Node) × (insert_new levels member score sl
        ≡ done (record sl {
          nodes = nodes;
          next_addr = suc sl.next_addr;
          length = add_int sl.length (pos 1);
          dictionary = Table.put sl.dictionary member sl.next_addr;
        }))
      × KeepsData with_new nodes
      × ((j : ℕ)
          → j < sl.max_level
          → IsLevel nodes new_row (λ p. height (with_new (new_row p))) (suc n) j)
  unfolding insert_new
  insert_new_lem =
      let x = new_node levels member score in
      let within = count_before_le sl n place row x n in
      let same : (q : ℕ) → q ≤ n → height (sl.nodes (place q)) ≡ height (with_new (place q)) =
        λ q h. ap height (sym (with_new_old q h)) in
      let (q, e, here, stops) =
        search_lem sl n place row (λ rank next. before next x) position within
          (count_before-Splits sl n place row x) in
      let (nodes, e', d, done_levels) =
        rounds_lem (λ a. height (with_new a)) place n position sl.next_addr levels
          (add_int sl.length (pos 1)) within row.few not_new row.apart 0 sl.max_level q with_new
          (λ a. refl) (ap height with_new_self ∙ length-replicate levels no_link)
          (λ j lo hi. Stops-tall _ _ n position j (q j) within same (stops j (omega (arith, hi))))
          (λ j h. absurd (omega (arith, h)))
          (λ j lo hi.
            IsLevel-tall sl.nodes with_new place _ _ n j same
              (λ p h. ap (λ (y : Node). get_elem? y.links j) (with_new_old p h))
              (row.levels j (omega (arith, hi)))) in
      let low = lowest_stop sl n place row q sl.max_level position row.some_level here in
      (nodes, rw (insert_new, e, low, e') refl, d, λ j h. done_levels j (omega (arith, h)))
