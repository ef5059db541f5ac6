-- ===== src/SkipList/Level.antt =====
-- One level of the skip list with one more node.
use redis_in_go.Prelude.{
  ℕ, suc, ◌-◌, ◌≤◌, ◌<◌, ◌≡◌, ◌≢◌, ap, ◌∙◌, Option, arith, ◌==◌, leb, ltb, get_elem?, Bool-cases,
  inl, inr,
}
use redis_in_go.SkipList.{Link, Node}
use redis_in_go.SkipList.Shape.{NoneBetween, Linked, IsLevel}
use redis_in_go.SkipList.Splice.{
  insert_at, insert_low, insert_self, insert_high, Points-before, Points-on,
}

module _ (nodes nodes' : ℕ → Node) (tall place : ℕ → ℕ) (n k new i : ℕ) (within : k ≤ n)
    (fresh : (p : ℕ) → p ≤ n → place p ≢ new)
    (apart : (p q : ℕ) → p ≤ n → q ≤ n → place p ≡ place q → p ≡ q) (q : ℕ) (le : q ≤ k)
    (high : i < tall (place q)) (clear : NoneBetween (λ p. tall (place p)) q k i)
    (others : (a : ℕ)
      → a ≢ place q
      → a ≢ new
      → get_elem? (nodes' a).links i ≡ get_elem? (nodes a).links i) where
  abbrev new_place : ℕ → ℕ
  new_place = insert_at k new place

  abbrev now : ℕ → ℕ
  now p = tall (new_place p)

  kept :
      (m : ℕ) {l : Option Link}
      → m ≤ n
      → m ≢ q
      → get_elem? (nodes (place m)).links i ≡ l
      → get_elem? (nodes' (place m)).links i ≡ l
  kept m h ne e =
      others (place m) (λ same. ne (apart m q h (omega (arith, le, within)) same)) (fresh m h) ∙ e

  before_q :
      (p : ℕ)
      → p < q
      → Linked nodes place (λ r. tall (place r)) n p i
      → Linked nodes' new_place now (suc n) p i
  before_q p lt (fw, span, e, points) = (
    fw,
    span,
    rw (insert_low k new place p (omega (arith, lt, le)))
        (kept p (omega (arith, lt, le, within)) (λ same. omega (arith, same, lt)) e),
    Points-before tall place n k new i within p q fw span lt le high points,
  )

  behind_new :
      (m : ℕ)
      → k < m
      → m ≤ n
      → Linked nodes place (λ r. tall (place r)) n m i
      → Linked nodes' new_place now (suc n) (suc m) i
  behind_new m lt h (fw, span, e, points) = (
    fw,
    span,
    rw (insert_high k new place m lt) (kept m h (λ same. omega (arith, same, lt, le)) e),
    Points-on tall place n k new i within m m fw span span (omega (arith, lt)) (omega arith)
        (λ r a b. absurd (omega (arith, a, b))) (λ x s e a b same. same) points,
  )

  pub splice-IsLevel :
      IsLevel nodes place (λ r. tall (place r)) n i
      → Linked nodes' new_place now (suc n) q i
      → (i < tall new → Linked nodes' new_place now (suc n) (suc k) i)
      → IsLevel nodes' new_place now (suc n) i
  splice-IsLevel level at_q at_new p h hi = elim (Bool-cases (leb p k)) [
    | inl t ↦
        (let low : now p ≡ tall (place p) =
            ap tall (insert_low k new place p (ground (arith, t))) in
          elim (Bool-cases (ltb p q)) [
            | inl a ↦
                before_q p (ground (arith, a)) (level p (ground (arith, t, within)) (rw low at hi))
            | inr b ↦ elim (Bool-cases (p == q)) [
              | inl c ↦ (let e : p ≡ q = ground (arith, c) in rw e at_q)
              | inr d ↦
                  absurd
                    (omega (arith, clear p (ground (arith, b, d)) (ground (arith, t)), hi, low))
            ]
          ])
    | inr f ↦ elim (Bool-cases (p == suc k)) [
      | inl t ↦
          (let e : p ≡ suc k = ground (arith, t) in
            rw e (at_new (rw (e, insert_self k new place) at hi)))
      | inr g ↦
          (let e : p ≡ suc (p - 1) = ground (arith, f) in
            let less : k < p - 1 = ground (arith, f, g) in
            rw e (
              behind_new (p - 1) less (omega (arith, h)) (
                level (p - 1) (omega (arith, h))
                  (rw (e, insert_high k new place (p - 1) less) at hi))))
    ]
  ]
