-- ===== src/SkipList/Splice.antt =====
-- A row with one more node: what becomes of the pointers of one level.
use redis_in_go.Prelude.{
  ℕ, suc, ◌+◌, ◌-◌, ◌^◌, ◌≤◌, ◌<◌, ◌≡◌, refl, sym, ap, false, ◌∙◌, Option, none, some, arith, ◌==◌,
  leb, if◌then◌else◌, Bool-cases, inl, inr,
}
use redis_in_go.Prelude.Int.{ℤ, pos}
use redis_in_go.SkipList.{add_int}
use redis_in_go.SkipList.Shape.{NoneBetween, Points}
use redis_in_go.SkipList.Search.{add_int-pos}

-- The node `new` behind the place `k`.
unfoldable pub insert_at : ℕ → ℕ → (ℕ → ℕ) → ℕ → ℕ
insert_at k new place p = if leb p k then place p else if p == suc k then new else place (p - 1)

module _ (k new : ℕ) (place : ℕ → ℕ) where
  pub insert_low : (p : ℕ) → p ≤ k → insert_at k new place p ≡ place p
  unfolding insert_at
  insert_low p h = ground (arith, h)

  pub insert_self : insert_at k new place (suc k) ≡ new
  unfolding insert_at
  insert_self = ground arith

  pub insert_high : (p : ℕ) → k < p → insert_at k new place (suc p) ≡ place p
  unfolding insert_at
  insert_high p h =
      let e : suc p - 1 ≡ p = omega arith in
      let a : leb (suc p) k ≡ false = ground (arith, h) in
      let b : (suc p == suc k) ≡ false = ground (arith, h) in rw (a, b, e) refl

-- `tall a` is the height of the node at the address `a`.
module _ (tall : ℕ → ℕ) (place : ℕ → ℕ) (n k new i : ℕ) (within : k ≤ n) where
  abbrev old : ℕ → ℕ
  old p = tall (place p)

  abbrev new_place : ℕ → ℕ
  new_place = insert_at k new place

  abbrev now : ℕ → ℕ
  now p = tall (new_place p)

  now_bound :
      (r : ℕ)
      → (r ≤ k → old r ≤ i)
      → (r ≡ suc k → tall new ≤ i)
      → ((s : ℕ) → r ≡ suc s → k < s → old s ≤ i)
      → now r ≤ i
  now_bound r low self high = elim (Bool-cases (leb r k)) [
    | inl t ↦ rw (insert_low k new place r (ground (arith, t))) (low (ground (arith, t)))
    | inr f ↦ elim (Bool-cases (r == suc k)) [
      | inl t ↦ (let e : r ≡ suc k = ground (arith, t) in rw (e, insert_self k new place) (self e))
      | inr g ↦
          (let e : r ≡ suc (r - 1) = ground (arith, f) in
            let less : k < r - 1 = ground (arith, f, g) in
            rw (e, insert_high k new place (r - 1) less) (high (r - 1) e less))
    ]
  ]

  beyond : (p m s : ℕ) → NoneBetween old p m i → p < s → i < old s → m < s
  beyond p m s clear ps tall_s = ground (arith, clear s ps, tall_s)

  -- in front of a high enough node at place `q`
  pub Points-before :
      (p q : ℕ) (fw : Option ℕ) (span : ℤ)
      → p < q
      → q ≤ k
      → i < old q
      → Points place old n p i fw span
      → Points new_place now (suc n) p i fw span
  Points-before p q none span lt le high gap =
      absurd (omega (arith, gap q lt (omega (arith, within, le)), high))
  Points-before p q (some x) span lt le high (s, ps, sn, here, spans, tall_s, gap) =
      let near : s ≤ q = ground (arith, gap q lt, high) in
      let low : s ≤ k = omega (arith, near, le) in
      (
        s,
        ps,
        omega (arith, sn),
        here ∙ sym (insert_low k new place s low),
        spans,
        rw (insert_low k new place s low) tall_s,
        λ r a b. rw (insert_low k new place r (omega (arith, b, low))) (gap r a b),
      )

  -- what stands in front of the new node does not matter behind it
  bound_behind :
      (p r : ℕ) → k ≤ p → suc p < r → ((s : ℕ) → r ≡ suc s → k < s → old s ≤ i) → now r ≤ i
  bound_behind p r lt h high =
      now_bound r (λ a. absurd (omega (arith, lt, h, a))) (λ a. absurd (omega (arith, lt, h, a)))
        high

  -- behind the new node, from a pointer at place `p` that is read at place `suc m`
  pub Points-on :
      (p m : ℕ) (fw : Option ℕ) (span span' : ℤ)
      → k ≤ m
      → p ≤ m
      → NoneBetween old p m i
      → ((x s : ℕ) → fw ≡ some x → m < s → s ≤ n → span ≡ pos (s - p) → span' ≡ pos (s - m))
      → Points place old n p i fw span
      → Points new_place now (suc n) (suc m) i fw span'
  Points-on p m none span span' km pm clear turns gap = λ r a b.
      bound_behind m r km a (λ s e after. gap s (omega (arith, e, a, pm)) (omega (arith, e, b)))
  Points-on p m (some x) span span' km pm clear turns (s, ps, sn, here, spans, tall_s, gap) =
      let after : m < s = beyond p m s clear ps tall_s in
      let high : k < s = omega (arith, after, km) in
      let e : s - m ≡ suc s - suc m = omega arith in
      (
        suc s,
        omega (arith, after),
        omega (arith, sn),
        here ∙ sym (insert_high k new place s high),
        turns x s refl after sn spans ∙ ap pos e,
        rw (insert_high k new place s high) tall_s,
        λ r a b.
            bound_behind m r km a
              (λ t e' after'. gap t (omega (arith, e', a, pm)) (omega (arith, e', b))),
      )

  -- the pointer to the new node, at place `q`
  pub Points-new :
      (q : ℕ)
      → q ≤ k
      → i < tall new
      → NoneBetween old q k i
      → Points new_place now (suc n) q i (some new) (pos (suc k - q))
  Points-new q le high clear = (
    suc k,
    omega (arith, le),
    omega (arith, within),
    sym (insert_self k new place),
    refl,
    rw (insert_self k new place) high,
    λ r a b. rw (insert_low k new place r (omega (arith, b))) (clear r a (omega (arith, b))),
  )

  -- a pointer over a new node that is too low, at place `q`
  pub Points-over :
      (q : ℕ) (fw : Option ℕ) (span : ℤ)
      → q ≤ k
      → n < 2 ^ 62
      → tall new ≤ i
      → NoneBetween old q k i
      → Points place old n q i fw span
      → Points new_place now (suc n) q i fw (add_int span (pos 1))
  Points-over q none span le few low clear gap = λ r a b.
      now_bound r (λ c. clear r a c) (λ c. low)
        (λ s e after. gap s (omega (arith, after, le)) (omega (arith, e, b)))
  Points-over q (some x) span le few low clear (s, ps, sn, here, spans, tall_s, gap) =
      let after : k < s = beyond q k s clear ps tall_s in
      let sum : add_int (pos (s - q)) (pos 1) ≡ pos (s - q + 1) =
        add_int-pos (s - q) 1 (omega (arith, few, sn)) in
      let e : s - q + 1 ≡ suc s - q = omega (arith, ps) in
      (
        suc s,
        omega (arith, ps),
        omega (arith, sn),
        here ∙ sym (insert_high k new place s after),
        rw (spans, sum) (ap pos e),
        rw (insert_high k new place s after) tall_s,
        λ r a b.
            now_bound r (λ c. clear r a c) (λ c. low)
              (λ t e' after'. gap t (omega (arith, after', le)) (omega (arith, e', b))),
      )
