-- ===== src/SkipList/Search.antt =====
-- Where the searches of internal/store/skiplist.go stop.
use redis_in_go.Prelude.{
  ℕ, zero, suc, ◌+◌, ◌-◌, ◌^◌, ◌≤◌, ◌<◌, ◌≡◌, refl, ap, ◌∙◌, Bool, true, false, List, [], ◌∷◌, ◌++◌,
  none, some, done, arith, get_elem?, Bool-cases, inl, inr, leb, ◌==◌, if◌then◌else◌,
}
use redis_in_go.Prelude.Int.{ℤ, pos, wrap_int, ◌+ℤ◌}
use redis_in_go.SkipList.{Link, Node, Place, advance, descend, add_int, link_at}
use redis_in_go.SkipList.Shape.{NoneBetween, Linked, IsLevel}

pub add_int-pos : (a b : ℕ) → a + b < 2 ^ 63 → add_int (pos a) (pos b) ≡ pos (a + b)
unfolding wrap_int ◌+ℤ◌
add_int-pos a b h = ground arith

pub link_at-some :
    (x : Node) (i : ℕ) {l : Link} → get_elem? x.links i ≡ some l → link_at x i ≡ done l
unfolding link_at
link_at-some x i h = rw (link_at, h) refl

module _ (go : ℤ → Node → Bool) (nodes : ℕ → Node) where
  advance_end :
      (fuel i curr : ℕ) (rank span : ℤ)
      → get_elem? (nodes curr).links i ≡ some (record { forward = none; span = span })
      → advance go (suc fuel) nodes i (curr, rank) ≡ done (curr, rank)
  unfolding advance
  advance_end fuel i curr rank span h = rw (link_at-some (nodes curr) i h, advance) refl

  advance_step :
      (fuel i curr x : ℕ) (rank span : ℤ)
      → get_elem? (nodes curr).links i ≡ some (record { forward = some x; span = span })
      → go (add_int rank span) (nodes x) ≡ true
      → advance go (suc fuel) nodes i (curr, rank) ≡ advance go fuel nodes i (x, add_int rank span)
  unfolding advance
  advance_step fuel i curr x rank span h g = rw (link_at-some (nodes curr) i h, g, advance) refl

  advance_stop :
      (fuel i curr x : ℕ) (rank span : ℤ)
      → get_elem? (nodes curr).links i ≡ some (record { forward = some x; span = span })
      → go (add_int rank span) (nodes x) ≡ false
      → advance go (suc fuel) nodes i (curr, rank) ≡ done (curr, rank)
  unfolding advance
  advance_stop fuel i curr x rank span h g = rw (link_at-some (nodes curr) i h, g, advance) refl

-- A place `q` where a search from `p` with the last place `k` stops at level `i`.
abbrev pub Stops : (ℕ → ℕ) → ℕ → ℕ → ℕ → ℕ → Type 0
Stops tall k p i q = (p ≤ q) × (q ≤ k) × (i < tall q) × NoneBetween tall q k i

-- The search goes on up to the place `k` and not further.
abbrev pub Splits : (ℤ → Node → Bool) → (ℕ → Node) → (ℕ → ℕ) → ℕ → ℕ → Type 0
Splits go nodes place n k =
    ((q : ℕ) → 0 < q → q ≤ k → go (pos q) (nodes (place q)) ≡ true)
    × ((q : ℕ) → k < q → q ≤ n → go (pos q) (nodes (place q)) ≡ false)

override : (ℕ → ℕ) → ℕ → ℕ → ℕ → ℕ
override q i v j = if j == i then v else q j

override_self : (q : ℕ → ℕ) (i v : ℕ) → override q i v i ≡ v
unfolding override
override_self q i v = ground arith

override_other : (q : ℕ → ℕ) (i v j : ℕ) → j < i → override q i v j ≡ q j
unfolding override
override_other q i v j h = ground (arith, h)

-- The stops of the levels below `levels`, as `descend` collects them.
abbrev pub stops_of : (ℕ → ℕ) → (ℕ → ℕ) → ℕ → List Place
stops_of place q zero = []
stops_of place q (suc levels) = stops_of place q levels ++ (place (q levels), pos (q levels)) ∷ []

-- The same with the lowest level first: `count` levels from `i` on.
abbrev pub stops_from : (ℕ → ℕ) → (ℕ → ℕ) → ℕ → ℕ → List Place
stops_from place q i zero = []
stops_from place q i (suc count) = (place (q i), pos (q i)) ∷ stops_from place q (suc i) count

stops_from-snoc :
    (place q : ℕ → ℕ) (i count j : ℕ)
    → j ≡ i + count
    → stops_from place q i count ++ (place (q j), pos (q j)) ∷ [] ≡ stops_from place q i (suc count)
stops_from-snoc place q i zero j h = let e : j ≡ i = omega (arith, h) in rw e refl
stops_from-snoc place q i (suc count) j h =
    rw (stops_from-snoc place q (suc i) count j (omega (arith, h))) refl

pub stops_of-from :
    (place q : ℕ → ℕ) (levels : ℕ) → stops_of place q levels ≡ stops_from place q 0 levels
stops_of-from place q zero = refl
stops_of-from place q (suc levels) =
    rw (stops_of-from place q levels) (stops_from-snoc place q 0 levels levels (omega arith))

stops_of-cong :
    (place q r : ℕ → ℕ) (levels : ℕ)
    → ((i : ℕ) → i < levels → q i ≡ r i)
    → stops_of place q levels ≡ stops_of place r levels
stops_of-cong place q r zero h = refl
stops_of-cong place q r (suc levels) h =
    rw (stops_of-cong place q r levels (λ i lt. h i (omega (arith, lt))), h levels (omega arith))
      refl

rank_step : (p q : ℕ) → p < q → q < 2 ^ 63 → add_int (pos p) (pos (q - p)) ≡ pos q
rank_step p q h fits =
    let e : p + (q - p) ≡ q = omega arith in add_int-pos p (q - p) (omega arith) ∙ ap pos e

module _ (go : ℤ → Node → Bool) (nodes : ℕ → Node) (place tall : ℕ → ℕ) (n k : ℕ) (within : k ≤ n)
    (fits : n < 2 ^ 63) (split : Splits go nodes place n k) where
  abbrev Arrives : ℕ → ℕ → ℕ → Type 0
  Arrives fuel i p =
      (q : ℕ) × (advance go fuel nodes i (place p, pos p) ≡ done (place q, pos q))
      × Stops tall k p i q

  arrive :
      (fuel i p : ℕ)
      → p ≤ k
      → i < tall p
      → ((q : ℕ) → p < q → q ≤ k → i < tall q → Arrives fuel i q)
      → Linked nodes place tall n p i
      → Arrives (suc fuel) i p
  arrive fuel i p hp hi ih (none, span, e, gap) = (
    p,
    advance_end go nodes fuel i (place p) (pos p) span e,
    (omega arith, hp, hi, λ r lt le. gap r lt (omega (arith, within, le))),
  )
  arrive fuel i p hp hi ih (some x, span, e, (q, lt, le, here, spans, tall_q, gap)) =
      let to : ◌≡◌ {A = Place} (x, add_int (pos p) span) (place q, pos q) =
        rw (here, spans, rank_step p q lt (omega (arith, le, fits))) refl in
      let test : go (add_int (pos p) span) (nodes x) ≡ go (pos q) (nodes (place q)) =
        ap (λ (c : Place). go c.1 (nodes c.0)) to in
      elim (Bool-cases (leb q k)) [
        | inl t ↦
            (let (q', e', (a, b, c, d)) = ih q lt (ground (arith, t)) tall_q in
              (
                q',
                advance_step go nodes fuel i (place p) x (pos p) span e
                      (test ∙ split.0 q (omega (arith, lt)) (ground (arith, t)))
                    ∙ (ap (advance go fuel nodes i) to ∙ e'),
                (omega (arith, a, lt), b, c, d),
              ))
        | inr f ↦ (
          p,
          advance_stop go nodes fuel i (place p) x (pos p) span e
              (test ∙ split.1 q (ground (arith, f)) le),
          (omega arith, hp, hi, λ r after upto. gap r after (ground (arith, f, upto))),
        )
      ]

  advance_lem :
      (fuel i p : ℕ)
      → IsLevel nodes place tall n i
      → p ≤ k
      → i < tall p
      → k - p < fuel
      → Arrives fuel i p
  advance_lem zero i p level hp hi enough = absurd (omega (arith, enough))
  advance_lem (suc fuel) i p level hp hi enough =
      arrive fuel i p hp hi
        (λ q lt le hq. advance_lem fuel i q level le hq (omega (arith, enough, lt, le)))
        (level p (omega (arith, hp, within)) hi)

  abbrev pub Descends : ℕ → ℕ → ℕ → Type 0
  Descends fuel levels p =
      (q : ℕ → ℕ) × (descend go fuel nodes levels (place p, pos p) ≡ done (stops_of place q levels))
      × ((i : ℕ) → i < levels → Stops tall k p i (q i))

  descend_step :
      (fuel levels p q : ℕ)
      → advance go fuel nodes levels (place p, pos p) ≡ done (place q, pos q)
      → Stops tall k p levels q
      → Descends fuel levels q
      → Descends fuel (suc levels) p
  unfolding descend
  descend_step fuel levels p q e s (q', e', low) =
      let r : ℕ → ℕ = override q' levels q in
      let same = stops_of-cong place r q' levels (λ i h. override_other q' levels q i h) in
      (
        r,
        rw (e, e', same, override_self q' levels q) refl,
        λ i h. elim (Bool-cases (i == levels)) [
          | inl t ↦ (let j : i ≡ levels = ground (arith, t) in rw (j, override_self q' levels q) s)
          | inr f ↦
              (let less : i < levels = ground (arith, f, h) in
                let (a, b, c, d) = low i less in
                rw (override_other q' levels q i less) (omega (arith, a, s.0), b, c, d))
        ],
      )

  pub descend_lem :
      (fuel levels p : ℕ)
      → ((i : ℕ) → i < levels → IsLevel nodes place tall n i)
      → p ≤ k
      → levels ≤ tall p
      → k < fuel
      → Descends fuel levels p
  unfolding descend
  descend_lem fuel zero p level hp hl enough = ((λ i. 0), refl, λ i h. absurd (omega (arith, h)))
  descend_lem fuel (suc levels) p level hp hl enough =
      let (q, e, (a, b, c, d)) =
        advance_lem fuel levels p (level levels (omega arith)) hp (omega (arith, hl))
          (omega (arith, enough)) in
      descend_step fuel levels p q e (a, b, c, d)
        (descend_lem fuel levels q (λ i h. level i (omega (arith, h))) b (omega (arith, c)) enough)
