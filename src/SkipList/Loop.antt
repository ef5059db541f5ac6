-- ===== src/SkipList/Loop.antt =====
-- The loop of `InsertElement` over the levels.
use redis_in_go.Prelude.{
  ℕ, zero, suc, ◌+◌, ◌-◌, ◌^◌, ◌≤◌, ◌<◌, ◌≡◌, ◌≢◌, refl, ap, ◌∙◌, Option, none, some, done, arith,
  ◌==◌, ltb, get_elem?, Bool-cases, inl, inr,
}
use redis_in_go.Prelude.Int.{ℤ, pos}
use redis_in_go.SkipList.{Node, link_level, link_levels, add_int, sub_int}
use redis_in_go.SkipList.Shape.{height, IsLevel}
use redis_in_go.SkipList.Search.{Stops, stops_from, add_int-pos}
use redis_in_go.SkipList.Lookup.{sub_int-pos}
use redis_in_go.SkipList.Splice.{
  insert_at, insert_low, insert_self, Points-on, Points-new, Points-over,
}
use redis_in_go.SkipList.Level.{splice-IsLevel}
use redis_in_go.SkipList.Write.{
  KeepsData-trans, KeepsData, KeepsLevels, new_span, link_level_high, link_level_low,
}

-- A level is right in other nodes with the same pointers on it.
IsLevel-same :
    (nodes nodes' : ℕ → Node) (place tall : ℕ → ℕ) (n i : ℕ)
    → ((a : ℕ) → get_elem? (nodes' a).links i ≡ get_elem? (nodes a).links i)
    → IsLevel nodes place tall n i
    → IsLevel nodes' place tall n i
IsLevel-same nodes nodes' place tall n i same level p h hi =
    let (fw, span, e, points) = level p h hi in (fw, span, same (place p) ∙ e, points)

to_new_span :
    (k q : ℕ) → q ≤ k → k < 2 ^ 62 → add_int (sub_int (pos k) (pos q)) (pos 1) ≡ pos (suc k - q)
to_new_span k q h few =
    let e : k - q + 1 ≡ suc k - q = omega (arith, h) in
    rw (sub_int-pos k q h (omega (arith, few)), add_int-pos (k - q) 1 (omega (arith, few)))
      (ap pos e)

module _ (tall place : ℕ → ℕ) (n k new levels : ℕ) (length : ℤ) (within : k ≤ n) (few : n < 2 ^ 62)
    (fresh : (p : ℕ) → p ≤ n → place p ≢ new)
    (apart : (p q : ℕ) → p ≤ n → q ≤ n → place p ≡ place q → p ≡ q) where
  abbrev old : ℕ → ℕ
  old p = tall (place p)

  abbrev new_place : ℕ → ℕ
  new_place = insert_at k new place

  abbrev now : ℕ → ℕ
  now p = tall (new_place p)

  -- `new_span` of a pointer that leads on
  new_span_lem :
      (q s : ℕ) (span : ℤ) (fw : Option ℕ) (x : ℕ)
      → fw ≡ some x
      → q ≤ k
      → k < s
      → s ≤ n
      → span ≡ pos (s - q)
      → new_span length (pos k) (pos q) span fw ≡ pos (s - k)
  new_span_lem q s span none x e qk ks sn spans = cc
  new_span_lem q s span (some y) x e qk ks sn spans =
      let e : s - q - (k - q) ≡ s - k = omega (arith, qk, ks) in
      rw
        (
          spans,
          sub_int-pos k q qk (omega (arith, few, within)),
          sub_int-pos (s - q) (k - q) (omega (arith, qk, ks)) (omega (arith, few, sn)),
        )
        (ap pos e)

  abbrev RoundOf : ℕ → ℕ → (ℕ → Node) → Type 0
  RoundOf i q nodes =
      (nodes' : ℕ → Node) × (link_level new levels length (pos k) i (place q, pos q) nodes
        ≡ done nodes')
      × KeepsData nodes nodes'
      × KeepsLevels i nodes nodes'
      × IsLevel nodes' new_place now (suc n) i

  round :
      (i q : ℕ) (nodes : ℕ → Node)
      → ((a : ℕ) → height (nodes a) ≡ tall a)
      → tall new ≡ levels
      → Stops old k 0 i q
      → IsLevel nodes place old n i
      → RoundOf i q nodes
  round i q nodes same new_tall (_, qk, high, clear) level =
      let (fw, span, link, points) = level q (omega (arith, qk, within)) high in
      let low : i < height (nodes (place q)) = omega (arith, same (place q), high) in
      let splits = fresh q (omega (arith, qk, within)) in
      elim (Bool-cases (ltb i levels)) [
        | inl t ↦
            (let (nodes', e, (d, l, at_u, others), at_n) =
                link_level_high new levels i (place q) length (pos k) (pos q) span fw nodes splits
                  low link (ground (arith, t)) (ground (arith, t, same new, new_tall)) in
              (
                nodes',
                e,
                d,
                l,
                splice-IsLevel nodes nodes' tall place n k new i within fresh apart q qk high clear
                    others level
                    (
                      some new,
                      add_int (sub_int (pos k) (pos q)) (pos 1),
                      rw (insert_low k new place q qk) at_u,
                      rw (to_new_span k q qk (omega (arith, within, few))) (
                          Points-new tall place n k new i within q qk (ground (arith, t, new_tall))
                            clear),
                    )
                    (λ hi. (
                      fw,
                      new_span length (pos k) (pos q) span fw,
                      rw (insert_self k new place) at_n,
                      Points-on tall place n k new i within q k fw span
                          (new_span length (pos k) (pos q) span fw) (omega arith) qk clear
                          (λ x s e' a b c. new_span_lem q s span fw x e' qk a b c) points,
                    )),
              ))
        | inr f ↦
            (let (nodes', e, (d, l, at_u, others)) =
                link_level_low new levels i (place q) length (pos k) (pos q) span fw nodes splits
                  low link (ground (arith, f)) in
              (
                nodes',
                e,
                d,
                l,
                splice-IsLevel nodes nodes' tall place n k new i within fresh apart q qk high clear
                    others level
                    (
                      fw,
                      add_int span (pos 1),
                      rw (insert_low k new place q qk) at_u,
                      Points-over tall place n k new i within q fw span qk few
                          (ground (arith, f, new_tall)) clear points,
                    )
                    (λ hi. absurd (ground (arith, f, hi, new_tall))),
              ))
      ]

  -- The loop from level `i` on, over `count` levels.
  abbrev pub Rounds : ℕ → ℕ → (ℕ → ℕ) → (ℕ → Node) → Type 0
  Rounds i count q nodes =
      (nodes' : ℕ → Node) × (link_levels new levels length (pos k) i (stops_from place q i count)
          nodes
        ≡ done nodes')
      × KeepsData nodes nodes'
      × ((j : ℕ) → j < i + count → IsLevel nodes' new_place now (suc n) j)

  pub rounds_lem :
      (i count : ℕ) (q : ℕ → ℕ) (nodes : ℕ → Node)
      → ((a : ℕ) → height (nodes a) ≡ tall a)
      → tall new ≡ levels
      → ((j : ℕ) → i ≤ j → j < i + count → Stops old k 0 j (q j))
      → ((j : ℕ) → j < i → IsLevel nodes new_place now (suc n) j)
      → ((j : ℕ) → i ≤ j → j < i + count → IsLevel nodes place old n j)
      → Rounds i count q nodes
  unfolding link_levels
  rounds_lem i zero q nodes same new_tall stops before_i after_i =
      (nodes, refl, (λ b. (refl, refl, refl)), λ j h. before_i j (omega (arith, h)))
  rounds_lem i (suc count) q nodes same new_tall stops before_i after_i =
      let (mid, e, d, l, level) =
        round i (q i) nodes same new_tall (stops i (omega arith) (omega arith))
          (after_i i (omega arith) (omega arith)) in
      let (nodes', e', d', levels') =
        rounds_lem (suc i) count q mid (λ a. (d a).2 ∙ same a) new_tall
          (λ j lo hi. stops j (omega (arith, lo)) (omega (arith, hi)))
          (λ j h. elim (Bool-cases (j == i)) [
            | inl t ↦ (let same_j : j ≡ i = ground (arith, t) in rw same_j level)
            | inr f ↦
                IsLevel-same nodes mid new_place now (suc n) j (λ a. l a j (ground (arith, f)))
                  (before_i j (ground (arith, f, h)))
          ])
          (λ j lo hi.
            IsLevel-same nodes mid place old n j (λ a. l a j (λ s. omega (arith, s, lo)))
              (after_i j (omega (arith, lo)) (omega (arith, hi)))) in
      (
        nodes',
        rw (e, e') refl,
        KeepsData-trans nodes mid nodes' d d',
        λ j h. levels' j (omega (arith, h)),
      )
