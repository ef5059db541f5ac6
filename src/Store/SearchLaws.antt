-- ===== src/Store/SearchLaws.antt =====
-- Proofs about the binary search and the loop over a range of entries in internal/store/store.go.
use redis_in_go.Prelude.{
  ℕ, zero, suc, ◌+◌, ◌-◌, ◌/◌, ◌≤◌, ◌<◌, ◌≡◌, refl, sym, ◌∙◌, Bool, true, false, List, [], ◌∷◌,
  ◌++◌, some, ltb, length, length-append, get_elem?, Bool-cases, inl, inr, arith, ltb→lt,
}
use redis_in_go.Text.{All}
use redis_in_go.Store.{search_from, binary_search}

true-ne-false : ¬ (true ≡ false)
true-ne-false h = cc

ltb-false→le : (i j : ℕ) → ltb i j ≡ false → j ≤ i
ltb-false→le i j h = ground arith

module _ {ℓ} {A : Type ℓ} where
  get_elem?-inside : (xs : List A) (i : ℕ) → i < length xs → (x : A) × (get_elem? xs i ≡ some x)
  get_elem?-inside [] i h = absurd (omega (arith, h))
  get_elem?-inside (x ∷ xs) zero h = (x, refl)
  get_elem?-inside (x ∷ xs) (suc i) h = get_elem?-inside xs i (omega (arith, h))

  -- an element behind `ys` is not before the target, and one in `ys` is
  get_elem?-All :
      (less : A → Bool) (b : Bool) (xs : List A) (i : ℕ) {x : A}
      → All (λ y. less y ≡ b) xs
      → get_elem? xs i ≡ some x
      → less x ≡ b
  get_elem?-All less b [] i h e = cc
  get_elem?-All less b (y ∷ ys) zero (hy, _) e = cc
  get_elem?-All less b (y ∷ ys) (suc i) (_, h) e = get_elem?-All less b ys i h e

  -- the sides of the boundary on which an element before the target, and another one, stand
  before_boundary :
      (less : A → Bool) (ys zs : List A) (i : ℕ) {x : A}
      → All (λ z. less z ≡ false) zs
      → get_elem? (ys ++ zs) i ≡ some x
      → less x ≡ true
      → i < length ys
  before_boundary less [] zs i hz e t =
      absurd (true-ne-false (sym t ∙ get_elem?-All less false zs i hz e))
  before_boundary less (y ∷ ys) zs zero hz e t = omega arith
  before_boundary less (y ∷ ys) zs (suc i) hz e t =
      omega (arith, before_boundary less ys zs i hz e t)

  behind_boundary :
      (less : A → Bool) (ys zs : List A) (i : ℕ) {x : A}
      → All (λ y. less y ≡ true) ys
      → get_elem? (ys ++ zs) i ≡ some x
      → less x ≡ false
      → length ys ≤ i
  behind_boundary less [] zs i hy e f = omega arith
  behind_boundary less (y ∷ ys) zs zero (hy, _) e f = cc
  behind_boundary less (y ∷ ys) zs (suc i) (_, hy) e f =
      omega (arith, behind_boundary less ys zs i hy e f)

  search_from_lem :
      (less : A → Bool) (ys zs : List A) (fuel i j : ℕ)
      → All (λ y. less y ≡ true) ys
      → All (λ z. less z ≡ false) zs
      → i ≤ length ys
      → length ys ≤ j
      → j ≤ length (ys ++ zs)
      → j - i < fuel
      → search_from fuel (ys ++ zs) less i j ≡ length ys
  unfolding search_from
  search_from_lem less ys zs zero i j hy hz low high inside enough = absurd (omega (arith, enough))
  search_from_lem less ys zs (suc fuel) i j hy hz low high inside enough =
      let h = (i + j) / 2 in
      elim (Bool-cases (ltb i j)) [
        | inr f ↦ rw (f) (omega (arith, ltb-false→le i j f))
        | inl t ↦
            (let lt : i < j = ltb→lt i j t in
              let (x, e) = get_elem?-inside (ys ++ zs) h (omega arith) in
              elim (Bool-cases (less x)) [
                | inl before ↦
                    rw (t, e, before)
                      (search_from_lem less ys zs fuel (h + 1) j hy hz
                        (omega (arith, before_boundary less ys zs h hz e before)) high inside
                        (omega arith))
                | inr behind ↦
                    rw (t, e, behind)
                      (search_from_lem less ys zs fuel i h hy hz low
                        (behind_boundary less ys zs h hy e behind) (omega arith) (omega arith))
              ])
      ]

  -- The binary search finds the boundary between the elements before the target and the others.
  pub binary_search_boundary :
      (less : A → Bool) (ys zs : List A)
      → All (λ y. less y ≡ true) ys
      → All (λ z. less z ≡ false) zs
      → binary_search (ys ++ zs) less ≡ length ys
  unfolding binary_search
  binary_search_boundary less ys zs hy hz =
      search_from_lem less ys zs (length (ys ++ zs) + 1) 0 (length (ys ++ zs)) hy hz (omega arith)
        (omega (arith, length-append ys zs)) (omega arith) (omega arith)
