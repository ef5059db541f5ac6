-- ===== src/SortedSets/Ranges.antt =====
-- What ZRANGE answers.
use redis_in_go.Prelude.{
  ℕ, zero, suc, ◌+◌, ◌-◌, ◌^◌, ◌≤◌, ◌<◌, ◌≡◌, refl, sym, ap, ◌∙◌, ◌⊎◌, true, false, List, [], ◌∷◌,
  none, some, done, arith, ltb, if◌then◌else◌, length, take, drop, Bool-cases, inl, inr,
}
use redis_in_go.Prelude.Int.{pos, ltb_ℤ, leb_ℤ}
use redis_in_go.Text.{Bytes}
use redis_in_go.SkipList.{SkipList, Node}
use redis_in_go.SkipList.Row.{IsRow}
use redis_in_go.SkipList.Search.{link_at-some}
use redis_in_go.SkipList.Lookup.{sub_int-pos, next_place, some_height, get_element_lem}
use redis_in_go.SkipList.Listing.{Scored, entries, Holds}
use redis_in_go.SortedSets.{range_in, collect_members}

abbrev pub members : List Scored → List Bytes
members [] = []
members ((m, s) ∷ es) = m ∷ members es

module _ (sl : SkipList) (n : ℕ) (place : ℕ → ℕ) (row : IsRow sl n place) where
  -- the loop from a place on, with `left` places to come
  collect_lem :
      (count left p : ℕ)
      → 0 < p
      → p + left ≡ suc n
      → collect_members count sl.nodes (if ltb (p - 1) n then some (place p) else none)
        ≡ done (take count (members (entries sl.nodes place p left)))
  unfolding collect_members
  collect_lem zero left p lo e = refl
  collect_lem (suc count) zero p lo e =
      let test : ltb (p - 1) n ≡ false = ground (arith, e) in rw test refl
  collect_lem (suc count) (suc left) p lo e =
      let test : ltb (p - 1) n ≡ true = ground (arith, e, lo) in
      let here : p ≤ n = omega (arith, e) in
      let (fw, span, link, points) =
        row.levels 0 row.some_level p here (some_height sl n place row p here) in
      let to = next_place sl n place row p fw span here points in
      let minus : suc p - 1 ≡ p = omega arith in
      let rest = collect_lem count left (suc p) (omega arith) (omega (arith, e)) in
      rw (test, link_at-some (sl.nodes (place p)) 0 link, to, rw minus at rest) refl

drop-entries :
    (nodes : ℕ → Node) (place : ℕ → ℕ) (i skip count whole : ℕ)
    → whole ≡ skip + count
    → drop skip (members (entries nodes place i whole))
      ≡ members (entries nodes place (i + skip) count)
drop-entries nodes place i zero count whole e =
    let same : whole ≡ count = omega (arith, e) in
    let at : i + 0 ≡ i = omega arith in rw (same, at) refl
drop-entries nodes place i (suc skip) count zero e = absurd (omega (arith, e))
drop-entries nodes place i (suc skip) count (suc whole) e =
    let at : i + suc skip ≡ suc i + skip = omega arith in
    rw at (drop-entries nodes place (suc i) skip count whole (omega (arith, e)))

-- all of a list, however much more is asked for
take_all {ℓ} :
    {A : Type ℓ} (a b : ℕ) (xs : List A) → length xs ≤ a → length xs ≤ b → take a xs ≡ take b xs
take_all zero zero [] h k = refl
take_all zero (suc b) [] h k = refl
take_all (suc a) zero [] h k = refl
take_all (suc a) (suc b) [] h k = refl
take_all zero b (x ∷ xs) h k = absurd (omega (arith, h))
take_all (suc a) zero (x ∷ xs) h k = absurd (omega (arith, k))
take_all (suc a) (suc b) (x ∷ xs) h k =
    ap (λ more. x ∷ more) (take_all a b xs (omega (arith, h)) (omega (arith, k)))

length-members :
    (nodes : ℕ → Node) (place : ℕ → ℕ) (i count : ℕ)
    → length (members (entries nodes place i count)) ≡ count
length-members nodes place i zero = refl
length-members nodes place i (suc count) = ap suc (length-members nodes place (suc i) count)

module _ (sl : SkipList) (es : List Scored) (holds : Holds sl es) (start stop : ℕ)
    (order : start ≤ stop) (inside : start < length es) where
  rest_of :
      drop start (members es) ≡ members (entries sl.nodes holds.0 (suc start) (length es - start))
  rest_of =
      let at : 1 + start ≡ suc start = omega arith in
      ap (λ x. drop start (members x)) (sym holds.2)
      ∙ drop-entries sl.nodes holds.0 1 start (length es - start) (length es)
          (omega (arith, inside))
      ∙ ap (λ p. members (entries sl.nodes holds.0 p (length es - start))) at

  same_take :
      (last : ℕ)
      → (last ≡ stop) ⊎ ((length es ≤ stop) × (last + 1 ≡ length es))
      → take (suc (last - start)) (drop start (members es))
        ≡ take (suc (stop - start)) (drop start (members es))
  same_take last (inl e) = ap (λ x. take (suc (x - start)) (drop start (members es))) e
  same_take last (inr (long, e)) =
      let size : length (drop start (members es)) ≡ length es - start =
        ap length rest_of ∙ length-members sl.nodes holds.0 (suc start) (length es - start) in
      take_all (suc (last - start)) (suc (stop - start)) (drop start (members es))
        (omega (arith, size, e, inside)) (omega (arith, size, long, inside))

  -- the loop takes what is asked for
  collected :
      (last : ℕ)
      → (last ≡ stop) ⊎ ((length es ≤ stop) × (last + 1 ≡ length es))
      → collect_members
          (suc (last - start))
          sl.nodes
          (if ltb (start + 1) (length es) then some (holds.0 (start + 1)) else none)
        ≡ done (
            if ltb (start + 1) (length es)
            then take (suc (stop - start)) (drop start (members es))
            else [])
  unfolding collect_members
  collected last cases = elim (Bool-cases (ltb (start + 1) (length es))) [
    | inr f ↦ rw f refl
    | inl t ↦
        (let test : ltb (start + 1 - 1) (length es) ≡ true = ground (arith, inside) in
          let at : start + 1 ≡ suc start = omega arith in
          let run =
            collect_lem sl (length es) holds.0 holds.1 (suc (last - start)) (length es - start)
              (start + 1) (omega arith) (omega (arith, inside)) in
          let all = drop start (members es) in
          let rest : members (entries sl.nodes holds.0 (start + 1) (length es - start)) ≡ all =
            rw at (sym rest_of) in
          rw t
            (rw test at run ∙ ap done (ap (take (suc (last - start))) rest ∙ same_take last cases)))
  ]

  -- ZRANGE from one index to another, neither negative, with the first inside the set and not behind the
  -- second, which is below 2^62: on a set that holds some entries in order it returns the members of that
  -- slice, cut off at the end of the set, but nothing if it starts at the last entry.
  pub range_in_lem :
      stop < 2 ^ 62
      → range_in (pos start) (pos stop) sl
        ≡ done (
            if ltb (start + 1) (length es)
            then take (suc (stop - start)) (drop start (members es))
            else [])
  unfolding range_in
  range_in_lem few =
      let forward : ltb_ℤ (pos stop) (pos start) ≡ false = ground (arith, order) in
      let within : leb_ℤ (pos (length es)) (pos start) ≡ false = ground (arith, inside) in
      let first =
        get_element_lem sl (length es) holds.0 holds.1 start (omega (arith, order, few)) in
      elim (Bool-cases (ltb (length es) stop)) [
        | inl t ↦
            (let test : ltb_ℤ (pos (length es)) (pos stop) ≡ true = ground (arith, t) in
              let one =
                sub_int-pos (length es) 1 (omega (arith, inside)) (omega (arith, holds.1.few)) in
              let diff =
                sub_int-pos (length es - 1) start (omega (arith, inside))
                  (omega (arith, holds.1.few)) in
              rw (range_in, first, holds.1.counted, forward, within, test, one, diff)
                (collected (length es - 1) (inr (ground (arith, t), omega (arith, inside)))))
        | inr f ↦
            (let test : ltb_ℤ (pos (length es)) (pos stop) ≡ false = ground (arith, f) in
              let diff = sub_int-pos stop start order (omega (arith, few)) in
              rw (range_in, first, holds.1.counted, forward, within, test, diff)
                (collected stop (inl refl)))
      ]
