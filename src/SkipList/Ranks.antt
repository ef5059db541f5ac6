-- ===== src/SkipList/Ranks.antt =====
-- What the skip list of internal/store/skiplist.go tells of a sorted list of entries.
use mathlib.Core.Option
use redis_in_go.Prelude.{
  ℕ, zero, suc, ◌+◌, ◌-◌, ◌≤◌, ◌<◌, ◌≡◌, refl, sym, ap, ◌∙◌, List, [], ◌∷◌, ◌++◌, none, some, done,
  ◌>>=◌, arith, ltb, if◌then◌else◌, length, length-append, replicate, get_elem?, Bool-cases, inl,
  inr,
}
use redis_in_go.Prelude.Int.{pos}
use redis_in_go.Table
use redis_in_go.SkipList.{Node, SkipList, new_skip_list, find_element_rank, get_element, no_link}
use redis_in_go.SkipList.Lookup.{find_element_rank_lem, get_element_lem}
use redis_in_go.SkipList.Listing.{Scored, entry_of, entries, Holds}

get_elem?-replicate {ℓ} :
    {A : Type ℓ} (n i : ℕ) (a : A) → i < n → get_elem? (replicate n a) i ≡ some a
get_elem?-replicate zero i a h = absurd (omega (arith, h))
get_elem?-replicate (suc n) zero a h = refl
get_elem?-replicate (suc n) (suc i) a h = get_elem?-replicate n i a (omega (arith, h))

abbrev head_only : ℕ → ℕ
head_only p = 0

pub new_skip_list-Holds : Holds new_skip_list []
unfolding new_skip_list Table.get
new_skip_list-Holds = (
  head_only,
  record {
    head = refl;
    head_height = refl;
    some_level = omega arith;
    counted = refl;
    few = omega arith;
    room = omega arith;
    used = λ p h. omega arith;
    apart = λ p q hp hq e. omega (arith, hp, hq);
    high_enough = λ p lo hi. absurd (omega (arith, lo, hi));
    not_too_high = λ p h. omega arith;
    sorted = λ p q lo lt hi. absurd (omega (arith, lo, lt, hi));
    number = λ p lo hi. absurd (omega (arith, lo, hi));
    levels = λ i hi p hp tall.
        (none, pos 0, get_elem?-replicate 32 i no_link hi, λ r a b. absurd (omega (arith, a, b)));
    known = λ p lo hi. absurd (omega (arith, lo, hi));
    listed = λ m a h. absurd (none-not-some h);
  },
  refl,
)
  where
    none-not-some : {a : ℕ} → ¬ (none ≡ some a)
    none-not-some h = cc

-- the entry at a place
entry_at :
    (nodes : ℕ → Node) (place : ℕ → ℕ) (i count : ℕ) (front back : List Scored) (e : Scored)
    → entries nodes place i count ≡ front ++ e ∷ back
    → entry_of (nodes (place (i + length front))) ≡ e
entry_at nodes place i zero [] back e h = cc
entry_at nodes place i zero (x ∷ front) back e h = cc
entry_at nodes place i (suc count) [] back e h = let same : i + 0 ≡ i = omega arith in rw same (cc)
entry_at nodes place i (suc count) (x ∷ front) back e h =
    let same : i + suc (length front) ≡ suc i + length front = omega arith in
    rw same (entry_at nodes place (suc i) count front back e cc)

module _ (sl : SkipList) (front back : List Scored) (e : Scored)
    (holds : Holds sl (front ++ e ∷ back)) where
  place_of :
      (1 + length front ≤ length (front ++ e ∷ back))
      × (entry_of (sl.nodes (holds.0 (1 + length front))) ≡ e)
  place_of = (
    omega (arith, length-append front (e ∷ back)),
    entry_at sl.nodes holds.0 1 (length (front ++ e ∷ back)) front back e holds.2,
  )

  -- `FindElementRank` of the member of an entry that a list holds returns the number of entries in front
  -- of it.
  pub rank_of_member : find_element_rank e.0 sl ≡ done (pos (length front))
  rank_of_member =
      let (here, at_place) = place_of in
      let n : 1 + length front - 1 ≡ length front = omega arith in
      let rank =
        find_element_rank_lem sl (length (front ++ e ∷ back)) holds.0 holds.1 (1 + length front)
          (omega arith) here in
      ap (λ m. find_element_rank m sl) (sym (ap (λ (x : Scored). x.0) at_place))
      ∙ (rank ∙ ap (λ r. done (pos r)) n)

  pub member_known : (a : ℕ) × (Table.get sl.dictionary e.0 ≡ some a)
  member_known =
      let (here, at_place) = place_of in
      (
        holds.0 (1 + length front),
        ap (Table.get sl.dictionary) (sym (ap (λ (x : Scored). x.0) at_place))
            ∙ holds.1.known (1 + length front) (omega arith) here,
      )

  -- `GetElement` of the number of entries in front of an entry that a list holds returns the node of that
  -- entry, unless it is the last one: for the last entry it returns nil.
  pub element_of_rank :
      (get_element (pos (length front)) sl >>= λ found.
      done (Option.map (λ a. entry_of (sl.nodes a)) found))
      ≡ done (if ltb (length front + 1) (length (front ++ e ∷ back)) then some e else none)
  element_of_rank =
      let n = length (front ++ e ∷ back) in
      let (here, at_place) = place_of in
      let next : length front + 1 ≡ 1 + length front = omega arith in
      let found =
        get_element_lem sl n holds.0 holds.1 (length front) (omega (arith, here, holds.1.few)) in
      elim (Bool-cases (ltb (length front + 1) n)) [
        | inl t ↦ rw (found, t) (ap (λ x. done (some x)) (rw next at_place))
        | inr f ↦ rw (found, f) refl
      ]
