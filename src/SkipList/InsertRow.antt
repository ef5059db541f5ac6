-- ===== src/SkipList/InsertRow.antt =====
-- `InsertElement` keeps the row of nodes.
use redis_in_go.Prelude.{
  ℕ, suc, ◌-◌, ◌^◌, ◌≤◌, ◌<◌, ◌≡◌, ◌⊎◌, refl, sym, ap, ◌∙◌, true, false, none, some, arith, ◌==◌,
  leb, Bool-cases, inl, inr,
}
use redis_in_go.Text.{Bytes, str_eq, str_eq_iff}
use redis_in_go.Table
use redis_in_go.SkipList.{Node, SkipList, before}
use redis_in_go.SkipList.Float.{Float64, is_nan}
use redis_in_go.SkipList.Order.{before_total}
use redis_in_go.SkipList.Row.{IsRow}
use redis_in_go.SkipList.Splice.{insert_low, insert_self, insert_high}
use redis_in_go.SkipList.Insert.{
  new_node, with_new, position, new_row, not_new, with_new_old, with_new_self, count_before_le,
  count_before-Splits,
}

pub before-same :
    (a b a' b' : Node)
    → a'.member ≡ a.member
    → a'.score ≡ a.score
    → b'.member ≡ b.member
    → b'.score ≡ b.score
    → before a b ≡ true
    → before a' b' ≡ true
unfolding before
before-same a b a' b' ma sa mb sb h = rw (ma, sa, mb, sb) h

some_injective : {a b : ℕ} → some a ≡ some b → a ≡ b
some_injective h = cc

some-not-none : {a : ℕ} → ¬ (some a ≡ none)
some-not-none h = cc

str_eq_swap : (s t : Bytes) → str_eq s t ≡ false → str_eq t s ≡ false
str_eq_swap s t h = ground (arith, h, str_eq_iff s t, str_eq_iff t s)

module _ (sl : SkipList) (n : ℕ) (place : ℕ → ℕ) (row : IsRow sl n place) (levels : ℕ)
    (member : Bytes) (score : Float64) where
  abbrev k : ℕ
  k = position sl n place row levels member score

  abbrev place' : ℕ → ℕ
  place' = new_row sl n place row levels member score

  abbrev start : ℕ → Node
  start = with_new sl n place row levels member score

  pub within : k ≤ n
  within = count_before_le sl n place row (new_node levels member score) n

  -- The place in the new row: in front of the new node, its own, or behind it.
  pub place_cases :
      (p : ℕ) → p ≤ suc n → (p ≤ k) ⊎ ((p ≡ suc k) ⊎ ((m : ℕ) × (p ≡ suc m) × (k < m) × (m ≤ n)))
  place_cases p h = elim (Bool-cases (leb p k)) [
    | inl t ↦ inl (ground (arith, t))
    | inr f ↦ elim (Bool-cases (p == suc k)) [
      | inl t ↦ inr (inl (ground (arith, t)))
      | inr g ↦ inr (inr (p - 1, ground (arith, f), ground (arith, f, g), omega (arith, h)))
    ]
  ]

  pub node_low : (p : ℕ) → p ≤ k → start (place' p) ≡ sl.nodes (place p)
  node_low p h =
      rw (insert_low k sl.next_addr place p h)
        (with_new_old sl n place row levels member score p (omega (arith, h, within)))

  pub node_self : start (place' (suc k)) ≡ new_node levels member score
  node_self =
      rw (insert_self k sl.next_addr place) (with_new_self sl n place row levels member score)

  pub node_high : (m : ℕ) → k < m → m ≤ n → start (place' (suc m)) ≡ sl.nodes (place m)
  node_high m h hn =
      rw (insert_high k sl.next_addr place m h)
        (with_new_old sl n place row levels member score m hn)

  -- What holds of the old nodes and of the new one holds of every node of the new row.
  pub each_node :
      (P : ℕ → Node → Type 0) (p : ℕ)
      → 0 < p
      → p ≤ suc n
      → ((q : ℕ) → 0 < q → q ≤ k → P q (sl.nodes (place q)))
      → P (suc k) (new_node levels member score)
      → ((m : ℕ) → k < m → m ≤ n → P (suc m) (sl.nodes (place m)))
      → P p (start (place' p))
  each_node P p lo hi low self high = elim (place_cases p hi) [
    | inl h ↦ rw (node_low p h) (low p lo h)
    | inr (inl e) ↦ rw (e, node_self) self
    | inr (inr (m, e, h, hm)) ↦ rw (e, node_high m h hm) (high m h hm)
  ]

  module _ (absent : Table.get sl.dictionary member ≡ none) (is_number : is_nan score ≡ false)
      (low_enough : levels ≤ sl.max_level) (some_levels : 0 < levels) (few : suc n < 2 ^ 62) where
    -- the member stands in no old node
    other_member : (p : ℕ) → 0 < p → p ≤ n → str_eq ((sl.nodes (place p)).member) member ≡ false
    other_member p lo hi = elim (Bool-cases (str_eq ((sl.nodes (place p)).member) member)) [
      | inl t ↦ absurd (
          some-not-none (
            sym (row.known p lo hi)
            ∙ (ap (Table.get sl.dictionary) ((str_eq_iff ((sl.nodes (place p)).member) member).0 t)
                ∙ absent)))
      | inr f ↦ f
    ]

    pub sorted_start :
        (p q : ℕ) → 0 < p → p < q → q ≤ suc n → before (start (place' p)) (start (place' q)) ≡ true
    sorted_start p q lo lt hi =
        let x = new_node levels member score in
        let split = count_before-Splits sl n place row x in
        each_node (λ r node. r < q → before node (start (place' q)) ≡ true) p lo
          (omega (arith, lt, hi))
          (λ i li hk less.
            each_node (λ r node. i < r → before (sl.nodes (place i)) node ≡ true) q
              (omega (arith, lo, lt)) hi
              (λ j lj hj more. row.sorted i j li more (omega (arith, hj, within)))
              (λ more. split.0 i li hk)
              (λ m hm hn more. row.sorted i m li (omega (arith, hk, hm)) hn) less)
          (λ less.
            each_node (λ r node. suc k < r → before x node ≡ true) q (omega (arith, lo, lt)) hi
              (λ j lj hj more. absurd (omega (arith, hj, more)))
              (λ more. absurd (omega (arith, more)))
              (λ m hm hn more.
                before_total (sl.nodes (place m)) x (row.number m (omega (arith, hm)) hn) is_number
                  (other_member m (omega (arith, hm)) hn) (split.1 m hm hn))
              less)
          (λ i hi' hn less.
            each_node (λ r node. suc i < r → before (sl.nodes (place i)) node ≡ true) q
              (omega (arith, lo, lt)) hi (λ j lj hj more. absurd (omega (arith, hj, hi', more)))
              (λ more. absurd (omega (arith, more, hi')))
              (λ m hm hm' more. row.sorted i m (omega (arith, hi')) (omega (arith, more)) hm') less)
          lt

    pub known_start :
        (p : ℕ)
        → 0 < p
        → p ≤ suc n
        → Table.get (Table.put sl.dictionary member sl.next_addr) ((start (place' p)).member)
          ≡ some (place' p)
    known_start p lo hi =
        let dictionary = Table.put sl.dictionary member sl.next_addr in
        let old_member : (q : ℕ)
            → 0 < q
            → q ≤ n
            → Table.get dictionary ((sl.nodes (place q)).member) ≡ some (place q) =
          λ q lq hq.
            Table.get-put_ne sl.dictionary member ((sl.nodes (place q)).member) sl.next_addr
              (str_eq_swap ((sl.nodes (place q)).member) member (other_member q lq hq))
            ∙ row.known q lq hq in
        each_node (λ r node. Table.get dictionary node.member ≡ some (place' r)) p lo hi
          (λ q lq hq.
            old_member q lq (omega (arith, hq, within))
            ∙ ap some (sym (insert_low k sl.next_addr place q hq)))
          (Table.get-put_self sl.dictionary member sl.next_addr
            ∙ ap some (sym (insert_self k sl.next_addr place)))
          (λ m hm hn.
            old_member m (omega (arith, hm)) hn
            ∙ ap some (sym (insert_high k sl.next_addr place m hm)))

    -- the place of an old node in the new row
    moved : (q : ℕ) → q ≤ n → (p : ℕ) × (q ≤ p) × (p ≤ suc n) × (place q ≡ place' p)
    moved q hq = elim (Bool-cases (leb q k)) [
      | inl t ↦ (
        q,
        omega arith,
        omega (arith, hq),
        sym (insert_low k sl.next_addr place q (ground (arith, t))),
      )
      | inr f ↦ (
        suc q,
        omega arith,
        omega (arith, hq),
        sym (insert_high k sl.next_addr place q (ground (arith, f))),
      )
    ]

    pub listed_start :
        (m : Bytes) (a : ℕ)
        → Table.get (Table.put sl.dictionary member sl.next_addr) m ≡ some a
        → (p : ℕ) × (0 < p) × (p ≤ suc n) × (a ≡ place' p) × ((start a).member ≡ m)
    listed_start m a h = elim (Bool-cases (str_eq member m)) [
      | inl t ↦
          (let same : member ≡ m = (str_eq_iff member m).0 t in
            let here : sl.next_addr ≡ a = some_injective (
              sym (Table.get-put_self sl.dictionary member sl.next_addr)
              ∙ (ap (Table.get (Table.put sl.dictionary member sl.next_addr)) same ∙ h)) in
            (
              suc k,
              omega arith,
              omega (arith, within),
              sym here ∙ sym (insert_self k sl.next_addr place),
              rw (sym here, with_new_self sl n place row levels member score) same,
            ))
      | inr f ↦
          (let (q, lo, hi, e, is_m) =
              row.listed m a (rw (Table.get-put_ne sl.dictionary member m sl.next_addr f) at h) in
            let (p, le, hp, e') = moved q hi in
            (
              p,
              omega (arith, lo, le),
              hp,
              e ∙ e',
              rw (e, with_new_old sl n place row levels member score q hi) (rw e at is_m),
            ))
    ]

    -- the address at a place of the new row
    Address : ℕ → ℕ → Type 0
    Address p a =
        ((p ≡ suc k) × (a ≡ sl.next_addr))
        ⊎ ((m : ℕ) × (m ≤ n) × (a ≡ place m) × ((p ≡ m) × (m ≤ k) ⊎ (p ≡ suc m) × (k < m)))

    address : (p : ℕ) → p ≤ suc n → Address p (place' p)
    unfolding Address
    address p h = elim (place_cases p h) [
      | inl low ↦
          inr
            (p, omega (arith, low, within), insert_low k sl.next_addr place p low, inl (refl, low))
      | inr (inl e) ↦ inl (e, rw e (insert_self k sl.next_addr place))
      | inr (inr (m, e, high, hm)) ↦
          inr (m, hm, rw e (insert_high k sl.next_addr place m high), inr (e, high))
    ]

    same-Address : (p q a : ℕ) → Address p a → Address q a → p ≡ q
    unfolding Address
    same-Address p q a (inl (e, _)) (inl (e', _)) = e ∙ sym e'
    same-Address p q a (inl (_, new)) (inr (m, hm, here, _)) =
        absurd (not_new sl n place row levels member score m hm (sym here ∙ new))
    same-Address p q a (inr (m, hm, here, _)) (inl (_, new)) =
        absurd (not_new sl n place row levels member score m hm (sym here ∙ new))
    same-Address p q a (inr (m, hm, here, where_p)) (inr (m', hm', here', where_q)) =
        let e : m ≡ m' = row.apart m m' hm hm' (sym here ∙ here') in
        ground (arith, e, where_p, where_q)

    pub apart_start : (p q : ℕ) → p ≤ suc n → q ≤ suc n → place' p ≡ place' q → p ≡ q
    apart_start p q hp hq e = same-Address p q (place' q) (rw e at (address p hp)) (address q hq)
