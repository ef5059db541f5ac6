-- ===== src/SkipList/Listing.antt =====
-- The skip list of internal/store/skiplist.go as a sorted list of entries.
use redis_in_go.Prelude.{
  ℕ, zero, suc, ◌+◌, ◌^◌, ◌≤◌, ◌<◌, ◌≡◌, refl, sym, ap, ap₂, ◌∙◌, Bool, true, false, List, [], ◌∷◌,
  none, done, arith, leb, ltb, ◌||◌, ◌&&◌, if◌then◌else◌, length, ◌==◌, Option-cases, Bool-cases,
  inl, inr,
}
use redis_in_go.Text.{Bytes, All, str_eq, str_eq_iff, str_less}
use redis_in_go.Table
use redis_in_go.SkipList.{Node, SkipList, before, determ_node_max_level, insert_new, insert_element}
use redis_in_go.SkipList.Float.{Float64, is_nan, float_less, float_equal}
use redis_in_go.SkipList.Row.{IsRow}
use redis_in_go.SkipList.Insert.{
  new_node, with_new, position, new_row, insert_new_lem, count_before-Splits,
}
use redis_in_go.SkipList.InsertRow.{within, node_low, node_self, node_high}
use redis_in_go.SkipList.Keeps.{keeps_IsRow, after}
use redis_in_go.SkipList.Write.{KeepsData}

abbrev pub Scored : Type 0
Scored = Bytes × Float64

-- by score, then by member
unfoldable pub entry_before : Scored → Scored → Bool
entry_before (m, s) (m', s') = float_less s s' || (float_equal s s' && str_less m m')

-- a sorted list with one more entry
unfoldable pub insert_entry : Scored → List Scored → List Scored
insert_entry x [] = x ∷ []
insert_entry x (e ∷ es) =
    let rest = insert_entry x es in if entry_before e x then e ∷ rest else x ∷ e ∷ es

abbrev pub entry_of : Node → Scored
entry_of x = (x.member, x.score)

-- the entries of `count` places from `i` on
abbrev pub entries : (ℕ → Node) → (ℕ → ℕ) → ℕ → ℕ → List Scored
entries nodes place i zero = []
entries nodes place i (suc count) = entry_of (nodes (place i)) ∷ entries nodes place (suc i) count

length-entries :
    (nodes : ℕ → Node) (place : ℕ → ℕ) (i count : ℕ) → length (entries nodes place i count) ≡ count
length-entries nodes place i zero = refl
length-entries nodes place i (suc count) = ap suc (length-entries nodes place (suc i) count)

-- The nodes of the list hold the entries, in order.
abbrev pub Holds : SkipList → List Scored → Type 0
Holds sl es =
    (place : ℕ → ℕ) × IsRow sl (length es) place × (entries sl.nodes place 1 (length es) ≡ es)

entry_before-before : (x y : Node) → entry_before (entry_of x) (entry_of y) ≡ before x y
unfolding before entry_before
entry_before-before x y = refl

module _ (old now : ℕ → Node) (place place' : ℕ → ℕ) (n k : ℕ) (x : Node)
    (low : (p : ℕ) → p ≤ k → entry_of (now (place' p)) ≡ entry_of (old (place p)))
    (self : entry_of (now (place' (suc k))) ≡ entry_of x)
    (high : (p : ℕ) → k < p → p ≤ n → entry_of (now (place' (suc p))) ≡ entry_of (old (place p)))
    (front : (p : ℕ) → 0 < p → p ≤ k → before (old (place p)) x ≡ true)
    (back : (p : ℕ) → k < p → p ≤ n → before (old (place p)) x ≡ false) where
  entries_shift :
      (i count : ℕ)
      → k < i
      → i + count ≡ suc n
      → entries now place' (suc i) count ≡ entries old place i count
  entries_shift i zero h e = refl
  entries_shift i (suc count) h e =
      ap₂ (λ a more. a ∷ more) (high i h (omega (arith, e)))
        (entries_shift (suc i) count (omega (arith, h)) (omega (arith, e)))

  entries_insert :
      (i count : ℕ)
      → 0 < i
      → i ≤ suc k
      → k ≤ n
      → i + count ≡ suc n
      → entries now place' i (suc count) ≡ insert_entry (entry_of x) (entries old place i count)
  unfolding insert_entry
  entries_insert i zero lo hi kn e =
      let last : i ≡ suc k = omega (arith, hi, kn, e) in rw (last, self) refl
  entries_insert i (suc count) lo hi kn e = elim (Bool-cases (leb i k)) [
    | inl t ↦
        (let test = entry_before-before (old (place i)) x ∙ front i lo (ground (arith, t)) in
          rw (test, low i (ground (arith, t)))
            (ap (λ more. entry_of (old (place i)) ∷ more)
              (entries_insert (suc i) count (omega arith) (ground (arith, t)) kn
                (omega (arith, e)))))
    | inr f ↦
        (let here : i ≡ suc k = ground (arith, f, hi) in
          let test =
            entry_before-before (old (place i)) x ∙ back i (ground (arith, f)) (omega (arith, e)) in
          rw test (
            ap₂ (λ a more. a ∷ more) (ap (λ p. entry_of (now (place' p))) here ∙ self)
              (entries_shift i (suc count) (ground (arith, f)) e)))
  ]

entries-now :
    (nodes nodes' : ℕ → Node) (place : ℕ → ℕ) (i count : ℕ)
    → KeepsData nodes nodes'
    → entries nodes' place i count ≡ entries nodes place i count
entries-now nodes nodes' place i zero d = refl
entries-now nodes nodes' place i (suc count) d =
    ap₂ (λ a more. a ∷ more) (ap₂ (λ m s. (m, s)) (d (place i)).0 (d (place i)).1)
      (entries-now nodes nodes' place (suc i) count d)

pub length-insert_entry :
    (x : Scored) (es : List Scored) → length (insert_entry x es) ≡ suc (length es)
unfolding insert_entry
length-insert_entry x [] = refl
length-insert_entry x (e ∷ es) = ground (arith, length-insert_entry x es)

level_bounds :
    (coins : List Bool) (max level : ℕ)
    → 0 < level
    → level ≤ max
    → (0 < determ_node_max_level coins max level) × (determ_node_max_level coins max level ≤ max)
unfolding determ_node_max_level
level_bounds [] max level lo hi = (lo, hi)
level_bounds (coin ∷ coins) max level lo hi = elim (Bool-cases (coin && ltb level max)) [
  | inl t ↦ rw t (level_bounds coins max (suc level) (omega arith) (ground (arith, t)))
  | inr f ↦ rw f (lo, hi)
]

insert_element_absent :
    (coins : List Bool) (member : Bytes) (score : Float64) (sl : SkipList)
    → Table.get sl.dictionary member ≡ none
    → insert_element coins member score sl
      ≡ insert_new (determ_node_max_level coins sl.max_level 1) member score sl
unfolding insert_element
insert_element_absent coins member score sl h = rw (insert_element, h) refl

-- no entry has the member
abbrev pub IsNew : Bytes → List Scored → Type 0
IsNew member es = All (λ (e : Scored). str_eq e.0 member ≡ false) es

other_than :
    (nodes : ℕ → Node) (place : ℕ → ℕ) (member : Bytes) (i count p : ℕ)
    → IsNew member (entries nodes place i count)
    → i ≤ p
    → p < i + count
    → str_eq ((nodes (place p)).member) member ≡ false
other_than nodes place member i zero p h lo hi = absurd (omega (arith, lo, hi))
other_than nodes place member i (suc count) p h lo hi = elim (Bool-cases (p == i)) [
  | inl t ↦ (let e : p ≡ i = ground (arith, t) in rw e h.0)
  | inr f ↦
      other_than nodes place member (suc i) count p h.1 (ground (arith, f, lo)) (omega (arith, hi))
]

-- The dictionary has the members of the entries only.
pub new-absent :
    (member : Bytes) (sl : SkipList) (es : List Scored)
    → Holds sl es
    → IsNew member es
    → Table.get sl.dictionary member ≡ none
new-absent member sl es (place, row, listed) fresh =
    elim (Option-cases (Table.get sl.dictionary member)) [
      | inl e ↦ e
      | inr (a, e) ↦
          (let (p, lo, hi, here, is_m) = row.listed member a e in
            let differs =
              other_than sl.nodes place member 1 (length es) p (rw (sym listed) at fresh)
                (omega (arith, lo)) (omega (arith, hi)) in
            let same : (sl.nodes (place p)).member ≡ member = rw here at is_m in
            absurd (not_both ((str_eq_iff ((sl.nodes (place p)).member) member).1 same) differs))
    ]
  where
    not_both : {b : Bool} → b ≡ true → ¬ (b ≡ false)
    not_both h k = cc

-- `InsertElement` on a list that holds some entries in order, of a member that none of them has,
-- with a score that is not NaN, returns for any coins: it gives a list that holds the entries with the
-- new one put in front of the first that is not before it. There are fewer than 2^62 entries then.
pub insert_element_lem :
    (coins : List Bool) (member : Bytes) (score : Float64) (sl : SkipList) (es : List Scored)
    → Holds sl es
    → IsNew member es
    → is_nan score ≡ false
    → suc (length es) < 2 ^ 62
    → (sl' : SkipList) × (insert_element coins member score sl ≡ done sl')
      × Holds sl' (insert_entry (member, score) es)
insert_element_lem coins member score sl es (place, row, listed) fresh is_number few =
    let absent = new-absent member sl es (place, row, listed) fresh in
    let n = length es in
    let levels = determ_node_max_level coins sl.max_level 1 in
    let (some_levels, low_enough) =
      level_bounds coins sl.max_level 1 (omega arith) (omega (arith, row.some_level)) in
    let (nodes, e, d, right) = insert_new_lem sl n place row levels member score in
    let x = new_node levels member score in
    let place' = new_row sl n place row levels member score in
    let row' =
      keeps_IsRow sl n place row levels member score absent is_number low_enough some_levels few
        nodes d right in
    let split = count_before-Splits sl n place row x in
    let size = length-insert_entry (member, score) es in
    let whole =
      entries-now (with_new sl n place row levels member score) nodes place' 1 (suc n) d
      ∙ entries_insert sl.nodes (with_new sl n place row levels member score) place place' n
          (position sl n place row levels member score) x
          (λ p h. ap entry_of (node_low sl n place row levels member score p h))
          (ap entry_of (node_self sl n place row levels member score))
          (λ p h hn. ap entry_of (node_high sl n place row levels member score p h hn))
          (λ p lo hi. split.0 p lo hi) (λ p lo hi. split.1 p lo hi) 1 n (omega arith) (omega arith)
          (within sl n place row levels member score) (omega arith)
      ∙ ap (insert_entry (member, score)) listed in
    (
      after sl n place row levels member score absent is_number low_enough some_levels few nodes,
      insert_element_absent coins member score sl absent ∙ e,
      (place', rw size row', rw size whole),
    )
