-- ===== src/SkipList/Write.antt =====
-- What a write to one pointer of the skip list changes, and what a round of the loop of
-- `InsertElement` writes.
use redis_in_go.Prelude.{
  ℕ, ◌≤◌, ◌<◌, ◌≡◌, ◌≢◌, refl, sym, ap, ◌∙◌, true, false, Option, none, some, done, arith, ◌==◌,
  ltb, get_elem?, set, Bool-cases, inl, inr, length-set, get_elem?-set_self, get_elem?-set_ne,
}
use redis_in_go.Prelude.Int.{ℤ, pos}
use redis_in_go.SkipList.{Link, Node, set_link, link_level, sub_int, add_int}
use redis_in_go.SkipList.Shape.{height}
use redis_in_go.SkipList.Search.{link_at-some}

-- members, scores and heights stay
abbrev pub KeepsData : (ℕ → Node) → (ℕ → Node) → Type 0
KeepsData nodes nodes' =
    (b : ℕ)
    → ((nodes' b).member ≡ (nodes b).member)
      × ((nodes' b).score ≡ (nodes b).score)
      × (height (nodes' b) ≡ height (nodes b))

-- the pointers of other levels than `i` stay
abbrev pub KeepsLevels : ℕ → (ℕ → Node) → (ℕ → Node) → Type 0
KeepsLevels i nodes nodes' =
    (b j : ℕ) → j ≢ i → get_elem? (nodes' b).links j ≡ get_elem? (nodes b).links j

module _ (a i : ℕ) (l : Link) (nodes : ℕ → Node) where
  set_link_here :
      (b : ℕ)
      → a ≡ b
      → set_link a i l nodes b ≡ record (nodes a) { links = set (nodes a).links i l }
  unfolding set_link
  set_link_here b e = let test : (a == b) ≡ true = ground (arith, e) in rw (set_link, test) refl

  set_link_there : (b : ℕ) → a ≢ b → set_link a i l nodes b ≡ nodes b
  unfolding set_link
  set_link_there b ne = let test : (a == b) ≡ false = ground (arith, ne) in rw (set_link, test) refl

  pub set_link-KeepsData : KeepsData nodes (set_link a i l nodes)
  set_link-KeepsData b = elim (Bool-cases (a == b)) [
    | inl t ↦
        (let e : a ≡ b = ground (arith, t) in
          let here = set_link_here b e in
          (
            ap Node.member here ∙ ap (λ c. (nodes c).member) e,
            ap Node.score here ∙ ap (λ c. (nodes c).score) e,
            ap height here ∙ (length-set (nodes a).links i l ∙ ap (λ c. height (nodes c)) e),
          ))
    | inr f ↦
        (let there = set_link_there b (ground (arith, f)) in
          (ap Node.member there, ap Node.score there, ap height there))
  ]

  pub set_link-KeepsLevels : KeepsLevels i nodes (set_link a i l nodes)
  set_link-KeepsLevels b j ne = elim (Bool-cases (a == b)) [
    | inl t ↦
        (let e : a ≡ b = ground (arith, t) in
          ap (λ (x : Node). get_elem? x.links j) (set_link_here b e)
          ∙ (get_elem?-set_ne (nodes a).links l (λ same. ne (sym same))
              ∙ ap (λ c. get_elem? (nodes c).links j) e))
    | inr f ↦ ap (λ (x : Node). get_elem? x.links j) (set_link_there b (ground (arith, f)))
  ]

  pub set_link_self : i < height (nodes a) → get_elem? (set_link a i l nodes a).links i ≡ some l
  set_link_self h =
      ap (λ (x : Node). get_elem? x.links i) (set_link_here a refl)
      ∙ get_elem?-set_self (nodes a).links i l h

  pub set_link_other :
      (b : ℕ) → a ≢ b → get_elem? (set_link a i l nodes b).links i ≡ get_elem? (nodes b).links i
  set_link_other b ne = ap (λ (x : Node). get_elem? x.links i) (set_link_there b ne)

pub KeepsData-trans : (x y z : ℕ → Node) → KeepsData x y → KeepsData y z → KeepsData x z
KeepsData-trans x y z f g b =
    let (m, s, h) = f b in let (m', s', h') = g b in (m' ∙ m, s' ∙ s, h' ∙ h)

KeepsLevels-trans :
    (i : ℕ) (x y z : ℕ → Node) → KeepsLevels i x y → KeepsLevels i y z → KeepsLevels i x z
KeepsLevels-trans i x y z f g b j ne = g b j ne ∙ f b j ne

-- A round of the loop, for a new node that is high enough: `u` is where the search has stopped.
abbrev pub Written : ℕ → ℕ → (ℕ → Node) → (ℕ → Node) → ℕ → Link → Type 0
Written n i nodes nodes' u l =
    KeepsData nodes nodes'
    × KeepsLevels i nodes nodes'
    × (get_elem? (nodes' u).links i ≡ some l)
    × ((a : ℕ) → a ≢ u → a ≢ n → get_elem? (nodes' a).links i ≡ get_elem? (nodes a).links i)

-- the span of the new node
abbrev pub new_span : ℤ → ℤ → ℤ → ℤ → Option ℕ → ℤ
new_span length rank0 r span fw =
    let s : ℤ = elim fw [ none ↦ sub_int (add_int length (pos 1)) r | some x ↦ span ] in
    sub_int s (sub_int rank0 r)

-- the pointer to it
abbrev pub to_new : ℕ → ℤ → ℤ → Link
to_new n rank0 r = record { forward = some n; span = add_int (sub_int rank0 r) (pos 1) }

module _ (n tall i u : ℕ) (length rank0 r span : ℤ) (fw : Option ℕ) (nodes : ℕ → Node)
    (apart : u ≢ n) (low : i < height (nodes u))
    (link : get_elem? (nodes u).links i ≡ some (record { forward = fw; span = span })) where
  pub link_level_high :
      i < tall
      → i < height (nodes n)
      → (nodes' : ℕ → Node) × (link_level n tall length rank0 i (u, r) nodes ≡ done nodes')
        × Written n i nodes nodes' u (to_new n rank0 r)
        × (get_elem? (nodes' n).links i
            ≡ some (record { forward = fw; span = new_span length rank0 r span fw }))
  unfolding link_level
  link_level_high h hn =
      let test : ltb i tall ≡ true = ground (arith, h) in
      let l : Link = record { forward = fw; span = new_span length rank0 r span fw } in
      let mid = set_link n i l nodes in
      let nodes' = set_link u i (to_new n rank0 r) mid in
      let d1 = set_link-KeepsData n i l nodes in
      let d2 = set_link-KeepsData u i (to_new n rank0 r) mid in
      let l1 = set_link-KeepsLevels n i l nodes in
      let l2 = set_link-KeepsLevels u i (to_new n rank0 r) mid in
      (
        nodes',
        rw (link_level, link_at-some (nodes u) i link, test) refl,
        (
          KeepsData-trans nodes mid nodes' d1 d2,
          KeepsLevels-trans i nodes mid nodes' l1 l2,
          set_link_self u i (to_new n rank0 r) mid (omega (arith, (d1 u).2, low)),
          λ a nu nn.
              set_link_other u i (to_new n rank0 r) mid a (λ e. nu (sym e))
              ∙ set_link_other n i l nodes a (λ e. nn (sym e)),
        ),
        set_link_other u i (to_new n rank0 r) mid n apart ∙ set_link_self n i l nodes hn,
      )

  pub link_level_low :
      tall ≤ i
      → (nodes' : ℕ → Node) × (link_level n tall length rank0 i (u, r) nodes ≡ done nodes')
        × Written n i nodes nodes' u (record { forward = fw; span = add_int span (pos 1) })
  unfolding link_level
  link_level_low h =
      let test : ltb i tall ≡ false = ground (arith, h) in
      let l : Link = record { forward = fw; span = add_int span (pos 1) } in
      (
        set_link u i l nodes,
        rw (link_level, link_at-some (nodes u) i link, test) refl,
        (
          set_link-KeepsData u i l nodes,
          set_link-KeepsLevels u i l nodes,
          set_link_self u i l nodes low,
          λ a nu nn. set_link_other u i l nodes a (λ e. nu (sym e)),
        ),
      )
