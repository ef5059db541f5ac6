-- ===== src/SkipList/Shape.antt =====
-- What the pointers of the skip list of internal/store/skiplist.go mean: the nodes stand in a row, from
-- the head at place 0 on, and `place p` is the address of the one at place `p`.
use redis_in_go.Prelude.{ℕ, ◌-◌, ◌≤◌, ◌<◌, ◌≡◌, Option, none, some, length, get_elem?}
use redis_in_go.Prelude.Int.{ℤ, pos}
use redis_in_go.SkipList.{Node}

abbrev pub height : Node → ℕ
height x = length x.links

-- At level `i` no node from behind `p` up to `q` is high enough.
abbrev pub NoneBetween : (ℕ → ℕ) → ℕ → ℕ → ℕ → Type 0
NoneBetween tall p q i = (r : ℕ) → p < r → r ≤ q → tall r ≤ i

-- A pointer at place `p` with its span: it leads to the next node that is high enough.
abbrev pub Points : (ℕ → ℕ) → (ℕ → ℕ) → ℕ → ℕ → ℕ → Option ℕ → ℤ → Type 0
Points place tall n p i none span = NoneBetween tall p n i
Points place tall n p i (some x) span =
    (q : ℕ) × (p < q)
    × (q ≤ n)
    × (x ≡ place q)
    × (span ≡ pos (q - p))
    × (i < tall q)
    × ((r : ℕ) → p < r → r < q → tall r ≤ i)

abbrev pub Linked : (ℕ → Node) → (ℕ → ℕ) → (ℕ → ℕ) → ℕ → ℕ → ℕ → Type 0
Linked nodes place tall n p i =
    (fw : Option ℕ) × (span : ℤ) × (get_elem? (nodes (place p)).links i
      ≡ some (record { forward = fw; span = span }))
    × Points place tall n p i fw span

-- All the pointers of one level are right. `tall p` is the height of the node at place `p`.
abbrev pub IsLevel : (ℕ → Node) → (ℕ → ℕ) → (ℕ → ℕ) → ℕ → ℕ → Type 0
IsLevel nodes place tall n i = (p : ℕ) → p ≤ n → i < tall p → Linked nodes place tall n p i
