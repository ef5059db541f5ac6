-- ===== src/SkipList.antt =====
-- internal/store/skiplist.go: the skip list. A *Node is an address, and the head has address 0. A node
-- has one Link for each level, which is its forward pointer and its span of that level; an index
-- beyond them is a panic.
use redis_in_go.Prelude.{
  ℕ, zero, suc, ◌-◌, ◌≡◌, refl, Bool, true, false, not, ◌&&◌, ◌||◌, List, [], ◌∷◌, ◌++◌, Option,
  none, some, Outcome, done, panic, blocked, ◌>>=◌, ltb, leb, ◌==◌, if◌then◌else◌, get_elem?, set,
  replicate,
}
use redis_in_go.Prelude.Int.{ℤ, pos, ◌+ℤ◌, ◌-ℤ◌, ltb_ℤ, leb_ℤ, wrap_int}
use redis_in_go.Text.{Bytes, str_eq, str_less}
use redis_in_go.Table
use redis_in_go.Table.{Table}
pub mod Float
mod Order
pub mod Shape
pub mod Search
pub mod Row
pub mod Lookup
mod Write
mod Splice
mod Level
mod Loop
mod Insert
mod InsertRow
mod Keeps
pub mod Listing
pub mod Ranks
use Float.{Float64, float_less, float_equal, infinity_bits}

pub record Link : Type 0 where
  pub forward : Option ℕ
  pub span : ℤ

pub record Node : Type 0 where
  pub member : Bytes
  pub score : Float64
  pub links : List Link

-- `next_addr` is the address of the next node. `max_level` is 32 in NewSkipList, and nothing changes it.
pub record SkipList : Type 0 where
  pub nodes : ℕ → Node
  pub next_addr : ℕ
  pub max_level : ℕ
  pub length : ℤ
  pub dictionary : Table ℕ

abbrev pub no_link : Link
no_link = record { forward = none; span = pos 0 }

abbrev pub zskiplist_max_level : ℕ
zskiplist_max_level = 32

-- At an address that is not in use stands a node without links.
abbrev pub no_node : Node
no_node = record { member = []; score = record { is_negative = false; magnitude = 0 }; links = [] }

-- math.Inf(-1)
abbrev head_score : Float64
head_score = record { is_negative = true; magnitude = infinity_bits }

abbrev pub set_node : ℕ → Node → (ℕ → Node) → ℕ → Node
set_node a n nodes = λ b. if a == b then n else nodes b

unfoldable pub new_skip_list : SkipList
new_skip_list = record {
  nodes =
      set_node 0
        (record { member = []; score = head_score; links = replicate zskiplist_max_level no_link })
        (λ a. no_node);
  next_addr = 1;
  max_level = zskiplist_max_level;
  length = pos 0;
  dictionary = [];
}

-- `+` and `-` on int
abbrev pub add_int : ℤ → ℤ → ℤ
add_int a b = wrap_int (a +ℤ b)

abbrev pub sub_int : ℤ → ℤ → ℤ
sub_int a b = wrap_int (a -ℤ b)

-- `determNodeMaxLevel`: the tests `rand.Float64() < 0.5`, up to the first that fails
unfoldable pub determ_node_max_level : List Bool → ℕ → ℕ → ℕ
determ_node_max_level [] max_level level = level
determ_node_max_level (coin ∷ coins) max_level level =
    let more = determ_node_max_level coins max_level (suc level) in
    if coin && ltb level max_level then more else level

unfoldable pub before : Node → Node → Bool
before a b =
    float_less a.score b.score || (float_equal a.score b.score && str_less a.member b.member)

-- node.forward[i] and node.span[i]
unfoldable pub link_at : Node → ℕ → Outcome Link
link_at n i = elim (get_elem? n.links i) [ none ↦ panic | some l ↦ done l ]

-- A place in the list: the node, and its rank as the loops count it.
abbrev pub Place : Type 0
Place = ℕ × ℤ

-- The inner loop of a search at level `i`: it goes on while `go` holds of the rank behind the step and
-- of the next node.
unfoldable pub advance : (ℤ → Node → Bool) → ℕ → (ℕ → Node) → ℕ → Place → Outcome Place
unfolding link_at
advance go zero nodes i (curr, rank) = blocked
advance go (suc fuel) nodes i (curr, rank) = do
  l ← link_at (nodes curr) i
  elim l.forward [
    | none ↦ done (curr, rank)
    | some n ↦
        if go (add_int rank l.span) (nodes n)
        then advance go fuel nodes i (n, add_int rank l.span)
        else done (curr, rank)
  ]

-- The loop over the levels below `levels`, from the highest on: where it stops at each, the lowest
-- level first. This is `update` with `rank`.
unfoldable pub descend : (ℤ → Node → Bool) → ℕ → (ℕ → Node) → ℕ → Place → Outcome (List Place)
unfolding advance
descend go fuel nodes zero p = done []
descend go fuel nodes (suc levels) p = do
  p' ← advance go fuel nodes levels p
  below ← descend go fuel nodes levels p'
  done (below ++ p' ∷ [])

-- where the loop stops at last
unfoldable pub lowest : List Place → Place
lowest [] = (0, pos 0)
lowest (p ∷ ps) = p

-- The loops of a member search, with `before` written out there.
unfoldable pub search : (ℤ → Node → Bool) → SkipList → Outcome (List Place)
unfolding descend
search go sl = descend go sl.next_addr sl.nodes sl.max_level (0, pos 0)

-- a write to node.forward[i] and node.span[i]
unfoldable pub set_link : ℕ → ℕ → Link → (ℕ → Node) → ℕ → Node
set_link a i l nodes = set_node a (record (nodes a) { links = set (nodes a).links i l }) nodes

-- The new node `n` at one level, behind `u` with the rank `r`; `rank0` is the rank at level 0.
unfoldable pub link_level : ℕ → ℕ → ℤ → ℤ → ℕ → Place → (ℕ → Node) → Outcome (ℕ → Node)
unfolding link_at set_link
link_level n height length rank0 i (u, r) nodes = do
  l ← link_at (nodes u) i
  done (
      if ltb i height
      then (let span : ℤ = elim l.forward [
        | none ↦ sub_int (add_int length (pos 1)) r
        | some x ↦ l.span
      ] in
          let behind = sub_int rank0 r in
          set_link u i (record { forward = some n; span = add_int behind (pos 1) })
            (set_link n i (record { forward = l.forward; span = sub_int span behind }) nodes))
      else set_link u i (record l { span = add_int l.span (pos 1) }) nodes)

-- the loop over the levels from `i` on
unfoldable pub link_levels : ℕ → ℕ → ℤ → ℤ → ℕ → List Place → (ℕ → Node) → Outcome (ℕ → Node)
unfolding link_level
link_levels n height length rank0 i [] nodes = done nodes
link_levels n height length rank0 i (p ∷ ps) nodes = do
  nodes' ← link_level n height length rank0 i p nodes
  link_levels n height length rank0 (suc i) ps nodes'

-- A new member of the given height.
unfoldable pub insert_new : ℕ → Bytes → Float64 → SkipList → Outcome SkipList
unfolding search link_levels before lowest
insert_new height member score sl = do
  let n : Node = record { member = member; score = score; links = replicate height no_link }
  let length = add_int sl.length (pos 1)
  places ← search (λ rank next. before next n) sl
  nodes ←
      link_levels sl.next_addr height length (lowest places).1 0 places
        (set_node sl.next_addr n sl.nodes)
  done (record sl {
    nodes = nodes;
    next_addr = suc sl.next_addr;
    length = length;
    dictionary = Table.put sl.dictionary member sl.next_addr;
  })

-- A member that is there gets its score in place.
unfoldable pub insert_element : List Bool → Bytes → Float64 → SkipList → Outcome SkipList
unfolding determ_node_max_level insert_new
insert_element coins member score sl = elim (Table.get sl.dictionary member) [
  | some old ↦
      done (record sl { nodes = set_node old (record (sl.nodes old) { score = score }) sl.nodes })
  | none ↦ insert_new (determ_node_max_level coins sl.max_level 1) member score sl
]

-- One level of the loop that takes the node `e` out, behind `u`.
unfoldable pub unlink_level : ℕ → ℕ → Place → (ℕ → Node) → Outcome (ℕ → Node)
unfolding link_at set_link
unlink_level e i (u, _) nodes = do
  l ← link_at (nodes u) i
  elim l.forward [
    | none ↦ done (set_link u i (record l { span = sub_int l.span (pos 1) }) nodes)
    | some x ↦
        if x == e
        then (do
          le ← link_at (nodes e) i
          done (
              set_link u i
                (record { forward = le.forward; span = add_int l.span (sub_int le.span (pos 1)) })
                nodes))
        else done (set_link u i (record l { span = sub_int l.span (pos 1) }) nodes)
  ]

-- The loop over the levels from `i` on. It stops in front of the highest level.
unfoldable pub unlink_levels : ℕ → ℕ → ℕ → List Place → (ℕ → Node) → Outcome (ℕ → Node)
unfolding unlink_level
unlink_levels e stop i [] nodes = done nodes
unlink_levels e stop i (p ∷ ps) nodes =
    if ltb i stop
    then (do nodes' ← unlink_level e i p nodes; unlink_levels e stop (suc i) ps nodes')
    else done nodes

unfoldable pub remove_element_by_name : Bytes → SkipList → Outcome SkipList
unfolding search unlink_levels before
remove_element_by_name member sl = elim (Table.get sl.dictionary member) [
  | none ↦ done sl
  | some e ↦ (do
    places ← search (λ rank next. before next (sl.nodes e)) sl
    nodes ← unlink_levels e (sl.max_level - 1) 0 places sl.nodes
    done (record sl {
      nodes = nodes;
      length = sub_int sl.length (pos 1);
      dictionary = Table.remove sl.dictionary member;
    }))
]

-- `before` or the member itself
unfoldable pub not_after : Node → Node → Bool
not_after a b =
    float_less a.score b.score
    || (float_equal a.score b.score && (str_less a.member b.member || str_eq a.member b.member))

unfoldable pub find_element_rank : Bytes → SkipList → Outcome ℤ
unfolding search not_after lowest
find_element_rank member sl = elim (Table.get sl.dictionary member) [
  | none ↦ done (pos 0)
  | some a ↦ (do
    places ← search (λ rank next. not_after next (record (sl.nodes a) { member = member })) sl
    done (sub_int (lowest places).1 (pos 1)))
]

-- A rank from 0 on.
unfoldable pub get_element : ℤ → SkipList → Outcome (Option ℕ)
unfolding search lowest
get_element rank sl =
    let rank' = add_int rank (pos 1) in
    if ltb_ℤ rank' (pos 0) || leb_ℤ sl.length rank'
    then done none
    else (do places ← search (λ passed next. leb_ℤ passed rank') sl; done (some (lowest places).0))

unfoldable pub first_ge : Float64 → SkipList → Outcome (Option ℕ)
unfolding search lowest link_at
first_ge score sl = do
  places ← search (λ rank next. float_less next.score score) sl
  l ← link_at (sl.nodes (lowest places).0) 0
  done l.forward
