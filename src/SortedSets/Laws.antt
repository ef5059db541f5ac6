-- ===== src/SortedSets/Laws.antt =====
-- What ZADD, ZCARD, ZRANK and ZREM answer.
use redis_in_go.Prelude.{
  suc, ◌-◌, ◌^◌, ◌<◌, ◌≡◌, refl, sym, ap, ◌∙◌, Bool, false, List, [], ◌∷◌, ◌++◌, some, done, arith,
  length, length-append, Option-cases, inl, inr, done_injective, >>=-eq-done,
}
use redis_in_go.Prelude.Int.{ℤ, pos, pos_part}
use redis_in_go.Text.{Bytes}
use redis_in_go.Table
use redis_in_go.Table.{Table}
use redis_in_go.SkipList.{SkipList, remove_element_by_name, sub_int, new_skip_list}
use redis_in_go.SkipList.Float.{Float64, is_nan}
use redis_in_go.SkipList.Lookup.{sub_int-pos}
use redis_in_go.SkipList.Listing.{
  Scored, Holds, IsNew, insert_entry, insert_element_lem, length-insert_entry,
}
use redis_in_go.SkipList.Ranks.{rank_of_member, member_known, new_skip_list-Holds}
use redis_in_go.SortedSets.{Sets, set_or_new, zadd, zcard, zrem, zrem_from, zrank, rank_in}

-- The set of a name holds the entries, in order; a set that is not there holds none.
abbrev pub HoldsIn : Bytes → Sets → List Scored → Type 0
HoldsIn set_name sets es = Holds (set_or_new (Table.get sets set_name)) es

pub new-HoldsIn : (set_name : Bytes) → HoldsIn set_name [] []
unfolding set_or_new Table.get
new-HoldsIn set_name = new_skip_list-Holds

-- ZADD of a member that no entry has, with a score that is not NaN, to a set that holds some entries
-- in order or, if there are none, is not there, replies 1 for any coins; the set holds the entries with the new one in its
-- place afterwards, and ZCARD replies their number, which is below 2^62.
pub zadd_new :
    (coins : List Bool) (set_name member : Bytes) (score : Float64) (sets : Sets) (es : List Scored)
    → HoldsIn set_name sets es
    → IsNew member es
    → is_nan score ≡ false
    → suc (length es) < 2 ^ 62
    → (sets' : Sets) × (zadd coins set_name member score sets ≡ done (pos 1, sets'))
      × HoldsIn set_name sets' (insert_entry (member, score) es)
      × (zcard set_name sets' ≡ pos (suc (length es)))
unfolding zadd zcard set_or_new
zadd_new coins set_name member score sets es holds fresh is_number few =
    let sl = set_or_new (Table.get sets set_name) in
    let (sl', e, holds') = insert_element_lem coins member score sl es holds fresh is_number few in
    let size = length-insert_entry (member, score) es in
    let sets' = Table.put sets set_name sl' in
    let found = Table.get-put_self sets set_name sl' in
    let grown : sub_int sl'.length sl.length ≡ pos 1 =
      let one : suc (length es) - length es ≡ 1 = omega arith in
      rw (holds'.1.counted, holds.1.counted, size)
        (sub_int-pos (suc (length es)) (length es) (omega arith) (omega (arith, few))
          ∙ ap pos one) in
    (
      sets',
      rw (zadd, e, grown) refl,
      rw found holds',
      rw (zcard, found) (holds'.1.counted ∙ ap pos size),
    )

zcard_same :
    (set_name : Bytes) (sl sl' : SkipList) (sets : Sets)
    → Table.get sets set_name ≡ some sl
    → zcard set_name (Table.put sets set_name (record sl' { length = sl.length }))
      ≡ zcard set_name sets
unfolding zcard
zcard_same set_name sl sl' sets there =
    rw (zcard, Table.get-put_self sets set_name (record sl' { length = sl.length }), there) refl

zrem_from-zcard :
    (set_name member : Bytes) (sl : SkipList) (sets : Sets) {r : ℤ} {sets' : Sets}
    → Table.get sets set_name ≡ some sl
    → zrem_from set_name member sl sets ≡ done (r, sets')
    → zcard set_name sets' ≡ zcard set_name sets
unfolding zrem_from
zrem_from-zcard set_name member sl sets {r} {sets'} there h =
    elim (Option-cases (Table.get sl.dictionary member)) [
      | inl e ↦
          (let same : ◌≡◌ {A = ℤ × Sets} (pos 0, sets) (r, sets') =
              done_injective (rw (zrem_from, e) at h) in
            ap (λ (x : ℤ × Sets). zcard set_name x.1) (sym same))
      | inr (a, e) ↦
          (let (sl', e', h') =
              >>=-eq-done (remove_element_by_name member sl)
                (λ x. done (pos 1, Table.put sets set_name (record x { length = sl.length })))
                (rw (zrem_from, e) at h) in
            ap (λ (x : ℤ × Sets). zcard set_name x.1) (sym (done_injective h'))
            ∙ zcard_same set_name sl sl' sets there)
    ]

-- A ZREM that returns does not change what ZCARD replies, whether it has removed a member or not.
pub zcard-zrem :
    (set_name member : Bytes) (sets sets' : Sets) (r : ℤ)
    → zrem set_name member sets ≡ done (r, sets')
    → zcard set_name sets' ≡ zcard set_name sets
unfolding zrem
zcard-zrem set_name member sets sets' r h = elim (Option-cases (Table.get sets set_name)) [
  | inl e ↦
      (let same : ◌≡◌ {A = ℤ × Sets} (pos 0, sets) (r, sets') =
          done_injective (rw (zrem, e) at h) in
        ap (λ (x : ℤ × Sets). zcard set_name x.1) (sym same))
  | inr (sl, e) ↦ zrem_from-zcard set_name member sl sets e (rw (zrem, e) at h)
]

new_is_empty : (front back : List Scored) (e : Scored) → ¬ Holds new_skip_list (front ++ e ∷ back)
unfolding new_skip_list
new_is_empty front back e holds =
    let n : pos 0 ≡ pos (length (front ++ e ∷ back)) = holds.1.counted in
    omega (arith, ap pos_part n, length-append front (e ∷ back))

-- ZRANK of a member of a set that holds some entries in order replies the number of entries in front.
pub zrank_of_entry :
    (set_name : Bytes) (sets : Sets) (front back : List Scored) (e : Scored)
    → HoldsIn set_name sets (front ++ e ∷ back)
    → zrank set_name e.0 sets ≡ done (some (pos (length front)))
unfolding zrank rank_in set_or_new
zrank_of_entry set_name sets front back e holds = elim (Option-cases (Table.get sets set_name)) [
  | inl none_there ↦ absurd (new_is_empty front back e (rw none_there at holds))
  | inr (sl, there) ↦
      (let held : Holds sl (front ++ e ∷ back) = rw there at holds in
        let (a, known) = member_known sl front back e held in
        rw (zrank, there, rank_in, known, rank_of_member sl front back e held) refl)
]
