-- ===== src/Store/ListLaws.antt =====
-- What `LRange` and `LPop` reply, and what `LPop` leaves.
use native.Mathlib.Numerals.{add-one}
use redis_in_go.Prelude.{
  ℕ, zero, suc, ◌+◌, ◌-◌, ◌≤◌, ◌<◌, ◌≡◌, refl, List, [], ◌∷◌, ◌++◌, append_assoc, append-nil, none,
  some, done, panic, ◌>>=◌, arith, ltb, leb, if◌then◌else◌, length, length-drop, length-take,
  get_elem?, take, drop, inl, inr, Bool-cases,
}
use redis_in_go.Prelude.Int.{ℤ, pos, negsuc, ◌+ℤ◌}
use redis_in_go.Text.{Bytes}
use redis_in_go.Resp.{bulk, bulks, array_header}
use redis_in_go.Table
use redis_in_go.Store.State.{Store}
use redis_in_go.Store.Lists.{range_list, pop_list, lrange, lpop, write_elements, from_end, put_list}

drop-some {ℓ} :
    {A : Type ℓ} (l : List A) (i : ℕ)
    → i < length l
    → (e : A) × (get_elem? l i ≡ some e) × (drop i l ≡ e ∷ drop (suc i) l)
drop-some [] i h = elim h [ ]
drop-some (x ∷ l) zero h = (x, refl, refl)
drop-some (x ∷ l) (suc i) h = drop-some l i (omega arith)

bulks-cons : (s : Bytes) (ss : List Bytes) → bulks (s ∷ ss) ≡ bulk s ++ bulks ss
unfolding bulks
bulks-cons s ss = refl

-- The loops of `LRange` and `LPop` write the elements from `i` on, and read none out of range.
write_elements-bulks :
    (n i : ℕ) (l : List Bytes) (out : Bytes)
    → i + n ≤ length l
    → write_elements n i l out ≡ done (out ++ bulks (take n (drop i l)))
unfolding write_elements
write_elements-bulks zero i l out h = unfold bulks in rw append-nil
write_elements-bulks (suc n) i l out h =
    let (e, at, d) = drop-some l i (omega arith) in
    rw (at, d, write_elements, add-one)
      (rw
        (write_elements-bulks n (suc i) l (out ++ bulk e) (omega arith), bulks-cons, append_assoc))

-- The elements from `start` to `stop`, both included, as far as they exist.
abbrev pub slice : List Bytes → ℕ → ℕ → List Bytes
slice l start stop = take (suc stop - start) (drop start l)

-- The reply for a list of elements: nothing at all for none.
abbrev pub range_reply : List Bytes → Bytes
range_reply [] = []
range_reply (e ∷ es) = array_header (length (e ∷ es)) ++ bulks (e ∷ es)

abbrev pub pop_reply : List Bytes → Bytes
pop_reply [] = []
pop_reply (e ∷ []) = bulk e
pop_reply (e ∷ f ∷ es) = array_header (length (e ∷ f ∷ es)) ++ bulks (e ∷ f ∷ es)

range_reply-of_length :
    (es : List Bytes) (n : ℕ) → length es ≡ n → 0 < n → range_reply es ≡ array_header n ++ bulks es
range_reply-of_length [] n h p = absurd (omega arith)
range_reply-of_length (e ∷ es) n h p = rw h

take_all {ℓ} :
    {A : Type ℓ} (n m : ℕ) (l : List A) → length l ≤ n → length l ≤ m → take n l ≡ take m l
take_all zero zero l h k = refl
take_all zero (suc m) [] h k = refl
take_all zero (suc m) (x ∷ l) h k = absurd (omega arith)
take_all (suc n) zero [] h k = refl
take_all (suc n) zero (x ∷ l) h k = absurd (omega arith)
take_all (suc n) (suc m) [] h k = refl
take_all (suc n) (suc m) (x ∷ l) h k = rw (take_all n m l (omega arith) (omega arith))

pub drop_all {ℓ} : {A : Type ℓ} (n : ℕ) (l : List A) → length l ≤ n → drop n l ≡ []
drop_all zero [] h = refl
drop_all zero (x ∷ l) h = absurd (omega arith)
drop_all (suc n) [] h = refl
drop_all (suc n) (x ∷ l) h = drop_all n l (omega arith)

pub take-length {ℓ} : {A : Type ℓ} (l : List A) → take (length l) l ≡ l
take-length [] = refl
take-length (x ∷ l) = rw (take-length l)

take-nil {ℓ} : {A : Type ℓ} (n : ℕ) → take {A = A} n [] ≡ []
take-nil zero = refl
take-nil (suc n) = refl

swapped_slice : (l : List Bytes) (a b : ℕ) → b < a → slice l a b ≡ []
swapped_slice l a b h = let e : suc b - a ≡ 0 = omega arith in rw e

-- The rounds of the loop, for a range that starts inside the list.
slice_rounds :
    (l : List Bytes) (a b n : ℕ)
    → a < length l
    → a ≤ b
    → n ≡ (if leb (length l) b then length l - 1 else b) - a + 1
    → (a + n ≤ length l) × (take n (drop a l) ≡ slice l a b) × (length (slice l a b) ≡ n)
slice_rounds l a b n h k e = elim (Bool-cases (leb (length l) b)) [
  | inl t ↦
      (let e' : n ≡ length l - 1 - a + 1 = rw t at e in
        let past : length l ≤ b = ground arith in
        (
          omega arith,
          take_all n (suc b - a) (drop a l) (omega (arith, length-drop a l))
              (omega (arith, length-drop a l)),
          omega (arith, length-take (suc b - a) (drop a l), length-drop a l),
        ))
  | inr f ↦
      (let e' : n ≡ b - a + 1 = rw f at e in
        let inside : b < length l = ground arith in
        let same : n ≡ suc b - a = omega arith in
        (omega arith, rw same, omega (arith, length-take (suc b - a) (drop a l), length-drop a l)))
]

range_list-slice : (l : List Bytes) (a b : ℕ) → range_list l a b ≡ done (range_reply (slice l a b))
unfolding range_list
range_list-slice l a b = elim (Bool-cases (leb (length l) a)) [
  | inl past ↦ rw past (rw (drop_all a l (ground arith), take-nil))
  | inr inside ↦ rw inside (elim (Bool-cases (ltb b a)) [
    | inl swapped ↦ rw swapped (rw (swapped_slice l a b (ground arith)))
    | inr ordered ↦ rw ordered (
        let n : ℕ = (if leb (length l) b then length l - 1 else b) - a + 1 in
        let (fits, same, len) = slice_rounds l a b n (ground arith) (ground arith) refl in
        rw (
          write_elements-bulks n a l (array_header n) fits,
          same,
          range_reply-of_length (slice l a b) n len (omega arith),
        ))
  ])
]

-- The place that an index names in a list of `len` elements: a negative one is counted from the end,
-- and what lies in front of the list is its start.
abbrev pub place_of : ℕ → ℤ → ℕ
place_of len (pos n) = n
place_of len (negsuc n) = len - suc n

from_end-place_of : (len : ℕ) (i : ℤ) → from_end len i ≡ place_of len i
unfolding from_end ◌+ℤ◌
from_end-place_of len (pos n) = ground arith
from_end-place_of len (negsuc n) = ground arith

-- `LRange` on a list that is there: its two indices, counted from the end where they are negative and
-- cut off at 0, name a slice, and the reply is the array of that slice's elements, or the empty text
-- if there is none. No index panics.
pub lrange-slice :
    (key : Bytes) (start stop : ℤ) (l : List Bytes) (s : Store)
    → Table.get s.elements key ≡ some l
    → lrange key start stop s
      ≡ done (range_reply (slice l (place_of (length l) start) (place_of (length l) stop)))
unfolding lrange
lrange-slice key start stop l s at = rw (
  at,
  lrange,
  range_list-slice,
  from_end-place_of (length l) start,
  from_end-place_of (length l) stop,
)

lrange_missing :
    (key : Bytes) (start stop : ℤ) (s : Store)
    → Table.get s.elements key ≡ none
    → lrange key start stop s ≡ done []
unfolding lrange
lrange_missing key start stop s at = rw (at, lrange)

pop_reply-of_length :
    (es : List Bytes) (n : ℕ)
    → length es ≡ n
    → (if ltb 1 n then array_header n else []) ++ bulks es ≡ pop_reply es
unfolding bulks
pop_reply-of_length [] n h = rw (← h)
pop_reply-of_length (e ∷ []) n h = rw (← h) (append-nil (bulk e))
pop_reply-of_length (e ∷ f ∷ es) n h = rw (← h) (ground arith)

pop_list-take :
    (key : Bytes) (l : List Bytes) (m : ℕ) (s : Store)
    → pop_list key l (pos m) s ≡ done (pop_reply (take m l), put_list key (drop m l) s)
unfolding pop_list
pop_list-take key l m s = elim (Bool-cases (leb (length l) m)) [
  | inl t ↦ rw t (
      let past : length l ≤ m = ground arith in
      let len : length (take m l) ≡ length l = omega (arith, length-take m l) in
      rw (
        write_elements-bulks (length l) 0 l _ (omega arith),
        take_all (length l) m l (omega arith) past,
        pop_reply-of_length (take m l) (length l) len,
        drop_all m l past,
        drop_all (length l) l (omega arith),
      ))
  | inr f ↦ rw f (
      let inside : m ≤ length l = ground arith in
      let len : length (take m l) ≡ m = omega (arith, length-take m l) in
      rw (write_elements-bulks m 0 l _ (omega arith), pop_reply-of_length (take m l) m len))
]

-- `LPop` of m elements on a list that is there: the reply holds the first m elements, or all of a
-- shorter list, without an array header for one and empty for none; the others stay in order.
pub lpop-take :
    (key : Bytes) (l : List Bytes) (m : ℕ) (s : Store)
    → Table.get s.elements key ≡ some l
    → lpop key (pos m) s ≡ done (pop_reply (take m l), put_list key (drop m l) s)
unfolding lpop
lpop-take key l m s at = rw (at, lpop) (pop_list-take key l m s)

-- `LPop` of a negative number of elements panics on every list that is there.
pub lpop_negative :
    (key : Bytes) (l : List Bytes) (m : ℕ) (s : Store)
    → Table.get s.elements key ≡ some l
    → lpop key (negsuc m) s ≡ panic
unfolding lpop pop_list
lpop_negative key l m s at = rw (at, lpop)

-- A list that LPOP has emptied stays in the table, and a further LPOP replies with the empty text:
-- no byte goes to the client, which waits for a reply.
pub lpop_drained :
    (key : Bytes) (l : List Bytes) (m k : ℕ) (s : Store)
    → Table.get s.elements key ≡ some l
    → length l ≤ m
    → (lpop key (pos m) s >>= λ (_, s'). lpop key (pos k) s')
      ≡ done ([], put_list key [] (put_list key [] s))
lpop_drained key l m k s at all =
    rw (lpop-take key l m s at, drop_all m l all)
      (rw (lpop-take key [] k (put_list key [] s) (Table.get-put_self s.elements key []))
        (rw (drop_all {A = Bytes} k [] (omega arith), take-nil {A = Bytes} k)))
