-- ===== src/Store/StreamOrder.antt =====
-- The IDs that `resolveStreamID` makes: they are read back by `convertID`, and each is greater than
-- the one before it.
use redis_in_go.Prelude.{
  ℕ, ◌+◌, ◌^◌, ◌<◌, ◌≡◌, ◌≢◌, ◌∙◌, sym, ap, refl, Bool, true, false, List, [], ◌∷◌, ◌⊎◌, inl, inr,
  Option, none, some, arith, if◌then◌else◌, Bool-cases, ◌==◌, ltb,
}
use redis_in_go.Prelude.Int.{ℤ, pos, negsuc, ◌+ℤ◌, wrap_int}
use redis_in_go.Text.{Bytes, codes, All, All-map, Lacks, str_eq, split, split_pair, split-All-Lacks}
use redis_in_go.Text.Decimal.{format_nat, format_int, atoi, Atoi, parsed, syntax_error, range_error}
use redis_in_go.Text.DecimalRoundTrip.{
  IsDigit, format_nat-IsDigit, format_nat-cons, format_nat-head_IsDigit, atoi-format_nat,
  atoi_no_minus,
}
use redis_in_go.Store.StreamIds.{
  convert_split, convert_parts, sequence, convert_id, or_zero, stream_id, resolved, next_sequence,
  chosen_sequence, check_order, resolve_stream_id, resolve_requested, resolve_now, resolve_from,
}

abbrev pub id_of : ℕ → ℕ → Bytes
id_of m n = stream_id (pos m) (pos n)

abbrev pub Less : ℕ → ℕ → ℕ → ℕ → Type 0
Less a b m n = (a < m) ⊎ ((a ≡ m) × (b < n))

no_minus : (n : ℕ) → Lacks b'-' (format_nat n)
no_minus n =
    All-map IsDigit (λ c. c ≢ b'-') (format_nat n) (λ c d. ground arith) (format_nat-IsDigit n)

not_star : (n : ℕ) → str_eq (format_nat n) (codes "*") ≡ false
not_star n =
    let (c, s, e) = format_nat-cons n in
    let d : IsDigit c = format_nat-head_IsDigit n c s e in rw e (unfold str_eq in ground arith)

-- `convertID` reads back an ID with two numbers that an `int` can hold.
pub convert_id-stream_id :
    (m n : ℕ) → m < 2 ^ 63 → n < 2 ^ 63 → convert_id (id_of m n) ≡ some (pos m, pos n)
unfolding convert_id stream_id format_int
convert_id-stream_id m n hm hn =
    rw (split_pair b'-' (format_nat m) (format_nat n) (no_minus m) (no_minus n))
      (rw (atoi-format_nat m hm, not_star n, atoi-format_nat n hn))

-- What `convertID` returns of any text: numbers that are not negative, or -1 for "*".
abbrev IsPair : ℤ × ℤ → Type 0
IsPair p =
    (m : ℕ) × (p.0 ≡ pos m)
    × (m < 2 ^ 63)
    × (((n : ℕ) × (p.1 ≡ pos n) × (n < 2 ^ 63)) ⊎ (p.1 ≡ negsuc 0))

sequence-IsPair :
    (sq : Bytes) (m : ℕ) (p : ℤ × ℤ) (a : Atoi)
    → m < 2 ^ 63
    → Lacks b'-' sq
    → atoi sq ≡ a
    → sequence (pos m) a ≡ some p
    → IsPair p
unfolding sequence
sequence-IsPair sq m p (parsed z) hm ls e h =
    let (n, ez, hn) = atoi_no_minus sq ls e in
    let eq : (pos m, z) ≡ p = cc in
    (m, sym (ap (λ (x : ℤ × ℤ). x.0) eq), hm, inl (n, sym (ap (λ (x : ℤ × ℤ). x.1) eq) ∙ ez, hn))
sequence-IsPair sq m p syntax_error hm ls e h = cc
sequence-IsPair sq m p (range_error z) hm ls e h = cc

convert_parts-IsPair :
    (ms sq : Bytes) (p : ℤ × ℤ) (a : Atoi)
    → Lacks b'-' ms
    → Lacks b'-' sq
    → atoi ms ≡ a
    → convert_parts a sq ≡ some p
    → IsPair p
unfolding convert_parts
convert_parts-IsPair ms sq p (parsed z) lm ls e h =
    let (m, ez, hm) = atoi_no_minus ms lm e in
    elim (Bool-cases (str_eq sq (codes "*"))) [
      | inl t ↦
          (let eq : (z, negsuc 0) ≡ p = ground arith in
            (m, sym (ap (λ (x : ℤ × ℤ). x.0) eq) ∙ ez, hm, inr (sym (ap (λ (x : ℤ × ℤ). x.1) eq))))
      | inr f ↦ sequence-IsPair sq m p (atoi sq) hm ls refl (rw (f, ez) at h)
    ]
convert_parts-IsPair ms sq p syntax_error lm ls e h = cc
convert_parts-IsPair ms sq p (range_error z) lm ls e h = cc

convert_split-IsPair :
    (parts : List Bytes) (p : ℤ × ℤ)
    → All (Lacks b'-') parts
    → convert_split parts ≡ some p
    → IsPair p
convert_split-IsPair (ms ∷ sq ∷ []) p l h =
    unfold convert_split in convert_parts-IsPair ms sq p (atoi ms) l.0 (l.1).0 refl h
convert_split-IsPair [] p l h = unfold convert_split in cc
convert_split-IsPair _ p l h = unfold convert_split in cc

convert_id-IsPair : (id : Bytes) (p : ℤ × ℤ) → convert_id id ≡ some p → IsPair p
unfolding convert_id
convert_id-IsPair id p h = convert_split-IsPair (split id b'-') p (split-All-Lacks id b'-') h

-- An ID that the order test lets through.
check_order-Less :
    (m n a b : ℕ) (id : Bytes)
    → check_order true (pos m) (pos n) (pos a) (pos b) ≡ resolved id
    → (id ≡ id_of m n) × Less a b m n
unfolding check_order
check_order-Less m n a b id h = (ground arith, ground arith)

next_sequence-pos :
    (m a b : ℕ)
    → b + 1 < 2 ^ 63
    → (n : ℕ) × (next_sequence true (pos m) (pos a) (pos b) ≡ pos n) × (n < 2 ^ 63)
unfolding next_sequence wrap_int ◌+ℤ◌
next_sequence-pos m a b h =
    (if m == a then b + 1 else if m == 0 then 1 else 0, ground arith, ground arith)

-- A new ID is greater than the last one.
-- `a`-`b` is the last ID of the stream, whose sequence number can be counted up.
abbrev pub Greater : ℕ → ℕ → Bytes → Type 0
Greater a b id = (m : ℕ) × (n : ℕ) × (id ≡ id_of m n) × (m < 2 ^ 63) × (n < 2 ^ 63) × Less a b m n

chosen_number :
    (has_last : Bool) (m n a b : ℕ)
    → chosen_sequence has_last (pos m) (pos n) (pos a) (pos b) ≡ pos n
unfolding chosen_sequence
chosen_number has_last m n a b = ground arith

chosen_star :
    (has_last : Bool) (m a b : ℕ)
    → chosen_sequence has_last (pos m) (negsuc 0) (pos a) (pos b)
      ≡ next_sequence has_last (pos m) (pos a) (pos b)
unfolding chosen_sequence
chosen_star has_last m a b = refl

requested_number :
    (m n a b : ℕ) (id : Bytes)
    → m < 2 ^ 63
    → n < 2 ^ 63
    → resolve_requested true (some (pos m, pos n)) (pos a) (pos b) ≡ resolved id
    → Greater a b id
unfolding resolve_requested
requested_number m n a b id hm hn h =
    let (e, less) = check_order-Less m n a b id (rw chosen_number at h) in (m, n, e, hm, hn, less)

requested_star :
    (m a b : ℕ) (id : Bytes)
    → m < 2 ^ 63
    → b + 1 < 2 ^ 63
    → resolve_requested true (some (pos m, negsuc 0)) (pos a) (pos b) ≡ resolved id
    → Greater a b id
unfolding resolve_requested
requested_star m a b id hm hb h =
    let (n, en, hn) = next_sequence-pos m a b hb in
    let (e, less) = check_order-Less m n a b id (rw (chosen_star, en) at h) in
    (m, n, e, hm, hn, less)

resolve_requested-Greater :
    (o : Option (ℤ × ℤ)) (a b : ℕ) (id : Bytes)
    → ((p : ℤ × ℤ) → o ≡ some p → IsPair p)
    → b + 1 < 2 ^ 63
    → resolve_requested true o (pos a) (pos b) ≡ resolved id
    → Greater a b id
resolve_requested-Greater none a b id pair hb h = unfold resolve_requested in cc
resolve_requested-Greater (some p) a b id pair hb h =
    let (m, em, hm, second) = pair p refl in
    elim second [
      | inl (n, en, hn) ↦
          (let e : p ≡ (pos m, pos n) = λ i. (em i, en i) in
            requested_number m n a b id hm hn (rw e at h))
      | inr en ↦
          (let e : p ≡ (pos m, negsuc 0) = λ i. (em i, en i) in
            requested_star m a b id hm hb (rw e at h))
    ]

resolve_now-Greater :
    (t a b : ℕ) (id : Bytes)
    → t < 2 ^ 63
    → a < 2 ^ 63
    → b + 1 < 2 ^ 63
    → resolve_now (pos t) (pos a) (pos b) ≡ resolved id
    → Greater a b id
unfolding resolve_now wrap_int ◌+ℤ◌
resolve_now-Greater t a b id ht ha hb h =
    let m : ℕ = if ltb t a then a else t in
    let n : ℕ = if m == a then b + 1 else 0 in
    (m, n, ground arith, ground arith, ground arith, ground arith)

stream_id-ne-nil : (m n : ℕ) → str_eq (id_of m n) [] ≡ false
unfolding stream_id format_int
stream_id-ne-nil m n = let (c, s, e) = format_nat-cons m in rw e (unfold str_eq in refl)

-- Whatever ID is requested: what `resolveStreamID` makes of it on a stream whose last ID is a-b is an
-- ID m-n of two `int`s that is greater than a-b in the order of the pairs. The clock is not before
-- 1970, and b is not the largest `int`.
pub resolve-Greater :
    (now a b : ℕ) (requested id : Bytes)
    → now < 2 ^ 63
    → a < 2 ^ 63
    → b + 1 < 2 ^ 63
    → resolve_stream_id (pos now) requested (id_of a b) ≡ resolved id
    → Greater a b id
unfolding resolve_stream_id resolve_from or_zero
resolve-Greater now a b requested id ht ha hb h = elim (Bool-cases (str_eq requested (codes "*"))) [
  | inl t ↦
      resolve_now-Greater now a b id ht ha hb
        (rw (stream_id-ne-nil, convert_id-stream_id a b ha (omega arith), t) at h)
  | inr f ↦
      resolve_requested-Greater (convert_id requested) a b id (convert_id-IsPair requested) hb
        (rw (stream_id-ne-nil, convert_id-stream_id a b ha (omega arith), f) at h)
]

first_sequence-pos :
    (m : ℕ) → (n : ℕ) × (next_sequence false (pos m) (pos 0) (pos 0) ≡ pos n) × (n < 2 ^ 63)
unfolding next_sequence
first_sequence-pos m = (if m == 0 then 1 else 0, ground arith, ground arith)

check_first-Less :
    (m n : ℕ) (id : Bytes)
    → check_order false (pos m) (pos n) (pos 0) (pos 0) ≡ resolved id
    → (id ≡ id_of m n) × Less 0 0 m n
unfolding check_order
check_first-Less m n id h = (ground arith, ground arith)

first_number :
    (m n : ℕ) (id : Bytes)
    → m < 2 ^ 63
    → n < 2 ^ 63
    → resolve_requested false (some (pos m, pos n)) (pos 0) (pos 0) ≡ resolved id
    → Greater 0 0 id
unfolding resolve_requested
first_number m n id hm hn h =
    let (e, less) = check_first-Less m n id (rw chosen_number at h) in (m, n, e, hm, hn, less)

first_star :
    (m : ℕ) (id : Bytes)
    → m < 2 ^ 63
    → resolve_requested false (some (pos m, negsuc 0)) (pos 0) (pos 0) ≡ resolved id
    → Greater 0 0 id
unfolding resolve_requested
first_star m id hm h =
    let (n, en, hn) = first_sequence-pos m in
    let (e, less) = check_first-Less m n id (rw (chosen_star, en) at h) in (m, n, e, hm, hn, less)

first_requested :
    (o : Option (ℤ × ℤ)) (id : Bytes)
    → ((p : ℤ × ℤ) → o ≡ some p → IsPair p)
    → resolve_requested false o (pos 0) (pos 0) ≡ resolved id
    → Greater 0 0 id
first_requested none id pair h = unfold resolve_requested in cc
first_requested (some p) id pair h =
    let (m, em, hm, second) = pair p refl in
    elim second [
      | inl (n, en, hn) ↦
          (let e : p ≡ (pos m, pos n) = λ i. (em i, en i) in first_number m n id hm hn (rw e at h))
      | inr en ↦
          (let e : p ≡ (pos m, negsuc 0) = λ i. (em i, en i) in first_star m id hm (rw e at h))
    ]

first_now :
    (t : ℕ) (id : Bytes)
    → t < 2 ^ 63
    → resolve_now (pos t) (pos 0) (pos 0) ≡ resolved id
    → Greater 0 0 id
first_now t id ht h = resolve_now-Greater t 0 0 id ht (omega arith) (omega arith) h

-- On an empty stream the ID is greater than 0-0.
pub resolve_first :
    (now : ℕ) (requested id : Bytes)
    → now < 2 ^ 63
    → resolve_stream_id (pos now) requested [] ≡ resolved id
    → Greater 0 0 id
unfolding resolve_stream_id resolve_from or_zero str_eq
resolve_first now requested id ht h = elim (Bool-cases (str_eq requested (codes "*"))) [
  | inl t ↦ first_now now id ht (rw t at h)
  | inr f ↦ first_requested (convert_id requested) id (convert_id-IsPair requested) (rw f at h)
]
