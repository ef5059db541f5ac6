-- ===== src/Store/StringLaws.antt =====
-- What a client sees of `Set`, `SetWithAbsoluteExpiry`, `Get` and `INCR`.
use mathlib.Core.Option
use redis_in_go.Prelude.{
  ℕ, zero, suc, ◌+◌, ◌*◌, ◌^◌, ◌≤◌, ◌<◌, ◌≡◌, ◌↔◌, refl, true, false, Option, none, some, arith,
  leb, if◌then◌else◌,
}
use redis_in_go.Prelude.Int.{ℤ, pos, max_int, min_int, pos_part, ltb_ℤ, ◌+ℤ◌, wrap_int}
use redis_in_go.Text.{Bytes, str_eq}
use redis_in_go.Text.Decimal.{atoi, parsed, format_int}
use redis_in_go.Text.DecimalRoundTrip.{atoi-format_int}
use redis_in_go.Table
use redis_in_go.Table.{table_laws}
use redis_in_go.Store.State.{Entry, Store}
use redis_in_go.Store.Strings.{
  set, set_with_absolute_expiry, get, incr, expired, deadline, bump, GetResult, found, get_error,
  expired_key, IncrResult, counted,
}

-- the expiry of what is stored under a key
abbrev pub old_deadline : Bytes → Store → Option ℕ
old_deadline key s = elim (Table.get s.items key) [ none ↦ none | some e ↦ e.expires_at ]

-- the value up to its deadline, that instant included
abbrev pub read_back : ℕ → Bytes → Option ℕ → GetResult
read_back t value none = found value
read_back t value (some d) = if leb t d then found value else get_error expired_key

read_back-expired :
    (t : ℕ) (value : Bytes) (d : Option ℕ)
    → (if expired t d then get_error expired_key else found value) ≡ read_back t value d
unfolding expired
read_back-expired t value none = refl
read_back-expired t value (some d) = ground arith

-- `Get` at time t of the key that `Set` has written at time `now`: the value, unless a deadline has
-- passed. The deadline is now + ttl for a positive ttl, and else the one that the key had before.
pub get-set_self :
    (now t : ℕ) (key value : Bytes) (ttl : ℤ) (s : Store)
    → (get t key (set now key value ttl s)).0
      ≡ read_back t value (deadline now ttl (old_deadline key s))
unfolding get set
get-set_self now t key value ttl s =
    simp table_laws
      (ground (arith, read_back-expired t value (deadline now ttl (old_deadline key s))))

-- `Set` of one key does not change what `Get` returns for another.
pub get-set_ne :
    (now t : ℕ) (key other value : Bytes) (ttl : ℤ) (s : Store)
    → str_eq key other ≡ false
    → (get t other (set now key value ttl s)).0 ≡ (get t other s).0
unfolding get set
get-set_ne now t key other value ttl s h = simp (Table.get-put_ne, h) (ground arith)

-- A SET with a positive ttl is readable up to now + ttl, that instant included, and not afterwards.
pub set_ttl_exact :
    (now t n : ℕ) (key value : Bytes) (s : Store)
    → 0 < n
    → ((get t key (set now key value (pos n) s)).0 ≡ found value) ↔ (t ≤ now + n)
set_ttl_exact now t n key value s h = rw get-set_self (unfold expired in ground arith)

-- `Get` after `SetWithAbsoluteExpiry`: a positive time in milliseconds is the deadline, and any other
-- means that there is none, also where the key had one before.
pub get-set_absolute_self :
    (t : ℕ) (key value : Bytes) (ms : ℤ) (s : Store)
    → (get t key (set_with_absolute_expiry key value ms s)).0
      ≡ read_back t value (if ltb_ℤ (pos 0) ms then some (pos_part ms * 1000000) else none)
unfolding get set_with_absolute_expiry
get-set_absolute_self t key value ms s =
    let d = if ltb_ℤ (pos 0) ms then some (pos_part ms * 1000000) else none in
    simp table_laws (ground (arith, read_back-expired t value d))

-- A plain SET of a key whose old value has expired stores a value that no later `Get` returns: the
-- old deadline stays.
pub set_over_expired :
    (now t : ℕ) (key value : Bytes) (s : Store)
    → expired now (old_deadline key s) ≡ true
    → now ≤ t
    → (get t key (set now key value (pos 0) s)).0 ≡ get_error expired_key
unfolding expired
set_over_expired now t key value s h le = rw get-set_self (unfold expired in ground arith)

-- n INCRs, the last one's result
abbrev pub incrs : ℕ → ℕ → Bytes → Store → IncrResult × Store
incrs zero now key s = incr now key s
incrs (suc n) now key s = incr now key (incrs n now key s).1

-- What n INCRs of an absent key leave: n, with no deadline.
abbrev Counts : ℕ → Bytes → Store → Type 0
Counts n key s =
    (e : Entry) × (Table.get s.items key ≡ some e)
    × (e.value ≡ format_int (pos n))
    × (e.expires_at ≡ none)

next_int : (n : ℕ) → n + 1 < 2 ^ 63 → wrap_int (pos n +ℤ pos 1) ≡ pos (n + 1)
unfolding ◌+ℤ◌ wrap_int
next_int n h = ground arith

-- `INCR` of a live key whose text is a number.
incr_step :
    (now : ℕ) (key : Bytes) (z : ℤ) (e : Entry) (s : Store)
    → Table.get s.items key ≡ some e
    → expired now e.expires_at ≡ false
    → atoi e.value ≡ parsed z
    → incr now key s ≡ (
      counted (wrap_int (z +ℤ pos 1)),
      record s {
        items =
            Table.put s.items key
              (record e { value = format_int (wrap_int (z +ℤ pos 1)); version = bump e.version });
      },
    )
unfolding incr
incr_step now key z e s at live num = rw (at, live, num)

incr-Counts :
    (now n : ℕ) (key : Bytes) (s : Store)
    → n + 1 < 2 ^ 63
    → Counts n key s
    → ((incr now key s).0 ≡ counted (pos (n + 1))) × Counts (n + 1) key (incr now key s).1
incr-Counts now n key s h (e, at, v, x) =
    let live : expired now e.expires_at ≡ false = rw x (unfold expired in refl) in
    let num : atoi e.value ≡ parsed (pos n) = rw v (atoi-format_int (pos n) (omega arith)) in
    rw (incr_step now key (pos n) e s at live num, next_int n h)
      (refl, (_, Table.get-put_self s.items key _, refl, x))

incr_absent :
    (now : ℕ) (key : Bytes) (s : Store)
    → Table.get s.items key ≡ none
    → ((incr now key s).0 ≡ counted (pos 1)) × Counts 1 key (incr now key s).1
unfolding incr format_int
incr_absent now key s absent = rw absent (refl, (_, Table.get-put_self s.items key _, refl, refl))

get_live :
    (t : ℕ) (key : Bytes) (s : Store) (e : Entry) (v : Bytes)
    → Table.get s.items key ≡ some e
    → e.expires_at ≡ none
    → e.value ≡ v
    → (get t key s).0 ≡ found v
unfolding get
get_live t key s e v at x h = rw (at, x, h)

incrs-Counts :
    (n now : ℕ) (key : Bytes) (s : Store)
    → n + 1 < 2 ^ 63
    → Table.get s.items key ≡ none
    → ((incrs n now key s).0 ≡ counted (pos (n + 1))) × Counts (n + 1) key (incrs n now key s).1
incrs-Counts zero now key s h absent = incr_absent now key s absent
incrs-Counts (suc n) now key s h absent =
    let ih = incrs-Counts n now key s (omega arith) absent in
    let e : n + 1 ≡ suc n = omega arith in
    rw (← e) (incr-Counts now (n + 1) key (incrs n now key s).1 (omega arith) ih.1)

-- On a key that is not there, the last of n + 1 INCRs returns n + 1, and a `Get` then returns its
-- decimal print, at any time.
pub incr_counts_up :
    (n now t : ℕ) (key : Bytes) (s : Store)
    → n + 1 < 2 ^ 63
    → Table.get s.items key ≡ none
    → ((incrs n now key s).0 ≡ counted (pos (n + 1)))
      × ((get t key (incrs n now key s).1).0 ≡ found (format_int (pos (n + 1))))
incr_counts_up n now t key s h absent =
    let (reply, (e, at, v, x)) = incrs-Counts n now key s h absent in
    (reply, get_live t key _ e _ at x v)

-- INCR of a live key that holds the largest `int` reports the smallest one and stores it: the sum
-- wraps around, and no error is returned.
pub incr_wraps :
    (now : ℕ) (key : Bytes) (e : Entry) (s : Store)
    → Table.get s.items key ≡ some e
    → expired now e.expires_at ≡ false
    → e.value ≡ format_int max_int
    → ((incr now key s).0 ≡ counted min_int)
      × (Option.map (λ (e' : Entry). e'.value) (Table.get (incr now key s).1.items key)
          ≡ some (format_int min_int))
incr_wraps now key e s at live v =
    let num : atoi e.value ≡ parsed max_int = rw v (atoi-format_int max_int (omega arith)) in
    rw (incr_step now key max_int e s at live num, Table.get-put_self)
      (unfold wrap_int ◌+ℤ◌ in (refl, refl))
