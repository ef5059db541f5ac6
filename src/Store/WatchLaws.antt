-- ===== src/Store/WatchLaws.antt =====
-- What the version checks of a transaction detect, and what they miss.
use redis_in_go.Prelude.{
  ℕ, ◌<◌, ◌^◌, ◌≡◌, ◌≢◌, refl, true, false, List, [], ◌∷◌, Option, none, some, arith, inl, inr,
  Bool-cases, Option-cases,
}
use redis_in_go.Prelude.Int.{ℤ, pos, ◌+ℤ◌, wrap_int}
use redis_in_go.Text.{Bytes, str_eq, str_eq_iff}
use redis_in_go.Text.Decimal.{atoi, atoi_value, format_int}
use redis_in_go.Table
use redis_in_go.Table.{Table}
use redis_in_go.Store.State.{Entry, Store}
use redis_in_go.Store.StringLaws.{old_deadline}
use redis_in_go.Store.Strings.{set, incr, get, watch, stale, check_watched, bump, expired, counted}

-- The version that a transaction sees under a key; 0 stands for a missing key.
abbrev Agrees : Table ℕ → Store → Type 0
Agrees [] s = Unit
Agrees ((k, version) ∷ watched) s =
    ((e : Entry) → Table.get s.items k ≡ some e → e.version ≡ version) × Agrees watched s

stale-Agrees :
    (o : Option Entry) (v : ℕ) → ((e : Entry) → o ≡ some e → e.version ≡ v) → stale v o ≡ false
unfolding stale
stale-Agrees none v h = refl
stale-Agrees (some e) v h = ground (arith, h e refl)

check_watched-Agrees :
    (watched : Table ℕ) (s : Store) → Agrees watched s → check_watched watched s ≡ false
unfolding check_watched
check_watched-Agrees [] s a = refl
check_watched-Agrees ((k, version) ∷ watched) s a =
    rw (stale-Agrees (Table.get s.items k) version a.0, check_watched-Agrees watched s a.1)

put-Agrees :
    (watched : Table ℕ) (s : Store) (k : Bytes) (v : ℕ)
    → ((e : Entry) → Table.get s.items k ≡ some e → e.version ≡ v)
    → Agrees watched s
    → Agrees (Table.put watched k v) s
unfolding Table.put
put-Agrees [] s k v h a = (h, tt)
put-Agrees ((j, w) ∷ watched) s k v h a = elim (Bool-cases (str_eq j k)) [
  | inl t ↦ rw t ((λ e at. h e (rw (← (str_eq_iff j k).0 t) at)), a.1)
  | inr f ↦ rw f (a.0, put-Agrees watched s k v h a.1)
]

watch-Agrees :
    (keys : List Bytes) (watched : Table ℕ) (s : Store)
    → Agrees watched s
    → Agrees (watch watched keys s) s
unfolding watch
watch-Agrees [] watched s a = a
watch-Agrees (k ∷ keys) watched s a = elim (Option-cases (Table.get s.items k)) [
  | inl absent ↦ rw (absent, watch) (put-Agrees watched s k 0 (λ e at. cc) a)
  | inr (e, at) ↦
      rw (at, watch) (watch-Agrees keys _ s (put-Agrees watched s k e.version (λ e' at'. cc) a))
]

-- The versions that WATCH has noted are not reported as changed as long as nothing is written.
pub watch_unchanged :
    (keys : List Bytes) (s : Store) → check_watched (watch Table.empty keys s) s ≡ false
watch_unchanged keys s = check_watched-Agrees _ s (watch-Agrees keys [] s tt)

-- A version that differs is found, whatever stands in front of it.
check_watched_hit :
    (watched : Table ℕ) (s : Store) (k : Bytes) (v : ℕ) (e : Entry)
    → Table.get watched k ≡ some v
    → Table.get s.items k ≡ some e
    → e.version ≢ v
    → check_watched watched s ≡ true
unfolding check_watched stale Table.get
check_watched_hit [] s k v e w at ne = cc
check_watched_hit ((j, u) ∷ watched) s k v e w at ne =
    ground (arith, str_eq_iff j k, at, check_watched_hit watched s k v e)

bump-ne : (v : ℕ) → v < 2 ^ 64 → bump v ≢ v
bump-ne v h = omega arith

-- A SET of a watched key that is there is reported: its version is no longer the one noted.
pub set_detected :
    (watched : Table ℕ) (now : ℕ) (key value : Bytes) (ttl : ℤ) (e : Entry) (s : Store)
    → Table.get s.items key ≡ some e
    → Table.get watched key ≡ some e.version
    → e.version < 2 ^ 64
    → check_watched watched (set now key value ttl s) ≡ true
unfolding set
set_detected watched now key value ttl e s at w small =
    check_watched_hit watched (set now key value ttl s) key e.version _ w
      (Table.get-put_self s.items key _) (rw at (bump-ne e.version small))

-- A SET or an INCR of a watched key that was not there is reported.
pub creation_detected :
    (watched : Table ℕ) (now : ℕ) (key value : Bytes) (ttl : ℤ) (s : Store)
    → Table.get s.items key ≡ none
    → Table.get watched key ≡ some 0
    → (check_watched watched (set now key value ttl s) ≡ true)
      × (check_watched watched (incr now key s).1 ≡ true)
unfolding set incr
creation_detected watched now key value ttl s absent w = (
  check_watched_hit watched (set now key value ttl s) key 0 _ w (Table.get-put_self s.items key _)
      (rw absent (omega arith)),
  rw absent
      (check_watched_hit watched _ key 0 _ w (Table.get-put_self s.items key _) (omega arith)),
)

incr_counted :
    (now : ℕ) (key : Bytes) (e : Entry) (s : Store) {z : ℤ}
    → Table.get s.items key ≡ some e
    → (incr now key s).0 ≡ counted z
    → (incr now key s).1 ≡ record s {
      items = Table.put s.items key (record e {
        value = format_int (wrap_int (atoi_value (atoi e.value) +ℤ pos 1));
        version = bump e.version;
      });
    }
unfolding incr atoi_value
incr_counted now key e s at h = ground arith

-- An INCR of a watched key that returns a number is reported.
pub incr_detected :
    (watched : Table ℕ) (now : ℕ) (key : Bytes) (e : Entry) (s : Store) {z : ℤ}
    → Table.get s.items key ≡ some e
    → Table.get watched key ≡ some e.version
    → e.version < 2 ^ 64
    → (incr now key s).0 ≡ counted z
    → check_watched watched (incr now key s).1 ≡ true
incr_detected watched now key e s at w small h = rw (incr_counted now key e s at h) (
    check_watched_hit watched _ key e.version _ w (Table.get-put_self s.items key _)
      (bump-ne e.version small))

check_watched-remove :
    (watched : Table ℕ) (key : Bytes) (s : Store)
    → check_watched watched s ≡ false
    → check_watched watched (record s { items = Table.remove s.items key }) ≡ false
unfolding check_watched stale
check_watched-remove [] key s h = refl
check_watched-remove ((k, v) ∷ watched) key s h =
    ground (arith, Table.get-remove s.items key k, check_watched-remove watched key s)

get-expired :
    (now : ℕ) (key : Bytes) (s : Store)
    → expired now (old_deadline key s) ≡ true
    → (get now key s).1 ≡ record s { items = Table.remove s.items key }
unfolding get
get-expired now key s x = ground arith

-- The end of a watched key is not reported: if no change was seen before a `Get` that finds
-- the key expired and deletes it, none is seen afterwards.
pub expiry_undetected :
    (watched : Table ℕ) (now : ℕ) (key : Bytes) (s : Store)
    → check_watched watched s ≡ false
    → expired now (old_deadline key s) ≡ true
    → (check_watched watched (get now key s).1 ≡ false)
      × (Table.get (get now key s).1.items key ≡ none)
expiry_undetected watched now key s h x =
    rw (get-expired now key s x)
      (check_watched-remove watched key s h, Table.get-remove_self s.items key)

-- WATCH stops at the first key that is not there: whatever happens to the keys behind it, no change
-- is reported while that key stays away.
pub watch_stops_at_missing :
    (missing : Bytes) (keys : List Bytes) (s later : Store)
    → Table.get s.items missing ≡ none
    → Table.get later.items missing ≡ none
    → check_watched (watch Table.empty (missing ∷ keys) s) later ≡ false
unfolding watch check_watched stale Table.put
watch_stops_at_missing missing keys s later h h' = rw (h, watch) (rw h')
