-- ===== src/Store/Strings.antt =====
-- The string commands of internal/store/store.go: `Set`, `SetWithAbsoluteExpiry`, `Get`, `INCR`, and
-- the version checks `Watch` and `CheckWatchedKeysForChange` of a transaction. `now` is what
-- `time.Now()` returns.
use redis_in_go.Prelude.{
  ℕ, ◌+◌, ◌*◌, ◌%◌, ◌^◌, Bool, false, not, ◌||◌, List, [], ◌∷◌, Option, none, some, ltb, ◌==◌,
  if◌then◌else◌,
}
use redis_in_go.Prelude.Int.{ℤ, pos, pos_part, ◌+ℤ◌, ltb_ℤ, wrap_int}
use redis_in_go.Text.{Bytes, codes}
use redis_in_go.Text.Decimal.{Atoi, parsed, syntax_error, range_error, atoi, format_int}
use redis_in_go.Table
use redis_in_go.Table.{Table}
use redis_in_go.Store.State.{Entry, Store}

-- e.version++ on a uint64
abbrev pub bump : ℕ → ℕ
bump v = (v + 1) % 2 ^ 64

abbrev put_item : Bytes → Entry → Store → Store
put_item key e s = record s { items = Table.put s.items key e }

abbrev delete_item : Bytes → Store → Store
delete_item key s = record s { items = Table.remove s.items key }

-- time.Now().Add(ttl), if there is a ttl
abbrev pub deadline : ℕ → ℤ → Option ℕ → Option ℕ
deadline now ttl old = if ltb_ℤ (pos 0) ttl then some (now + pos_part ttl) else old

unfoldable pub set_entry : ℕ → Bytes → ℤ → Option Entry → Entry
set_entry now value ttl none = record {
  value = value;
  expires_at = deadline now ttl none;
  version = 1;
}
set_entry now value ttl (some e) = record {
  value = value;
  expires_at = deadline now ttl e.expires_at;
  version = bump e.version;
}

unfoldable pub set : ℕ → Bytes → Bytes → ℤ → Store → Store
unfolding set_entry
set now key value ttl s = put_item key (set_entry now value ttl (Table.get s.items key)) s

unfoldable pub absolute_entry : Bytes → Option ℕ → Option Entry → Entry
absolute_entry value expires_at none = record {
  value = value;
  expires_at = expires_at;
  version = 1;
}
absolute_entry value expires_at (some e) = record {
  value = value;
  expires_at = expires_at;
  version = bump e.version;
}

-- the time is in milliseconds
unfoldable pub set_with_absolute_expiry : Bytes → Bytes → ℤ → Store → Store
unfolding absolute_entry
set_with_absolute_expiry key value expires_at_ms s =
    let expires_at =
      if ltb_ℤ (pos 0) expires_at_ms then some (pos_part expires_at_ms * 1000000) else none in
    put_item key (absolute_entry value expires_at (Table.get s.items key)) s

-- !e.expiresAt.IsZero() && time.Now().After(e.expiresAt)
unfoldable pub expired : ℕ → Option ℕ → Bool
expired now none = false
expired now (some t) = ltb t now

pub data GetError : Type 0 where
  missing_key expired_key : GetError

pub data GetResult : Type 0 where
  found : Bytes → GetResult
  get_error : GetError → GetResult

unfoldable pub get_entry : ℕ → Bytes → Option Entry → Store → GetResult × Store
get_entry now key none s = (get_error missing_key, s)
get_entry now key (some e) s =
    if expired now e.expires_at
    then (get_error expired_key, delete_item key s)
    else (found e.value, s)

-- A read of an expired key deletes it.
unfoldable pub get : ℕ → Bytes → Store → GetResult × Store
unfolding get_entry expired
get now key s = get_entry now key (Table.get s.items key) s

pub data IncrResult : Type 0 where
  counted : ℤ → IncrResult
  incr_expired incr_not_integer : IncrResult

incr_number : Bytes → Entry → Atoi → Store → IncrResult × Store
incr_number key e (parsed n) s =
    let val = wrap_int (n +ℤ pos 1) in
    (counted val, put_item key (record e { value = format_int val; version = bump e.version }) s)
incr_number key e syntax_error s = (incr_not_integer, s)
incr_number key e (range_error n) s = (incr_not_integer, s)

incr_entry : ℕ → Bytes → Option Entry → Store → IncrResult × Store
unfolding incr_number
incr_entry now key none s =
    (counted (pos 1), put_item key (record { value = codes "1"; expires_at = none; version = 1 }) s)
incr_entry now key (some e) s =
    if expired now e.expires_at
    then (incr_expired, delete_item key s)
    else incr_number key e (atoi e.value) s

unfoldable pub incr : ℕ → Bytes → Store → IncrResult × Store
unfolding incr_entry expired
incr now key s = incr_entry now key (Table.get s.items key) s

-- The loop over `keys` returns at the first key that is not there.
unfoldable pub watch : Table ℕ → List Bytes → Store → Table ℕ
watch watched [] s = watched
watch watched (key ∷ keys) s = elim (Table.get s.items key) [
  | none ↦ Table.put watched key 0
  | some e ↦ watch (Table.put watched key e.version) keys s
]

-- a key that is not there is passed over
unfoldable pub stale : ℕ → Option Entry → Bool
stale version none = false
stale version (some e) = not (e.version == version)

unfoldable pub check_watched : Table ℕ → Store → Bool
check_watched [] s = false
check_watched ((k, version) ∷ watched) s =
    stale version (Table.get s.items k) || check_watched watched s
