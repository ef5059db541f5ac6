-- ===== src/Rdb/Restore.antt =====
-- `loadRDBIntoStore` of app/main.go on the entries of a file that is written in the format of
-- Rdb/Encode.
use redis_in_go.Prelude.{
  ℕ, ◌*◌, sym, ◌∙◌, ◌≡◌, refl, true, false, Bool, List, [], ◌∷◌, Option, none, some, arith, done,
  ◌>>=◌, if◌then◌else◌,
}
use redis_in_go.Prelude.Int.{ℤ, pos, pos_part, ltb_ℤ}
use redis_in_go.Text.{Bytes, str_eq, str_eq_iff}
use redis_in_go.Table
use redis_in_go.Table.{Table}
use redis_in_go.Store.{Store, set_with_absolute_expiry, get, GetResult}
use redis_in_go.Store.StringLaws.{read_back}
use redis_in_go.Rdb.{RdbEntry, load_entries, read_rdb_file}
use redis_in_go.Rdb.Encode.{Item, Dump, encode_dump}
use redis_in_go.Rdb.Loop.{load_items, item_entry}
use redis_in_go.Rdb.RoundTrip.{FitsDump, read_rdb_file-encode_dump}

-- Each entry stands under its own key, and no key stands twice.
abbrev IsKeyed : Table RdbEntry → Type 0
IsKeyed [] = Unit
IsKeyed ((j, e) ∷ m) = (e.key ≡ j) × (Table.get m j ≡ none) × IsKeyed m

IsKeyed-if :
    (b : Bool) (x y : Table RdbEntry)
    → (b ≡ true → IsKeyed x)
    → (b ≡ false → IsKeyed y)
    → IsKeyed (if b then x else y)
IsKeyed-if true x y hx hy = hx refl
IsKeyed-if false x y hx hy = hy refl

str_eq_sym : (j k : Bytes) → str_eq j k ≡ false → str_eq k j ≡ false
str_eq_sym j k h = ground (arith, str_eq_iff j k, str_eq_iff k j)

put-IsKeyed :
    (m : Table RdbEntry) (k : Bytes) (e : RdbEntry)
    → e.key ≡ k
    → IsKeyed m
    → IsKeyed (Table.put m k e)
unfolding Table.put Table.get
put-IsKeyed [] k e h hm = (h, refl, tt)
put-IsKeyed ((j, w) ∷ m) k e h hm =
    IsKeyed-if (str_eq j k) ((j, e) ∷ m) ((j, w) ∷ Table.put m k e)
      (λ same. (h ∙ sym ((str_eq_iff j k).0 same), hm.1, hm.2))
      (λ differ.
        (hm.0, Table.get-put_ne m k j e (str_eq_sym j k differ) ∙ hm.1, put-IsKeyed m k e h hm.2))

load_items-IsKeyed : (es : List Item) (m : Table RdbEntry) → IsKeyed m → IsKeyed (load_items es m)
load_items-IsKeyed [] m h = h
load_items-IsKeyed (e ∷ es) m h =
    load_items-IsKeyed es (Table.put m e.key (item_entry e))
      (put-IsKeyed m e.key (item_entry e) refl h)

-- the last item with a key
abbrev pub newest : List Item → Bytes → Option RdbEntry → Option RdbEntry
newest [] k found = found
newest (e ∷ es) k found = newest es k (if str_eq e.key k then some (item_entry e) else found)

get-load_items :
    (es : List Item) (m : Table RdbEntry) (k : Bytes)
    → Table.get (load_items es m) k ≡ newest es k (Table.get m k)
get-load_items [] m k = refl
get-load_items (e ∷ es) m k =
    rw
      (
        get-load_items es (Table.put m e.key (item_entry e)) k,
        Table.get-put m e.key k (item_entry e),
      )
      refl

-- nanoseconds from milliseconds, where no positive number stands for no deadline
abbrev pub absolute_deadline : ℤ → Option ℕ
absolute_deadline ms = if ltb_ℤ (pos 0) ms then some (pos_part ms * 1000000) else none

-- what a Get returns of an entry, and without one
abbrev pub restored : ℕ → GetResult → Option RdbEntry → GetResult
restored t before none = before
restored t before (some e) = read_back t e.value (absolute_deadline e.expire_at)

get-set_absolute :
    (t : ℕ) (key other value : Bytes) (ms : ℤ) (s : Store)
    → (get t other (set_with_absolute_expiry key value ms s)).0
      ≡ (if str_eq key other then read_back t value (absolute_deadline ms) else (get t other s).0)
unfolding get set_with_absolute_expiry
get-set_absolute t key other value ms s = simp (Table.get-put) (ground arith)

-- one entry of the table
get-set_restored :
    (t : ℕ) (k j : Bytes) (e : RdbEntry) (found : Option RdbEntry) (s : Store)
    → e.key ≡ j
    → (str_eq j k ≡ true → found ≡ none)
    → restored t (get t k (set_with_absolute_expiry e.key e.value e.expire_at s)).0 found
      ≡ restored t (get t k s).0 (if str_eq j k then some e else found)
get-set_restored t k j e none s h hn =
    rw (sym h, get-set_absolute t e.key k e.value e.expire_at s) (ground arith)
get-set_restored t k j e (some x) s h hn = ground (arith, hn)

get-load_entries :
    (t : ℕ) (k : Bytes) (m : Table RdbEntry) (s : Store)
    → IsKeyed m
    → (get t k (load_entries m s)).0 ≡ restored t (get t k s).0 (Table.get m k)
unfolding load_entries Table.get
get-load_entries t k [] s h = refl
get-load_entries t k ((j, e) ∷ m) s h =
    let s' = set_with_absolute_expiry e.key e.value e.expire_at s in
    get-load_entries t k m s' h.2
    ∙ get-set_restored t k j e (Table.get m k) s h.0
        (λ same. rw (sym ((str_eq_iff j k).0 same)) h.1)

-- A Get after the store has been loaded from a file: it returns what the last item with its key says,
-- unless its deadline has passed, and what it returned before if no item has that key. The header has
-- 9 bytes, each length and number of the file is below 2^32, and each deadline below 2^63 milliseconds,
-- where 0 is none.
pub restart_restores :
    (spare : Bytes) (t : ℕ) (k : Bytes) (d : Dump) (s : Store)
    → FitsDump d
    → (read_rdb_file spare (encode_dump d) >>= λ r. done ((get t k (load_entries r.0 s)).0))
      ≡ done (restored t (get t k s).0 (newest d.items k none))
unfolding Table.get
restart_restores spare t k d s h =
    rw
      (
        read_rdb_file-encode_dump spare d h,
        get-load_entries t k (load_items d.items []) s (load_items-IsKeyed d.items [] tt),
        get-load_items d.items [] k,
      )
      refl
