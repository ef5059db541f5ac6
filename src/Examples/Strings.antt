-- ===== src/Examples/Strings.antt =====
-- Inputs for the laws of the string commands and of the version checks.
use redis_in_go.Prelude.{ℕ, List, ◌≡◌, refl, true, false, [], ◌∷◌, none, some}
use redis_in_go.Prelude.Int.{pos, max_int, min_int}
use redis_in_go.Text.{codes, str_eq}
use redis_in_go.Text.Decimal.{format_int}
use mathlib.Core.Option
use redis_in_go.Table
use redis_in_go.Store.{
  Entry, Store, init, counted, found, get, incr, watch, stale, check_watched, expired,
}
use redis_in_go.Store.StringLaws.{old_deadline, incr_wraps}
use redis_in_go.Store.Histories.{Event, set_at, get_at, loaded, run, get-run}
use redis_in_go.Store.WatchLaws.{watch_unchanged}

-- a key whose deadline is at 50
abbrev old : Entry
old = record { value = codes "old"; expires_at = some 50; version = 3 }

abbrev stale_store : Store
stale_store = record init { items = (codes "k", old) ∷ [] }

-- a key that lives for 5, is read when that is over, and is written once more
abbrev rewritten : List Event
rewritten =
    set_at 30 (codes "k") (codes "w") (pos 0)
    ∷ get_at 20 (codes "k")
    ∷ set_at 10 (codes "k") (codes "v") (pos 5)
    ∷ loaded (codes "j") (codes "x") (pos 7)
    ∷ []

get-run_example : (get 99 (codes "k") (run rewritten)).0 ≡ found (codes "w")
unfolding str_eq
get-run_example = get-run rewritten 99 (codes "k")

names_differ : str_eq (codes "k") (codes "j") ≡ false
unfolding str_eq
names_differ = refl

old_is_expired : expired 60 (old_deadline (codes "k") stale_store) ≡ true
unfolding expired Table.get str_eq
old_is_expired = refl

no_key : Table.get init.items (codes "k") ≡ none
unfolding Table.get
no_key = refl

abbrev full : Entry
full = record { value = codes "9223372036854775807"; expires_at = none; version = 1 }

abbrev full_store : Store
full_store = record init { items = (codes "k", full) ∷ [] }

full_at : Table.get full_store.items (codes "k") ≡ some full
unfolding Table.get str_eq
full_at = refl

full_live : expired 5 full.expires_at ≡ false
unfolding expired
full_live = refl

full_value : full.value ≡ format_int max_int
unfolding format_int
full_value = refl

watch_unchanged_example :
    check_watched (watch Table.empty (codes "k" ∷ codes "j" ∷ []) full_store) full_store ≡ false
watch_unchanged_example = watch_unchanged (codes "k" ∷ codes "j" ∷ []) full_store

abbrev at_one : Table.Table ℕ
at_one = (codes "k", 1) ∷ []

abbrev at_zero : Table.Table ℕ
at_zero = (codes "k", 0) ∷ []

noted : Table.get at_one (codes "k") ≡ some 1
unfolding Table.get str_eq
noted = refl

noted_missing : Table.get at_zero (codes "k") ≡ some 0
unfolding Table.get str_eq
noted_missing = refl

full_incr : (incr 5 (codes "k") full_store).0 ≡ counted min_int
full_incr = incr_wraps_run.0
  where
    incr_wraps_run :
        ((incr 5 (codes "k") full_store).0 ≡ counted min_int)
        × (Option.map
              (λ (e : Entry). e.value)
              (Table.get (incr 5 (codes "k") full_store).1.items (codes "k"))
            ≡ some (format_int min_int))
    incr_wraps_run = incr_wraps 5 (codes "k") full full_store full_at full_live full_value

old_unchanged : check_watched ((codes "k", 3) ∷ []) stale_store ≡ false
unfolding check_watched stale Table.get str_eq
old_unchanged = refl

no_key_later : Table.get full_store.items (codes "j") ≡ none
unfolding Table.get str_eq
no_key_later = refl

no_key_before : Table.get init.items (codes "j") ≡ none
unfolding Table.get
no_key_before = refl
