-- ===== src/Examples/Rdb.antt =====
-- Concrete inputs for internal/rdbParser/rdbParser.go.
use redis_in_go.Prelude.{refl, ◌≡◌, [], ◌∷◌, none, some, arith, done, panic, ◌++◌, ◌>>=◌}
use redis_in_go.Text.{Bytes, codes, str_eq}
use redis_in_go.Text.Decimal.{format_int}
use redis_in_go.Store.{get, init, found, get_error, expired_key, expired}
use redis_in_go.Rdb.{read_rdb_file, read_string, load_entries}
use redis_in_go.Rdb.Encode.{Item, Dump, encode_dump}
use redis_in_go.Rdb.RoundTrip.{FitsDump, read_rdb_file-encode_dump}
use redis_in_go.Rdb.Loop.{load_items}
use redis_in_go.Rdb.Restore.{restart_restores}

-- what the buffer holds behind the file
abbrev spare : Bytes
spare = 0 ∷ 0 ∷ []

abbrev color : Item
color = record { key = codes "color"; value = codes "red"; expires = none }

abbrev fruit : Item
fruit = record { key = codes "fruit"; value = codes "pear"; expires = some 1000 }

abbrev two_keys : Dump
two_keys = record {
  header = codes "REDIS0011";
  fields = (codes "redis-ver", codes "7.2.0") ∷ [];
  database = 0;
  size = 2;
  expiring = 1;
  items = color ∷ fruit ∷ [];
  checksum = 1 ∷ 2 ∷ [];
}

two_keys-FitsDump : FitsDump two_keys
two_keys-FitsDump = (
  refl,
  ((omega arith, omega arith), tt),
  omega arith,
  omega arith,
  omega arith,
  ((omega arith, omega arith, tt), ((omega arith, omega arith, omega arith), tt)),
)

read_rdb_file-encode_dump_example :
    read_rdb_file spare (encode_dump two_keys) ≡ done (load_items (color ∷ fruit ∷ []) [], none)
read_rdb_file-encode_dump_example = read_rdb_file-encode_dump spare two_keys two_keys-FitsDump

restart_restores_example :
    (read_rdb_file spare (encode_dump two_keys) >>= λ r.
    done ((get 5000000 (codes "fruit") (load_entries r.0 init)).0))
    ≡ done (found (codes "pear"))
unfolding str_eq expired
restart_restores_example =
    restart_restores spare 5000000 (codes "fruit") two_keys init two_keys-FitsDump

-- 0xC0 stands in front of a signed byte
negative_number : read_string spare (0xC0 ∷ 0xFF ∷ 0xFE ∷ []) ≡ done (codes "-1", 0xFE ∷ [])
unfolding read_string format_int
negative_number = refl

expired_after_restart :
    (read_rdb_file spare (encode_dump two_keys) >>= λ r.
    done ((get 1000000001 (codes "fruit") (load_entries r.0 init)).0))
    ≡ done (get_error expired_key)
unfolding str_eq expired
expired_after_restart =
    restart_restores spare 1000000001 (codes "fruit") two_keys init two_keys-FitsDump

-- a string that is cut off at the end of the file, and one that is cut off further
cut_strings :
    (read_string spare (3 ∷ codes "a") ≡ done (codes "a" ++ (0 ∷ 0 ∷ []), []))
    × (read_string spare (4 ∷ codes "a") ≡ panic)
unfolding read_string
cut_strings = (refl, refl)
