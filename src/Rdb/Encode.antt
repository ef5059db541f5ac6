-- ===== src/Rdb/Encode.antt =====
-- The RDB format, as a writer has it: the strings of internal/rdbParser/rdbParser.go with a length in
-- front, and entries with their deadlines in milliseconds.
use redis_in_go.Prelude.{
  ℕ, zero, suc, ◌+◌, ◌/◌, ◌%◌, List, [], ◌∷◌, ◌++◌, Option, none, some, ltb, if◌then◌else◌, length,
}
use redis_in_go.Text.{Bytes}

abbrev pub encode_length : ℕ → Bytes
encode_length n =
    if ltb n 64
    then n ∷ []
    else if ltb n 16384
    then (64 + n / 256) ∷ n % 256 ∷ []
    else 128 ∷ n / 16777216 ∷ n / 65536 % 256 ∷ n / 256 % 256 ∷ n % 256 ∷ []

abbrev pub encode_string : Bytes → Bytes
encode_string s = encode_length (length s) ++ s

-- the lowest `n` bytes, the lowest one first
abbrev pub encode_little_endian : ℕ → ℕ → Bytes
encode_little_endian zero n = []
encode_little_endian (suc k) n = n % 256 ∷ encode_little_endian k (n / 256)

-- A key with its value, and its deadline if it has one.
pub record Item : Type 0 where
  pub key : Bytes
  pub value : Bytes
  pub expires : Option ℕ

abbrev pub encode_deadline : Option ℕ → Bytes
encode_deadline none = []
encode_deadline (some ms) = 0xFC ∷ encode_little_endian 8 ms

abbrev pub encode_item : Item → Bytes
encode_item e = encode_deadline e.expires ++ (0 ∷ (encode_string e.key ++ encode_string e.value))

abbrev pub encode_items : List Item → Bytes
encode_items [] = []
encode_items (e ∷ es) = encode_item e ++ encode_items es

-- auxiliary fields, as pairs of strings
abbrev pub encode_fields : List (Bytes × Bytes) → Bytes
encode_fields [] = []
encode_fields ((name, value) ∷ fields) =
    0xFA ∷ (encode_string name ++ (encode_string value ++ encode_fields fields))

-- The data of one database with its number and two counts, and what stands behind the end mark.
pub record Dump : Type 0 where
  pub header : Bytes
  pub fields : List (Bytes × Bytes)
  pub database : ℕ
  pub size : ℕ
  pub expiring : ℕ
  pub items : List Item
  pub checksum : Bytes

abbrev pub encode_data : Dump → Bytes
encode_data d = encode_items d.items ++ (0xFF ∷ d.checksum)

abbrev pub encode_sizes : Dump → Bytes
encode_sizes d = encode_length d.size ++ (encode_length d.expiring ++ encode_data d)

abbrev pub encode_body : Dump → Bytes
encode_body d =
    encode_fields d.fields ++ (0xFE ∷ (encode_length d.database ++ (0xFB ∷ encode_sizes d)))

abbrev pub encode_dump : Dump → Bytes
encode_dump d = d.header ++ encode_body d
