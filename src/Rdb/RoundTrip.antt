-- ===== src/Rdb/RoundTrip.antt =====
-- `ReadRDBFile` on a file that is written in the format of Rdb/Encode, and the store after it.
use redis_in_go.Prelude.{ℕ, suc, ◌^◌, ◌<◌, ◌≡◌, refl, sym, [], ◌∷◌, ◌++◌, length, none, done}
use redis_in_go.Prelude.Int.{ℤ, pos}
use redis_in_go.Text.{Bytes, All}
use redis_in_go.Table.{Table}
use redis_in_go.Resp.RoundTrip.{drop-append}
use redis_in_go.Rdb.{RdbEntry, read_op, read_loop, read_rdb_file}
use redis_in_go.Rdb.Encode.{
  encode_length, Dump, encode_data, encode_sizes, encode_body, encode_dump,
}
use redis_in_go.Rdb.Rounds.{item_rounds, field_rounds, body_room}
use redis_in_go.Rdb.Loop.{
  load_items, FitsField, Fits, step, read_op-database, read_op-sizes, read_loop-items,
  read_loop-fields,
}

abbrev pub FitsDump : Dump → Type 0
FitsDump d =
    (length d.header ≡ 9)
    × All FitsField d.fields
    × (d.database < 2 ^ 32)
    × (d.size < 2 ^ 32)
    × (d.expiring < 2 ^ 32)
    × All Fits d.items

module _ (spare : Bytes) where
  end_of_file :
      (k : ℕ) (m : Table RdbEntry) (p : ℤ) (rest : Bytes)
      → read_loop spare (suc k) m p (0xFF ∷ rest) ≡ done (m, none)
  unfolding read_loop read_op
  end_of_file k m p rest = refl

  read_loop-body :
      (k : ℕ) (d : Dump)
      → FitsDump d
      → read_loop spare
          (field_rounds d.fields (suc (suc (item_rounds d.items (suc k)))))
          []
          (pos 0)
          (encode_body d)
        ≡ done (load_items d.items [], none)
  read_loop-body k d h =
      let r = item_rounds d.items (suc k) in
      rw
        (
          read_loop-fields spare (suc (suc r)) d.fields [] (pos 0)
              (0xFE ∷ (encode_length d.database ++ (0xFB ∷ encode_sizes d))) h.1,
          step spare (suc r) 0xFE [] [] (pos 0) (pos 0)
              (encode_length d.database ++ (0xFB ∷ encode_sizes d)) (0xFB ∷ encode_sizes d)
              (read_op-database spare d.database [] (pos 0) (0xFB ∷ encode_sizes d) h.2),
          step spare r 0xFB [] [] (pos 0) (pos 0) (encode_sizes d) (encode_data d)
              (read_op-sizes spare d.size d.expiring [] (pos 0) (encode_data d) h.3 h.4),
          read_loop-items spare (suc k) d.items [] (0xFF ∷ d.checksum) h.5,
        )
        (end_of_file k (load_items d.items []) (pos 0) d.checksum)

  -- A file that is written in the format comes back as the table of its items, the last one for each
  -- key, whatever its fields, its numbers, the text behind its end and the buffer behind the file are.
  -- The header has 9 bytes, each length and number of the file is below 2^32, and each deadline below
  -- 2^63 milliseconds.
  pub read_rdb_file-encode_dump :
      (d : Dump)
      → FitsDump d
      → read_rdb_file spare (encode_dump d) ≡ done (load_items d.items [], none)
  unfolding read_rdb_file
  read_rdb_file-encode_dump d h =
      let (k, e) = body_room d in
      rw (sym h.0, drop-append d.header (encode_body d), e) (read_loop-body k d h)
