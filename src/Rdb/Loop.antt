-- ===== src/Rdb/Loop.antt =====
-- The rounds of the loop of `ReadRDBFile`, one for each kind of operation in Rdb/Encode.
use redis_in_go.Prelude.{
  ℕ, suc, ◌^◌, ◌<◌, ◌≡◌, refl, List, [], ◌∷◌, ◌++◌, append_assoc, arith, length, Option, none, some,
  done,
}
use redis_in_go.Prelude.Int.{ℤ, pos, wrap_int}
use redis_in_go.Text.{Bytes, All}
use redis_in_go.Table
use redis_in_go.Table.{Table}
use redis_in_go.Rdb.{RdbEntry, read_op, read_value, read_loop, next}
use redis_in_go.Rdb.Encode.{
  encode_little_endian, encode_length, encode_string, Item, encode_deadline, encode_item,
  encode_items, encode_fields,
}
use redis_in_go.Rdb.Strings.{
  read_length-encode_length, read_string-encode_string, little_endian-encode,
}
use redis_in_go.Rdb.Rounds.{rounds, item_rounds, field_rounds}

abbrev pub expiry : Option ℕ → ℤ
expiry none = pos 0
expiry (some ms) = pos ms

-- the entry that an item becomes
abbrev pub item_entry : Item → RdbEntry
item_entry e = record { key = e.key; value = e.value; expire_at = expiry e.expires }

abbrev pub load_items : List Item → Table RdbEntry → Table RdbEntry
load_items [] m = m
load_items (e ∷ es) m = load_items es (Table.put m e.key (item_entry e))

abbrev pub FitsDeadline : Option ℕ → Type 0
FitsDeadline none = Unit
FitsDeadline (some ms) = ms < 2 ^ 63

abbrev pub Fits : Item → Type 0
Fits e = (length e.key < 2 ^ 32) × (length e.value < 2 ^ 32) × FitsDeadline e.expires

abbrev pub FitsField : Bytes × Bytes → Type 0
FitsField (name, value) = (length name < 2 ^ 32) × (length value < 2 ^ 32)

module _ (spare : Bytes) where
  read_op-string :
      (e : Item) (m : Table RdbEntry) (p : ℤ) (rest : Bytes)
      → Fits e
      → read_op spare 0 m p (encode_string e.key ++ (encode_string e.value ++ rest))
        ≡ done (
            next
              (Table.put m e.key (record { key = e.key; value = e.value; expire_at = p }))
              (pos 0)
              rest)
  unfolding read_op read_value
  read_op-string e m p rest h =
      rw
        (
          read_string-encode_string spare e.key (encode_string e.value ++ rest) h.0,
          read_string-encode_string spare e.value rest h.1,
        )
        refl

  read_op-deadline :
      (ms : ℕ) (m : Table RdbEntry) (p : ℤ) (rest : Bytes)
      → ms < 2 ^ 63
      → read_op spare 0xFC m p (encode_little_endian 8 ms ++ rest) ≡ done (next m (pos ms) rest)
  unfolding read_op wrap_int
  read_op-deadline ms m p rest h =
      rw (little_endian-encode spare 8 ms rest (omega arith)) (ground arith)

  read_op-field :
      (f : Bytes × Bytes) (m : Table RdbEntry) (p : ℤ) (rest : Bytes)
      → FitsField f
      → read_op spare 0xFA m p (encode_string f.0 ++ (encode_string f.1 ++ rest))
        ≡ done (next m p rest)
  unfolding read_op
  read_op-field f m p rest h =
      rw
        (
          read_string-encode_string spare f.0 (encode_string f.1 ++ rest) h.0,
          read_string-encode_string spare f.1 rest h.1,
        )
        refl

  -- One round of the loop.
  pub step :
      (fuel op : ℕ) (m m' : Table RdbEntry) (p p' : ℤ) (buf rest : Bytes)
      → read_op spare op m p buf ≡ done (next m' p' rest)
      → read_loop spare (suc fuel) m p (op ∷ buf) ≡ read_loop spare fuel m' p' rest
  unfolding read_loop
  step fuel op m m' p p' buf rest h = rw h refl

  read_loop-deadline :
      (k : ℕ) (d : Option ℕ) (m : Table RdbEntry) (rest : Bytes)
      → FitsDeadline d
      → read_loop spare (rounds d k) m (pos 0) (encode_deadline d ++ (0 ∷ rest))
        ≡ read_loop spare (suc k) m (expiry d) (0 ∷ rest)
  read_loop-deadline k none m rest h = refl
  read_loop-deadline k (some ms) m rest h =
      step (suc k) 0xFC m m (pos 0) (pos ms) (encode_little_endian 8 ms ++ (0 ∷ rest)) (0 ∷ rest)
        (read_op-deadline ms m (pos 0) (0 ∷ rest) h)

  item_append :
      (e : Item) (rest : Bytes)
      → encode_item e ++ rest
        ≡ encode_deadline e.expires
          ++ (0 ∷ (encode_string e.key ++ (encode_string e.value ++ rest)))
  item_append e rest = simp append_assoc

  read_loop-item :
      (k : ℕ) (e : Item) (m : Table RdbEntry) (rest : Bytes)
      → Fits e
      → read_loop spare (rounds e.expires k) m (pos 0) (encode_item e ++ rest)
        ≡ read_loop spare k (Table.put m e.key (item_entry e)) (pos 0) rest
  read_loop-item k e m rest h =
      let strings = encode_string e.key ++ (encode_string e.value ++ rest) in
      rw (item_append e rest, read_loop-deadline k e.expires m strings h.2)
        (step k 0 m (Table.put m e.key (item_entry e)) (expiry e.expires) (pos 0) strings rest
          (read_op-string e m (expiry e.expires) rest h))

  pub read_loop-items :
      (k : ℕ) (es : List Item) (m : Table RdbEntry) (rest : Bytes)
      → All Fits es
      → read_loop spare (item_rounds es k) m (pos 0) (encode_items es ++ rest)
        ≡ read_loop spare k (load_items es m) (pos 0) rest
  read_loop-items k [] m rest h = refl
  read_loop-items k (e ∷ es) m rest h =
      rw
        (
          append_assoc (encode_item e) (encode_items es) rest,
          read_loop-item (item_rounds es k) e m (encode_items es ++ rest) h.0,
        )
        (read_loop-items k es (Table.put m e.key (item_entry e)) rest h.1)

  field_append :
      (f : Bytes × Bytes) (fs : List (Bytes × Bytes)) (rest : Bytes)
      → encode_fields (f ∷ fs) ++ rest
        ≡ 0xFA ∷ (encode_string f.0 ++ (encode_string f.1 ++ (encode_fields fs ++ rest)))
  field_append f fs rest = simp append_assoc

  pub read_loop-fields :
      (k : ℕ) (fs : List (Bytes × Bytes)) (m : Table RdbEntry) (p : ℤ) (rest : Bytes)
      → All FitsField fs
      → read_loop spare (field_rounds fs k) m p (encode_fields fs ++ rest)
        ≡ read_loop spare k m p rest
  read_loop-fields k [] m p rest h = refl
  read_loop-fields k (f ∷ fs) m p rest h =
      let behind = encode_fields fs ++ rest in
      rw
        (
          field_append f fs rest,
          step (field_rounds fs k) 0xFA m m p p (encode_string f.0 ++ (encode_string f.1 ++ behind))
              behind (read_op-field f m p behind h.0),
        )
        (read_loop-fields k fs m p rest h.1)

  pub read_op-database :
      (n : ℕ) (m : Table RdbEntry) (p : ℤ) (rest : Bytes)
      → n < 2 ^ 32
      → read_op spare 0xFE m p (encode_length n ++ rest) ≡ done (next m p rest)
  unfolding read_op
  read_op-database n m p rest h = rw (read_length-encode_length spare n rest h) refl

  pub read_op-sizes :
      (a b : ℕ) (m : Table RdbEntry) (p : ℤ) (rest : Bytes)
      → a < 2 ^ 32
      → b < 2 ^ 32
      → read_op spare 0xFB m p (encode_length a ++ (encode_length b ++ rest)) ≡ done (next m p rest)
  unfolding read_op
  read_op-sizes a b m p rest ha hb =
      rw
        (
          read_length-encode_length spare a (encode_length b ++ rest) ha,
          read_length-encode_length spare b rest hb,
        )
        refl
