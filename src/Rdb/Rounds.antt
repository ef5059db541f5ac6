-- ===== src/Rdb/Rounds.antt =====
-- The rounds that the loop of `ReadRDBFile` takes for the parts of a file, against the bytes they take.
use redis_in_go.Prelude.{
  ℕ, suc, ◌+◌, ◌-◌, ◌≤◌, ◌≡◌, List, [], ◌∷◌, ◌++◌, arith, length, length-append, Option, none, some,
}
use redis_in_go.Text.{Bytes}
use redis_in_go.Rdb.Encode.{
  encode_length, encode_string, Item, encode_deadline, encode_item, encode_items, encode_fields,
  Dump, encode_data, encode_sizes, encode_body,
}

-- the rounds of the loop, on top of `k` others
abbrev pub rounds : Option ℕ → ℕ → ℕ
rounds none k = suc k
rounds (some ms) k = suc (suc k)

abbrev pub item_rounds : List Item → ℕ → ℕ
item_rounds [] k = k
item_rounds (e ∷ es) k = rounds e.expires (item_rounds es k)

abbrev pub field_rounds : List (Bytes × Bytes) → ℕ → ℕ
field_rounds [] k = k
field_rounds (f ∷ fs) k = suc (field_rounds fs k)

rounds-add : (d : Option ℕ) (k : ℕ) → rounds d k ≡ rounds d 0 + k
rounds-add none k = omega arith
rounds-add (some ms) k = omega arith

item_rounds-add : (es : List Item) (k : ℕ) → item_rounds es k ≡ item_rounds es 0 + k
item_rounds-add [] k = omega arith
item_rounds-add (e ∷ es) k = omega (
  arith,
  rounds-add e.expires (item_rounds es k),
  rounds-add e.expires (item_rounds es 0),
  item_rounds-add es k,
)

field_rounds-add : (fs : List (Bytes × Bytes)) (k : ℕ) → field_rounds fs k ≡ field_rounds fs 0 + k
field_rounds-add [] k = omega arith
field_rounds-add (f ∷ fs) k = omega (arith, field_rounds-add fs k)

deadline_room : (d : Option ℕ) → rounds d 0 ≤ suc (length (encode_deadline d))
deadline_room none = omega arith
deadline_room (some ms) = omega arith

item_room : (es : List Item) → item_rounds es 0 ≤ length (encode_items es)
item_room [] = omega arith
item_room (e ∷ es) = omega (
  arith,
  rounds-add e.expires (item_rounds es 0),
  deadline_room e.expires,
  item_room es,
  length-append (encode_item e) (encode_items es),
  length-append (encode_deadline e.expires) (0 ∷ (encode_string e.key ++ encode_string e.value)),
)

field_room : (fs : List (Bytes × Bytes)) → field_rounds fs 0 ≤ length (encode_fields fs)
field_room [] = omega arith
field_room (f ∷ fs) = omega (
  arith,
  field_room fs,
  length-append (encode_string f.0) (encode_string f.1 ++ encode_fields fs),
  length-append (encode_string f.1) (encode_fields fs),
)

pub body_room :
    (d : Dump)
    → (k : ℕ) × (length (encode_body d)
        ≡ field_rounds d.fields (suc (suc (item_rounds d.items (suc k)))))
body_room d =
    let k = length (encode_body d) - (field_rounds d.fields 0 + 3 + item_rounds d.items 0) in
    let r = item_rounds d.items (suc k) in
    let total = field_rounds d.fields (suc (suc r)) in
    let room : field_rounds d.fields 0 + 3 + item_rounds d.items 0 ≤ length (encode_body d) =
      omega (
        arith,
        field_room d.fields,
        item_room d.items,
        length-append (encode_fields d.fields)
            (0xFE ∷ (encode_length d.database ++ (0xFB ∷ encode_sizes d))),
        length-append (encode_length d.database) (0xFB ∷ encode_sizes d),
        length-append (encode_length d.size) (encode_length d.expiring ++ encode_data d),
        length-append (encode_length d.expiring) (encode_data d),
        length-append (encode_items d.items) (0xFF ∷ d.checksum),
      ) in
    (
      k,
      omega (arith, room, field_rounds-add d.fields (suc (suc r)), item_rounds-add d.items (suc k)),
    )
