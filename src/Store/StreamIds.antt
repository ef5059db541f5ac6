-- ===== src/Store/StreamIds.antt =====
-- Stream IDs in internal/store/store.go: `convertID`, `resolveStreamID` and `compareStreamIDs`.
use redis_in_go.Prelude.{
  ◌≡◌, refl, Bool, not, ◌&&◌, ◌||◌, List, [], ◌∷◌, ◌++◌, Option, none, some, if◌then◌else◌,
}
use redis_in_go.Prelude.Int.{ℤ, pos, negsuc, ◌+ℤ◌, ltb_ℤ, leb_ℤ, eqb_ℤ, wrap_int}
use redis_in_go.Text.{Bytes, codes, str_eq, split}
use redis_in_go.Text.Decimal.{Atoi, parsed, syntax_error, range_error, atoi, format_int}

unfoldable pub sequence : ℤ → Atoi → Option (ℤ × ℤ)
sequence ms (parsed sq) = some (ms, sq)
sequence ms syntax_error = none
sequence ms (range_error _) = none

-- "*" stands for -1
unfoldable pub convert_parts : Atoi → Bytes → Option (ℤ × ℤ)
unfolding sequence
convert_parts (parsed ms) sq =
    if str_eq sq (codes "*") then some (ms, negsuc 0) else sequence ms (atoi sq)
convert_parts syntax_error sq = none
convert_parts (range_error _) sq = none

unfoldable pub convert_split : List Bytes → Option (ℤ × ℤ)
unfolding convert_parts
convert_split (ms ∷ sq ∷ []) = convert_parts (atoi ms) sq
convert_split _ = none

-- `none` is an error
unfoldable pub convert_id : Bytes → Option (ℤ × ℤ)
unfolding convert_split
convert_id id = convert_split (split id b'-')

-- the two numbers where the caller drops the error
unfoldable pub or_zero : Option (ℤ × ℤ) → ℤ × ℤ
or_zero none = (pos 0, pos 0)
or_zero (some p) = p

-- fmt.Sprintf("%d-%d", ms, sq)
unfoldable pub stream_id : ℤ → ℤ → Bytes
stream_id ms sq = format_int ms ++ (b'-' ∷ format_int sq)

pub data Resolved : Type 0 where
  resolved : Bytes → Resolved
  invalid_id zero_id not_greater : Resolved

unfoldable pub max_ℤ : ℤ → ℤ → ℤ
max_ℤ a b = if ltb_ℤ a b then b else a

-- the sequence number for "ms-*"
unfoldable pub next_sequence : Bool → ℤ → ℤ → ℤ → ℤ
next_sequence has_last new_ms last_ms last_sq =
    if has_last && eqb_ℤ new_ms last_ms
    then wrap_int (last_sq +ℤ pos 1)
    else if eqb_ℤ new_ms (pos 0)
    then pos 1
    else pos 0

unfoldable pub chosen_sequence : Bool → ℤ → ℤ → ℤ → ℤ → ℤ
unfolding next_sequence
chosen_sequence has_last new_ms sq last_ms last_sq =
    if eqb_ℤ sq (negsuc 0) then next_sequence has_last new_ms last_ms last_sq else sq

unfoldable pub check_order : Bool → ℤ → ℤ → ℤ → ℤ → Resolved
check_order has_last new_ms new_sq last_ms last_sq =
    if eqb_ℤ new_ms (pos 0) && eqb_ℤ new_sq (pos 0)
    then zero_id
    else if has_last && (ltb_ℤ new_ms last_ms || (eqb_ℤ new_ms last_ms && leb_ℤ new_sq last_sq))
    then not_greater
    else resolved (stream_id new_ms new_sq)

unfoldable pub resolve_requested : Bool → Option (ℤ × ℤ) → ℤ → ℤ → Resolved
unfolding chosen_sequence check_order
resolve_requested has_last none last_ms last_sq = invalid_id
resolve_requested has_last (some (new_ms, sq)) last_ms last_sq =
    check_order has_last new_ms (chosen_sequence has_last new_ms sq last_ms last_sq) last_ms last_sq

-- `now` is time.Now().UnixMilli(), and `last` the ID of the last entry, or "" without one.
unfoldable pub resolve_now : ℤ → ℤ → ℤ → Resolved
unfolding max_ℤ
resolve_now now last_ms last_sq =
    let now_ms = max_ℤ now last_ms in
    let new_sq = if eqb_ℤ now_ms last_ms then wrap_int (last_sq +ℤ pos 1) else pos 0 in
    resolved (stream_id now_ms new_sq)

unfoldable pub resolve_from : ℤ → Bytes → Bool → ℤ × ℤ → Resolved
unfolding resolve_now resolve_requested
resolve_from now requested has_last (last_ms, last_sq) =
    if str_eq requested (codes "*")
    then resolve_now now last_ms last_sq
    else resolve_requested has_last (convert_id requested) last_ms last_sq

unfoldable pub resolve_stream_id : ℤ → Bytes → Bytes → Resolved
unfolding resolve_from or_zero
resolve_stream_id now requested last =
    let has_last = not (str_eq last []) in
    resolve_from now requested has_last
      (if has_last then or_zero (convert_id last) else (pos 0, pos 0))

-- a lexicographic comparison of two pairs: is the first one smaller?
unfoldable pub pair_less : ℤ × ℤ → ℤ × ℤ → Bool
pair_less (ms1, sq1) (ms2, sq2) = if eqb_ℤ ms1 ms2 then ltb_ℤ sq1 sq2 else ltb_ℤ ms1 ms2

-- compareStreamIDs(id1, id2) < 0, and == 0: what `slices.BinarySearchFunc` tests
unfoldable pub id_less : Bytes → Bytes → Bool
unfolding pair_less or_zero
id_less id1 id2 = pair_less (or_zero (convert_id id1)) (or_zero (convert_id id2))

unfoldable pub pair_equal : ℤ × ℤ → ℤ × ℤ → Bool
pair_equal (ms1, sq1) (ms2, sq2) = eqb_ℤ ms1 ms2 && eqb_ℤ sq1 sq2

unfoldable pub id_equal : Bytes → Bytes → Bool
unfolding pair_equal or_zero
id_equal id1 id2 = pair_equal (or_zero (convert_id id1)) (or_zero (convert_id id2))

ids_run :
    (resolve_stream_id (pos 7) (codes "*") (codes "9-4") ≡ resolved (codes "9-5"))
    × (resolve_stream_id (pos 7) (codes "0-*") [] ≡ resolved (codes "0-1"))
    × (resolve_stream_id (pos 7) (codes "9-*") (codes "9-4") ≡ resolved (codes "9-5"))
    × (resolve_stream_id (pos 7) (codes "9-4") (codes "9-4") ≡ not_greater)
    × (resolve_stream_id (pos 7) (codes "9") (codes "9-4") ≡ invalid_id)
    × (resolve_stream_id (pos 7) (codes "0-0") [] ≡ zero_id)
unfolding resolve_stream_id str_eq convert_id split atoi stream_id format_int ◌+ℤ◌ wrap_int
ids_run = (refl, refl, refl, refl, refl, refl)
