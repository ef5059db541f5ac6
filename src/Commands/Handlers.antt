-- ===== src/Commands/Handlers.antt =====
-- The handlers of internal/commands/commands.go for strings, lists and streams. A handler gives the
-- responses that it passes to `SendResponse`, in their order. `args[i]` out of range is a panic.
use redis_in_go.Prelude.{
  ℕ, ◌+◌, ◌/◌, ◌^◌, List, [], ◌∷◌, ◌++◌, Option, none, some, Outcome, done, panic, ◌>>=◌, ltb,
  if◌then◌else◌, length,
}
use redis_in_go.Prelude.Int.{ℤ, pos, scale_int}
use redis_in_go.Text.{Bytes, codes, str_eq, to_lower}
use redis_in_go.Text.Decimal.{Atoi, parsed, syntax_error, range_error, atoi}
use redis_in_go.Resp.{crlf, bulk, bulks, array_header}
use redis_in_go.Table
use redis_in_go.Table.{Table}
use redis_in_go.Store
use redis_in_go.Store.{
  Store, GetResult, found, get_error, IncrResult, counted, incr_expired, incr_not_integer, Xadd,
  added, refused, Resolved, resolved, invalid_id, zero_id, not_greater, RangeEntry,
}
use redis_in_go.Commands.World.{
  World, with_store, handle_modifying_cmd, integer_reply, ok_reply, null_bulk, empty_array,
  not_integer_reply,
}

abbrev pub Reply : Type 0
Reply = Outcome (List Bytes × World)

abbrev now : World → ℕ
now w = w.clock w.ticks

abbrev ticked : Store → World → World
ticked s w = record w { store = s; ticks = w.ticks + 1 }

abbrev reply : Bytes → World → Reply
reply r w = done (r ∷ [], w)

unfoldable pub echo_cmd : List Bytes → World → Reply
echo_cmd [] w = panic
echo_cmd (arg ∷ _) w = reply (bulk arg) w

-- the time to live behind EX or PX, in nanoseconds; `none` where it is no integer
unit_ttl : ℕ → List Bytes → Option ℤ
unit_ttl unit [] = some (pos 0)
unit_ttl unit (n ∷ _) = elim (atoi n) [
  | parsed val ↦ some (scale_int val unit)
  | syntax_error ↦ none
  | range_error _ ↦ none
]

unfoldable pub set_ttl : List Bytes → Option ℤ
unfolding unit_ttl
set_ttl [] = some (pos 0)
set_ttl (option ∷ rest) =
    if str_eq (to_lower option) (codes "ex")
    then unit_ttl (10 ^ 9) rest
    else if str_eq (to_lower option) (codes "px")
    then unit_ttl (10 ^ 6) rest
    else some (pos 0)

unfoldable pub set_value : Bytes → Bytes → Option ℤ → World → Reply
set_value key value none w = reply not_integer_reply w
set_value key value (some ttl) w =
    reply ok_reply (ticked (Store.set (now w) key value ttl w.store) w)

unfoldable pub set_key : List Bytes → World → Reply
unfolding set_ttl set_value
set_key [] w = panic
set_key (key ∷ []) w = panic
set_key (key ∷ value ∷ options) w = set_value key value (set_ttl options) w

unfoldable pub set_cmd : List Bytes → World → Reply
unfolding set_key
set_cmd args w = set_key args (handle_modifying_cmd (codes "set") args w)

get_reply : GetResult → Bytes
get_reply (found val) = bulk val
get_reply (get_error _) = null_bulk

unfoldable pub get_cmd : List Bytes → World → Reply
unfolding get_reply
get_cmd [] w = panic
get_cmd (key ∷ _) w = let (r, s) = Store.get (now w) key w.store in reply (get_reply r) (ticked s w)

incr_reply : IncrResult → Bytes
incr_reply (counted n) = integer_reply n
incr_reply incr_expired = not_integer_reply
incr_reply incr_not_integer = not_integer_reply

unfoldable pub incr_key : List Bytes → World → Reply
unfolding incr_reply
incr_key [] w = done ([], w)
incr_key (key ∷ _) w =
    let (r, s) = Store.incr (now w) key w.store in reply (incr_reply r) (ticked s w)

unfoldable pub incr_cmd : List Bytes → World → Reply
unfolding incr_key
incr_cmd args w = incr_key args (handle_modifying_cmd (codes "incr") args w)

-- a length of 0 gets no reply
push_reply : ℕ → List Bytes
push_reply n = if ltb 0 n then integer_reply (pos n) ∷ [] else []

unfoldable pub rpush_key : List Bytes → World → Reply
unfolding push_reply
rpush_key [] w = panic
rpush_key (key ∷ values) w = do
  (n, s) ← Store.rpush key values w.store
  done (push_reply n, with_store s w)

unfoldable pub rpush_cmd : List Bytes → World → Reply
unfolding rpush_key
rpush_cmd args w = rpush_key args (handle_modifying_cmd (codes "rpush") args w)

unfoldable pub lpush_key : List Bytes → World → Reply
unfolding push_reply
lpush_key [] w = panic
lpush_key (key ∷ values) w = do
  (n, s) ← Store.lpush key values w.store
  done (push_reply n, with_store s w)

unfoldable pub lpush_cmd : List Bytes → World → Reply
unfolding lpush_key
lpush_cmd args w = lpush_key args (handle_modifying_cmd (codes "lpush") args w)

unfoldable pub llen_cmd : List Bytes → World → Reply
llen_cmd [] w = panic
llen_cmd (key ∷ _) w = reply (integer_reply (pos (Store.llen key w.store))) w

-- what `strconv.Atoi` returns beside an error
unfoldable pub atoi_value : Atoi → ℤ
atoi_value (parsed n) = n
atoi_value syntax_error = pos 0
atoi_value (range_error n) = n

atoi_complaint : Atoi → List Bytes
atoi_complaint (parsed n) = []
atoi_complaint syntax_error = empty_array ∷ []
atoi_complaint (range_error n) = empty_array ∷ []

range_reply : Bytes → Bytes
range_reply [] = empty_array
range_reply (b ∷ out) = b ∷ out

-- An index that is no number gets a reply of its own, and the handler goes on.
unfoldable pub lrange_cmd : List Bytes → World → Reply
unfolding atoi_value atoi_complaint range_reply
lrange_cmd (key ∷ start ∷ stop ∷ _) w = do
  out ← Store.lrange key (atoi_value (atoi start)) (atoi_value (atoi stop)) w.store
  done (atoi_complaint (atoi start) ++ (atoi_complaint (atoi stop) ++ range_reply out ∷ []), w)
lrange_cmd _ w = panic

-- `LPop` itself makes the reply
unfoldable pub pop_elements : Bytes → ℤ → World → Reply
pop_elements key n w = do (out, s) ← Store.lpop key n w.store; reply out (with_store s w)

unfoldable pub lpop_key : List Bytes → World → Reply
unfolding pop_elements atoi_value
lpop_key [] w = panic
lpop_key (key ∷ []) w = pop_elements key (pos 1) w
lpop_key (key ∷ n ∷ _) w = pop_elements key (atoi_value (atoi n)) w

unfoldable pub lpop_cmd : List Bytes → World → Reply
unfolding lpop_key
lpop_cmd args w = lpop_key args (handle_modifying_cmd (codes "lpop") args w)

unfoldable pub type_cmd : List Bytes → World → Reply
type_cmd [] w = done ([], w)
type_cmd (key ∷ _) w = reply (b'+' ∷ (Store.key_type key w.store ++ crlf)) w

-- the loop that fills the map; a last key without a value is left out
unfoldable pub xadd_values : Table Bytes → List Bytes → Table Bytes
xadd_values values (k ∷ v ∷ rest) = xadd_values (Table.put values k v) rest
xadd_values values _ = values

-- fmt.Sprintf("-%s\r\n", err.Error())
xadd_error : Resolved → Bytes
xadd_error invalid_id = codes "-ERR Invalid stream ID specified as argument\r\n"
xadd_error zero_id = codes "-ERR The ID specified in XADD must be greater than 0-0\r\n"
xadd_error not_greater =
    codes "-ERR The ID specified in XADD is equal or smaller than the target stream top item\r\n"
xadd_error (resolved id) = bulk id

xadd_reply : Xadd → Bytes
unfolding xadd_error
xadd_reply (added id) = bulk id
xadd_reply (refused e) = xadd_error e

unfoldable pub xadd_key : List Bytes → World → Reply
unfolding xadd_values xadd_reply
xadd_key (key ∷ id ∷ rest) w =
    let (r, s) = Store.xadd (pos (now w / 10 ^ 6)) key id (xadd_values [] rest) w.store in
    reply (xadd_reply r) (ticked s w)
xadd_key _ w = panic

unfoldable pub xadd_cmd : List Bytes → World → Reply
unfolding xadd_key
xadd_cmd args w = xadd_key args (handle_modifying_cmd (codes "xadd") args w)

-- The values of an entry stand behind the header of a two-element array, however many they are.
unfoldable pub format_range_entry : RangeEntry → Bytes
format_range_entry e = array_header 2 ++ (bulk e.id ++ (array_header 2 ++ bulks e.values))

format_range : List RangeEntry → Bytes
unfolding format_range_entry
format_range [] = []
format_range (e ∷ es) = format_range_entry e ++ format_range es

unfoldable pub xrange_cmd : List Bytes → World → Reply
unfolding format_range
xrange_cmd (key ∷ start_id ∷ end_id ∷ _) w = do
  data' ← Store.xrange key start_id end_id w.store
  reply (array_header (length data') ++ format_range data') w
xrange_cmd _ w = done ([], w)

-- The built-in commands that only use the store.
pub data StoreCmd : Type 0 where
  echo set get incr rpush lpush llen lrange lpop key_type xadd xrange : StoreCmd

-- h.builtIns[cmd], for these commands
unfoldable pub run_store_cmd : StoreCmd → List Bytes → World → Reply
unfolding echo_cmd set_cmd get_cmd incr_cmd rpush_cmd lpush_cmd llen_cmd lrange_cmd lpop_cmd
    type_cmd xadd_cmd xrange_cmd
run_store_cmd echo = echo_cmd
run_store_cmd set = set_cmd
run_store_cmd get = get_cmd
run_store_cmd incr = incr_cmd
run_store_cmd rpush = rpush_cmd
run_store_cmd lpush = lpush_cmd
run_store_cmd llen = llen_cmd
run_store_cmd lrange = lrange_cmd
run_store_cmd lpop = lpop_cmd
run_store_cmd key_type = type_cmd
run_store_cmd xadd = xadd_cmd
run_store_cmd xrange = xrange_cmd
