-- ===== src/Store/State.antt =====
-- The types of internal/store/store.go.
use redis_in_go.Prelude.{ℕ, List, Option, none}
use redis_in_go.Text.{Bytes}
use redis_in_go.Table
use redis_in_go.Table.{Table}

-- An instant is a number of nanoseconds since the Unix epoch, and `none` is the zero `time.Time`.
pub record Entry : Type 0 where
  pub value : Bytes
  pub expires_at : Option ℕ
  pub version : ℕ

pub record StreamEntry : Type 0 where
  pub id : Bytes
  pub values : Table Bytes

pub record Stream : Type 0 where
  pub entries : List StreamEntry

-- `items` is the field `data`. A `chan string` is a number, below `next_chan`; the heap `chans` gives
-- the text that stands in its buffer, which has room for one. The sorted sets and the two flags of
-- the rebuild are not part of this state.
pub record Store : Type 0 where
  pub items : Table Entry
  pub elements : Table (List Bytes)
  pub streams : Table Stream
  pub blocking_clients : Table (List ℕ)
  pub chans : ℕ → Option Bytes
  pub next_chan : ℕ

abbrev pub init : Store
init = record {
  items = Table.empty;
  elements = Table.empty;
  streams = Table.empty;
  blocking_clients = Table.empty;
  chans = λ _. none;
  next_chan = 0;
}
