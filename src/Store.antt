-- ===== src/Store.antt =====
-- internal/store/store.go: the state behind the mutex `s.mu`, and its operations. Each operation
-- holds the mutex from its first access to its last, so that it is one step on the state; the
-- operations that wait on a channel (`BLPop`, `XRead`) are several steps.
mod State
mod Strings
mod Channels
mod Lists
mod StreamIds
mod Streams
pub mod Histories
pub mod StringLaws
pub mod WatchLaws
pub mod ListLaws
pub mod PushLaws
pub mod WaitLaws
pub mod StreamOrder
pub mod StreamLaws
pub mod SearchLaws
pub mod RangeLaws
pub mod WaitBegin
pub mod WaitEnd
pub mod WaitSteps
pub use State.{Entry, StreamEntry, Stream, Store, init}
pub use Strings.{
  GetError, missing_key, expired_key, GetResult, found, get_error, IncrResult, counted,
  incr_expired, incr_not_integer, bump, deadline,
}
unfoldable pub use Strings.{
  set, set_with_absolute_expiry, expired, get, incr, watch, stale, check_watched,
}
pub use Lists.{Blpop, popped, waiting, stored, put_list}
pub use Channels.{waiters}
unfoldable pub use Channels.{
  send, try_send, receive, enqueue, make_chan, without_first, set_queue, remove_waiter,
}
unfoldable pub use Lists.{
  check_for_blocking_clients, rpush, lpush, reversed, llen, lrange, lpop, blpop, blpop_timeout,
  key_type, write_elements, from_end,
}
pub use StreamIds.{Resolved, resolved, invalid_id, zero_id, not_greater}
unfoldable pub use StreamIds.{
  convert_id, stream_id, resolve_stream_id, id_less, id_equal, next_sequence, chosen_sequence,
  check_order,
}
pub use Streams.{entries_at, Xadd, added, refused, RangeEntry, ReadEntry, Xread, read, no_reply}
unfoldable pub use Streams.{
  last_id, notify, xadd, search_from, binary_search, search_id, flat_values, range_entry, collect,
  collect_between, range_end, xrange, start_ids, read_stream, collect_entries, xread, enqueue_all,
  remove_waiter_from_keys, xread_wake, xread_timeout,
}
