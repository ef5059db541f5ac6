-- ===== src/Commands/Session.antt =====
-- The handler of one connection in internal/commands/commands.go: `SendResponse`, the commands of a
-- transaction, `executeBuiltIn` and `handleCommands`.
use redis_in_go.Prelude.{
  ℕ, zero, suc, Bool, true, false, not, ◌&&◌, ◌||◌, List, [], ◌∷◌, ◌++◌, none, some, Outcome, done,
  panic, blocked, ◌>>=◌, if◌then◌else◌, length,
}
use redis_in_go.Text.{Bytes, codes, str_eq, to_lower}
use redis_in_go.Resp.{array_header}
use redis_in_go.Table
use redis_in_go.Table.{Table}
use redis_in_go.Store
use redis_in_go.Commands.World.{World, concat, ok_reply, null_array, empty_array}
use redis_in_go.Commands.Handlers.{
  StoreCmd, echo, set, get, incr, rpush, lpush, llen, lrange, lpop, key_type, xadd, xrange,
  run_store_cmd,
}

pub record QueueEntry : Type 0 where
  pub cmd : Bytes
  pub args : List Bytes

-- The handler with the world that it acts on. `sent` is what went to the connection. `is_rebuilding`
-- and `is_done_rebuilding` are the flags `IsRebuildingState` and `IsDoneRebuilding` of the store.
pub record Session : Type 0 where
  pub authenticated : Bool
  pub is_master_conn : Bool
  pub is_rebuilding : Bool
  pub is_done_rebuilding : Bool
  pub is_subscriber_mode : Bool
  pub cmd_queue : List QueueEntry
  pub is_multi_active : Bool
  pub is_response_queued : Bool
  pub cmd_queue_responses : List Bytes
  pub watched_keys : Table ℕ
  pub sent : Bytes
  pub world : World

unfoldable pub send_response : Bytes → Session → Session
send_response response s =
    if s.is_master_conn || s.is_rebuilding
    then s
    else if s.is_response_queued
    then record s { cmd_queue_responses = s.cmd_queue_responses ++ response ∷ [] }
    else record s { sent = s.sent ++ response }

unfoldable pub send_all : List Bytes → Session → Session
send_all [] s = s
send_all (r ∷ rs) s = send_all rs (send_response r s)

-- The built-in commands. `other` is one whose handler is not modelled: its name is in the table, and
-- its handler is the argument `others` below.
pub data BuiltIn : Type 0 where
  store_cmd : StoreCmd → BuiltIn
  ping multi exec discard watch unwatch : BuiltIn
  other : Bytes → BuiltIn

other_names : List Bytes → Table BuiltIn
other_names [] = []
other_names (name ∷ names) = (name, other name) ∷ other_names names

unfoldable pub built_ins : Table BuiltIn
unfolding other_names
built_ins =
    (codes "echo", store_cmd echo)
    ∷ (codes "ping", ping)
    ∷ (codes "set", store_cmd set)
    ∷ (codes "get", store_cmd get)
    ∷ (codes "rpush", store_cmd rpush)
    ∷ (codes "lrange", store_cmd lrange)
    ∷ (codes "lpush", store_cmd lpush)
    ∷ (codes "llen", store_cmd llen)
    ∷ (codes "lpop", store_cmd lpop)
    ∷ (codes "type", store_cmd key_type)
    ∷ (codes "xadd", store_cmd xadd)
    ∷ (codes "xrange", store_cmd xrange)
    ∷ (codes "incr", store_cmd incr)
    ∷ (codes "multi", multi)
    ∷ (codes "exec", exec)
    ∷ (codes "discard", discard)
    ∷ (codes "watch", watch)
    ∷ (codes "unwatch", unwatch)
    ∷ other_names (
        codes "blpop"
        ∷ codes "xread"
        ∷ codes "info"
        ∷ codes "replconf"
        ∷ codes "psync"
        ∷ codes "wait"
        ∷ codes "config"
        ∷ codes "keys"
        ∷ codes "save"
        ∷ codes "subscribe"
        ∷ codes "publish"
        ∷ codes "unsubscribe"
        ∷ codes "zadd"
        ∷ codes "zrank"
        ∷ codes "zrange"
        ∷ codes "zcard"
        ∷ codes "zscore"
        ∷ codes "zrem"
        ∷ codes "geoadd"
        ∷ codes "geopos"
        ∷ codes "geodist"
        ∷ codes "geosearch"
        ∷ codes "acl"
        ∷ codes "auth"
        ∷ [])

unfoldable pub is_subscribe_cmd : Bytes → Bool
is_subscribe_cmd cmd =
    str_eq cmd (codes "subscribe")
    || str_eq cmd (codes "unsubscribe")
    || str_eq cmd (codes "psubscribe")
    || str_eq cmd (codes "punsubscribe")
    || str_eq cmd (codes "ping")
    || str_eq cmd (codes "quit")

unfoldable pub discard_watch : Session → Session
discard_watch s = record s {
  is_multi_active = false;
  is_response_queued = false;
  cmd_queue_responses = [];
  cmd_queue = [];
  watched_keys = Table.empty;
}

unfoldable pub ping_cmd : Session → Session
ping_cmd s =
    if s.is_subscriber_mode
    then send_response (codes "*2\r\n$4\r\npong\r\n$0\r\n\r\n") s
    else send_response (codes "+PONG\r\n") s

unfoldable pub multi_cmd : Session → Session
multi_cmd s = record (send_response ok_reply s) { is_multi_active = true }

unfoldable pub discard_cmd : Session → Session
discard_cmd s =
    if s.is_multi_active
    then send_response ok_reply (discard_watch s)
    else send_response (codes "-ERR DISCARD without MULTI\r\n") s

unfoldable pub unwatch_cmd : Session → Session
unwatch_cmd s = send_response ok_reply (discard_watch s)

unfoldable pub watch_cmd : List Bytes → Session → Session
watch_cmd keys s =
    send_response ok_reply
      (record s { watched_keys = Store.watch s.watched_keys keys s.world.store })

unfoldable pub store_cmd_reply : StoreCmd → List Bytes → Session → Outcome Session
store_cmd_reply c args s = do
  (rs, w) ← run_store_cmd c args s.world
  done (send_all rs (record s { world = w }))

abbrev pub Execute : Type 0
Execute = Bytes → List Bytes → Session → Outcome Session

unfoldable pub execute_all : Execute → List QueueEntry → Session → Outcome Session
execute_all execute [] s = done s
execute_all execute (e ∷ es) s = do s' ← execute e.cmd e.args s; execute_all execute es s'

-- the one array of the responses that were kept back
unfoldable pub send_queued : Session → Session
send_queued s =
    let rs = s.cmd_queue_responses in
    send_response (array_header (length rs) ++ concat rs)
      (record s { is_response_queued = false; cmd_queue_responses = [] })

-- EXEC with commands in the queue
unfoldable pub exec_queue : Execute → List QueueEntry → Session → Outcome Session
unfolding execute_all send_queued discard_watch
exec_queue execute queue s =
    if Store.check_watched s.watched_keys s.world.store
    then done (send_response null_array (discard_watch s))
    else (do
      s' ←
          execute_all execute queue
            (record s { is_response_queued = true; is_multi_active = false })
      done (send_queued s'))

unfoldable pub exec_open : Execute → List QueueEntry → Session → Outcome Session
unfolding exec_queue
exec_open execute [] s = done (record (send_response empty_array s) { is_multi_active = false })
exec_open execute (e ∷ es) s = exec_queue execute (e ∷ es) s

unfoldable pub exec_cmd : Execute → Session → Outcome Session
unfolding exec_open
exec_cmd execute s =
    if not s.is_multi_active
    then done (send_response (codes "-ERR EXEC without MULTI\r\n") s)
    else exec_open execute s.cmd_queue s

abbrev pub Call : Type 0
Call = BuiltIn → List Bytes → Session → Outcome Session

unfoldable pub unknown_reply : Bytes → Bytes
unknown_reply cmd = codes "-ERR unknown command '" ++ (cmd ++ codes "'\r\n")

subscriber_reply : Bytes → Bytes
subscriber_reply cmd =
    codes "-ERR can't execute '" ++ (cmd ++ codes "' when one or more subscriptions exist\r\n")

unfoldable pub enqueue_cmd : Bytes → List Bytes → Session → Session
enqueue_cmd cmd args s =
    let entry : QueueEntry = record { cmd = cmd; args = args } in
    send_response (codes "+QUEUED\r\n") (record s { cmd_queue = s.cmd_queue ++ entry ∷ [] })

-- `executeBuiltIn` behind the lookup
unfoldable pub dispatch : Call → BuiltIn → Bytes → List Bytes → Session → Outcome Session
unfolding subscriber_reply
dispatch call f cmd args s =
    if s.is_subscriber_mode && not (is_subscribe_cmd cmd)
    then done (send_response (subscriber_reply cmd) s)
    else if s.is_multi_active && str_eq cmd (codes "watch")
    then done (send_response (codes "-ERR WATCH inside MULTI is not allowed\r\n") s)
    else if s.is_multi_active
        && (not (str_eq cmd (codes "exec")) && not (str_eq cmd (codes "discard")))
    then done (enqueue_cmd cmd args s)
    else call f args s

unfoldable pub execute_built_in : Call → Bytes → List Bytes → Session → Outcome Session
unfolding unknown_reply
execute_built_in call cmd args s =
    if str_eq (to_lower cmd) (codes "command")
    then done (send_response empty_array s)
    else elim (Table.get built_ins cmd) [
      | none ↦ done (send_response (unknown_reply cmd) s)
      | some f ↦ dispatch call f cmd args s
    ]

-- The handlers of the other built-in commands are the argument `others`.
module _ (others : Bytes → List Bytes → Session → Outcome Session) where
  -- h.builtIns[cmd](args), with EXEC in EXEC down to `depth`
  unfoldable pub call : ℕ → BuiltIn → List Bytes → Session → Outcome Session
  call depth (store_cmd c) args s = store_cmd_reply c args s
  call depth ping args s = done (ping_cmd s)
  call depth multi args s = done (multi_cmd s)
  call zero exec args s = blocked
  call (suc depth) exec args s = exec_cmd (execute_built_in (call depth)) s
  call depth discard args s = done (discard_cmd s)
  call depth watch args s = done (watch_cmd args s)
  call depth unwatch args s = done (unwatch_cmd s)
  call depth (other name) args s = others name args s

  -- `commands[0]` of no command is a panic
  unfoldable pub handle_commands : List Bytes → Session → Outcome Session
  unfolding call
  handle_commands [] s = panic
  handle_commands (cmd ∷ args) s =
      if not s.authenticated && not (str_eq (to_lower cmd) (codes "auth"))
      then done (send_response (codes "-NOAUTH Authentication required\r\n") s)
      else execute_built_in (call 1) (to_lower cmd) args s
