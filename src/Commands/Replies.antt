-- ===== src/Commands/Replies.antt =====
-- Proofs about `SendResponse` and `executeBuiltIn` for the commands that only use the store.
use redis_in_go.Prelude.{
  ◌≡◌, refl, ap, true, false, List, [], ◌∷◌, ◌++◌, some, append_assoc, append-nil, Outcome, done,
}
use redis_in_go.Text.{Bytes, codes, str_eq, to_lower}
use redis_in_go.Table
use redis_in_go.Commands.World.{concat}
use redis_in_go.Commands.Handlers.{
  StoreCmd, echo, set, get, incr, rpush, lpush, llen, lrange, lpop, key_type, xadd, xrange,
}
use redis_in_go.Commands.Session.{
  QueueEntry, Session, send_response, send_all, store_cmd, built_ins, enqueue_cmd, Call, call,
  handle_commands, store_cmd_reply, dispatch, execute_built_in,
}

-- A client's connection, past its authentication, and without subscriptions.
abbrev pub IsReady : Session → Type 0
IsReady s =
    (s.authenticated ≡ true)
    × (s.is_master_conn ≡ false)
    × (s.is_rebuilding ≡ false)
    × (s.is_subscriber_mode ≡ false)

abbrev pub cmd_name : StoreCmd → Bytes
cmd_name echo = codes "echo"
cmd_name set = codes "set"
cmd_name get = codes "get"
cmd_name incr = codes "incr"
cmd_name rpush = codes "rpush"
cmd_name lpush = codes "lpush"
cmd_name llen = codes "llen"
cmd_name lrange = codes "lrange"
cmd_name lpop = codes "lpop"
cmd_name key_type = codes "type"
cmd_name xadd = codes "xadd"
cmd_name xrange = codes "xrange"

-- What the tests of `handleCommands` and `executeBuiltIn` say of such a name.
abbrev IsPlain : StoreCmd → Type 0
IsPlain c =
    (to_lower (cmd_name c) ≡ cmd_name c)
    × (str_eq (cmd_name c) (codes "command") ≡ false)
    × (Table.get built_ins (cmd_name c) ≡ some (store_cmd c))
    × (str_eq (cmd_name c) (codes "watch") ≡ false)
    × (str_eq (cmd_name c) (codes "exec") ≡ false)
    × (str_eq (cmd_name c) (codes "discard") ≡ false)

pub cmd_name-IsPlain : (c : StoreCmd) → IsPlain c
unfolding to_lower str_eq Table.get built_ins
cmd_name-IsPlain echo = (refl, refl, refl, refl, refl, refl)
cmd_name-IsPlain set = (refl, refl, refl, refl, refl, refl)
cmd_name-IsPlain get = (refl, refl, refl, refl, refl, refl)
cmd_name-IsPlain incr = (refl, refl, refl, refl, refl, refl)
cmd_name-IsPlain rpush = (refl, refl, refl, refl, refl, refl)
cmd_name-IsPlain lpush = (refl, refl, refl, refl, refl, refl)
cmd_name-IsPlain llen = (refl, refl, refl, refl, refl, refl)
cmd_name-IsPlain lrange = (refl, refl, refl, refl, refl, refl)
cmd_name-IsPlain lpop = (refl, refl, refl, refl, refl, refl)
cmd_name-IsPlain key_type = (refl, refl, refl, refl, refl, refl)
cmd_name-IsPlain xadd = (refl, refl, refl, refl, refl, refl)
cmd_name-IsPlain xrange = (refl, refl, refl, refl, refl, refl)

pub execute_store_cmd :
    (call : Call) (c : StoreCmd) (args : List Bytes) (s : Session)
    → s.is_subscriber_mode ≡ false
    → s.is_multi_active ≡ false
    → execute_built_in call (cmd_name c) args s ≡ call (store_cmd c) args s
unfolding execute_built_in dispatch
execute_store_cmd call c args s hs hm =
    let (low, nc, lookup, _, _, _) = cmd_name-IsPlain c in rw (low, nc, lookup, hs, hm) refl

pub execute_store_cmd_queued :
    (call : Call) (c : StoreCmd) (args : List Bytes) (s : Session)
    → s.is_subscriber_mode ≡ false
    → s.is_multi_active ≡ true
    → execute_built_in call (cmd_name c) args s ≡ done (enqueue_cmd (cmd_name c) args s)
unfolding execute_built_in dispatch
execute_store_cmd_queued call c args s hs hm =
    let (low, nc, lookup, w, e, d) = cmd_name-IsPlain c in
    rw (low, nc, lookup, hs, hm, w, e, d) refl

pub send_one :
    (r : Bytes) (s : Session)
    → IsReady s
    → s.is_response_queued ≡ false
    → send_response r s ≡ record s { sent = s.sent ++ r }
unfolding send_response
send_one r s (ha, hc, hr, hs) hq = simp (hc, hr, hq)

send_one_queued :
    (r : Bytes) (s : Session)
    → IsReady s
    → s.is_response_queued ≡ true
    → send_response r s ≡ record s { cmd_queue_responses = s.cmd_queue_responses ++ r ∷ [] }
unfolding send_response
send_one_queued r s (ha, hc, hr, hs) hq = simp (hc, hr, hq)

pub send_all_sent :
    (rs : List Bytes) (s : Session)
    → IsReady s
    → s.is_response_queued ≡ false
    → send_all rs s ≡ record s { sent = s.sent ++ concat rs }
unfolding send_all concat
send_all_sent [] s h hq = rw append-nil refl
send_all_sent (r ∷ rs) s h hq =
    rw (send_one r s h hq)
      (rw (send_all_sent rs (record s { sent = s.sent ++ r }) h hq, append_assoc) refl)

pub send_all_queued :
    (rs : List Bytes) (s : Session)
    → IsReady s
    → s.is_response_queued ≡ true
    → send_all rs s ≡ record s { cmd_queue_responses = s.cmd_queue_responses ++ rs }
unfolding send_all
send_all_queued [] s h hq = rw append-nil refl
send_all_queued (r ∷ rs) s h hq =
    let s' = record s { cmd_queue_responses = s.cmd_queue_responses ++ r ∷ [] } in
    rw (send_one_queued r s h hq) (rw (send_all_queued rs s' h hq, append_assoc) refl)

module _ (others : Bytes → List Bytes → Session → Outcome Session) where
  pub handle_authenticated :
      (cmd : Bytes) (args : List Bytes) (s : Session)
      → s.authenticated ≡ true
      → handle_commands others (cmd ∷ args) s
        ≡ execute_built_in (call others 1) (to_lower cmd) args s
  unfolding handle_commands
  handle_authenticated cmd args s ha = simp (ha)

  -- a name in any case
  pub handle_store_cmd :
      (c : StoreCmd) (name : Bytes) (args : List Bytes) (s : Session)
      → to_lower name ≡ cmd_name c
      → s.authenticated ≡ true
      → s.is_subscriber_mode ≡ false
      → s.is_multi_active ≡ false
      → handle_commands others (name ∷ args) s ≡ store_cmd_reply c args s
  unfolding call
  handle_store_cmd c name args s low ha hs hm =
      rw (handle_authenticated name args s ha, low)
        (execute_store_cmd (call others 1) c args s hs hm)

  pub handle_store_cmd_queued :
      (c : StoreCmd) (args : List Bytes) (s : Session)
      → IsReady s
      → s.is_multi_active ≡ true
      → s.is_response_queued ≡ false
      → handle_commands others (cmd_name c ∷ args) s
        ≡ done (record s {
          cmd_queue = s.cmd_queue ++ record { cmd = cmd_name c; args = args } ∷ [];
          sent = s.sent ++ codes "+QUEUED\r\n";
        })
  unfolding enqueue_cmd
  handle_store_cmd_queued c args s (ha, hc, hr, hs) hm hq =
      let entry : QueueEntry = record { cmd = cmd_name c; args = args } in
      let s' = record s { cmd_queue = s.cmd_queue ++ entry ∷ [] } in
      rw
        (
          handle_authenticated (cmd_name c) args s ha,
          (cmd_name-IsPlain c).0,
          execute_store_cmd_queued (call others 1) c args s hs hm,
        )
        (ap done (send_one (codes "+QUEUED\r\n") s' (ha, hc, hr, hs) hq))
