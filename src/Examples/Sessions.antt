-- ===== src/Examples/Sessions.antt =====
-- A client's connection at work: internal/commands/commands.go on concrete requests.
use redis_in_go.Prelude.{
  ◌≡◌, refl, true, false, List, [], ◌∷◌, ◌++◌, none, Outcome, done, panic, blocked, arith, length,
}
use redis_in_go.Prelude.Int.{pos}
use redis_in_go.Text.{Bytes, codes, str_eq, to_lower, to_upper}
use redis_in_go.Text.Decimal
use redis_in_go.Resp
use redis_in_go.Resp.{array_header}
use redis_in_go.Table
use redis_in_go.Store
use redis_in_go.Store.{Entry}
use redis_in_go.Commands.World.{World, concat, aof_line, ok_reply, null_array, with_store}
use redis_in_go.Commands.Handlers.{set, incr, Reply, run_store_cmd}
use redis_in_go.Commands.Session.{
  QueueEntry, Session, exec, call, handle_commands, execute_built_in, dispatch, built_ins, send_all,
  send_response, multi_cmd, store_cmd_reply,
}
use redis_in_go.Commands.ExecLaws.{Script, run_script, entries, requests, handle_all}
use redis_in_go.Commands.Transactions.{transaction, queued_replies, transaction_as_direct}
use redis_in_go.Commands.ExecCases.{watched_set_aborts, exec_reruns, discarded_transaction}
use redis_in_go.Commands.Log.{log}
use redis_in_go.Commands.LogText.{logged_text, script_logged}
use redis_in_go.Commands.Rebuild.{rebuilt, rebuild_loop, rebuild_state}
use redis_in_go.Commands.RebuildLaws.{rebuild_replays}
use redis_in_go.Commands.RebuildFuel.{rebuild_loop_enough}
use redis_in_go.Commands.QueueLaws.{exec_never_nests}

abbrev pub no_others : Bytes → List Bytes → Session → Outcome Session
no_others name args s = done s

abbrev fresh_world : World
fresh_world = record {
  store = Store.init;
  clock = λ n. n;
  ticks = 0;
  is_master = true;
  replicated = [];
  global_offset = pos 0;
  aof_opens = true;
  aof_file = [];
  aof_buffer = [];
}

abbrev pub client : Session
client = record {
  authenticated = true;
  is_master_conn = false;
  is_rebuilding = false;
  is_done_rebuilding = false;
  is_subscriber_mode = false;
  cmd_queue = [];
  is_multi_active = false;
  is_response_queued = false;
  cmd_queue_responses = [];
  watched_keys = [];
  sent = [];
  world = fresh_world;
}

abbrev end_of : Outcome Session → Session
end_of (done s) = s
end_of panic = client
end_of blocked = client

abbrev world_of : Reply → World
world_of (done (rs, w)) = w
world_of panic = fresh_world
world_of blocked = fresh_world

abbrev replies_of : Reply → List Bytes
replies_of (done (rs, w)) = rs
replies_of panic = []
replies_of blocked = []

abbrev set_n : List Bytes
set_n = codes "n" ∷ codes "7" ∷ []

abbrev incr_n : List Bytes
incr_n = codes "n" ∷ []

abbrev counting : Script
counting = (set, set_n) ∷ (incr, incr_n) ∷ []

abbrev direct_end : Session
direct_end = end_of (handle_all no_others (requests counting) client)

transaction_as_direct_example :
    (rs : List Bytes) × (direct_end.sent ≡ client.sent ++ concat rs)
    × (handle_all no_others (transaction counting) client
        ≡ done (record client {
          cmd_queue = entries counting;
          world = direct_end.world;
          sent =
              client.sent
              ++ (ok_reply ++ (queued_replies 2 ++ (array_header (length rs) ++ concat rs)));
        }))
unfolding handle_all requests handle_commands Store.check_watched execute_built_in str_eq to_lower
    Table.get built_ins dispatch store_cmd_reply run_store_cmd send_all send_response
transaction_as_direct_example =
    transaction_as_direct no_others set set_n ((incr, incr_n) ∷ []) client (refl, refl, refl, refl)
      (refl, refl, refl, refl) refl refl

-- the client has watched k and queued an INCR, when another connection sets k
abbrev entry_k : Entry
entry_k = record { value = codes "1"; expires_at = none; version = 4 }

abbrev queued_incr : QueueEntry
queued_incr = record { cmd = codes "incr"; args = incr_n }

abbrev watching : Session
watching = record client {
  world = record fresh_world { store = record Store.init { items = (codes "k", entry_k) ∷ [] } };
  is_multi_active = true;
  cmd_queue = queued_incr ∷ [];
  watched_keys = (codes "k", 4) ∷ [];
}

abbrev overwritten : World
overwritten =
    with_store (Store.set 9 (codes "k") (codes "2") (pos 0) watching.world.store) watching.world

watched_set_aborts_example :
    handle_commands no_others (codes "exec" ∷ []) (record watching { world = overwritten })
    ≡ done (record watching {
      world = overwritten;
      sent = watching.sent ++ null_array;
      is_multi_active = false;
      is_response_queued = false;
      cmd_queue_responses = [];
      cmd_queue = [];
      watched_keys = [];
    })
unfolding Table.get str_eq
watched_set_aborts_example =
    watched_set_aborts no_others [] watching queued_incr [] 9 (codes "k") (codes "2") (pos 0)
      entry_k (refl, refl, refl, refl) refl refl refl refl (omega arith)

-- after MULTI, SET n 7, EXEC
abbrev used : Session
used = record client { cmd_queue = entries ((set, set_n) ∷ []) }

abbrev set_once : Reply
set_once = run_script ((set, set_n) ∷ []) fresh_world

exec_reruns_example :
    handle_all no_others ((codes "multi" ∷ []) ∷ (codes "exec" ∷ []) ∷ []) used
    ≡ done (record used {
      world = world_of set_once;
      sent =
          used.sent
          ++ (ok_reply
              ++ (array_header (length (replies_of set_once)) ++ concat (replies_of set_once)));
    })
unfolding run_script run_store_cmd Store.check_watched
exec_reruns_example =
    exec_reruns no_others used ((set, set_n) ∷ []) (refl, refl, refl, refl) refl refl refl refl
      (omega arith) refl refl

discarded_transaction_example :
    handle_all no_others
      ((codes "multi" ∷ []) ∷ (requests counting ++ (codes "discard" ∷ []) ∷ []))
      client
    ≡ done (record client {
      watched_keys = [];
      sent = client.sent ++ (ok_reply ++ (queued_replies 2 ++ ok_reply));
    })
discarded_transaction_example =
    discarded_transaction no_others counting client (refl, refl, refl, refl)
      (refl, refl, refl, refl)

abbrev stranger : Session
stranger = record client { authenticated = false }

script_logged_example :
    ((world_of (run_script counting fresh_world)).aof_file
      ≡ fresh_world.aof_file ++ logged_text counting)
    × ((world_of (run_script counting fresh_world)).aof_buffer ≡ [])
unfolding run_script run_store_cmd
script_logged_example = script_logged counting fresh_world refl refl refl

-- a restart with the file of SET n 7
abbrev restarted : Session
restarted = record client { world = record fresh_world { aof_file = log ((set, set_n) ∷ []) } }

abbrev restored : World
restored = world_of (run_script ((set, set_n) ∷ []) restarted.world)

rebuild_replays_example :
    (rebuild_state no_others true restarted
      ≡ done (rebuilt, record restarted { world = restored; is_done_rebuilding = true }))
    × (restored.aof_file ≡ log ((set, set_n) ∷ []) ++ log ((set, set_n) ∷ []))
unfolding run_script run_store_cmd aof_line array_header Decimal.format_nat Resp.bulk to_upper
    Resp.bulks
rebuild_replays_example =
    rebuild_replays no_others ((set, set_n) ∷ []) restarted refl refl refl refl refl refl refl refl
      (refl, omega arith, omega arith, tt) refl

rebuild_loop_enough_example :
    rebuild_loop no_others 18 (codes "*1\r\n$4\r\nPING\r\n") client
    ≡ rebuild_loop no_others 99 (codes "*1\r\n$4\r\nPING\r\n") client
rebuild_loop_enough_example =
    rebuild_loop_enough no_others 18 99 (codes "*1\r\n$4\r\nPING\r\n") client (omega arith)
      (omega arith)

-- after MULTI and INCR n
abbrev multi_end : Session
multi_end =
    end_of (handle_all no_others ((codes "multi" ∷ []) ∷ (codes "incr" ∷ incr_n) ∷ []) client)

exec_never_nests_example : call no_others 7 exec [] multi_end ≡ call no_others 1 exec [] multi_end
unfolding handle_all handle_commands execute_built_in str_eq to_lower Table.get built_ins dispatch
    multi_cmd send_response
exec_never_nests_example =
    exec_never_nests no_others (λ name args s h. h)
      ((codes "multi" ∷ []) ∷ (codes "incr" ∷ incr_n) ∷ []) client refl refl 6 exec []
