-- ===== src/Commands/ExecCases.antt =====
-- Proofs about the other ends of a transaction: EXEC after a watched key changed, DISCARD, and the
-- queue that stays after EXEC.
use redis_in_go.Prelude.{
  ℕ, ◌<◌, ◌^◌, ◌≡◌, ◌≢◌, refl, ap, true, false, List, [], ◌∷◌, ◌++◌, append_assoc, some, Outcome,
  done, length,
}
use redis_in_go.Prelude.Int.{ℤ}
use redis_in_go.Text.{Bytes, codes, str_eq, to_lower}
use redis_in_go.Resp.{array_header}
use redis_in_go.Table
use redis_in_go.Store
use redis_in_go.Store.{Entry}
use redis_in_go.Store.WatchLaws.{set_detected}
use redis_in_go.Commands.World.{World, with_store, concat, ok_reply, null_array}
use redis_in_go.Commands.Session.{
  QueueEntry, Session, built_ins, discard_watch, discard_cmd, exec_cmd, exec_open, exec_queue,
  dispatch, execute_built_in, call, handle_commands,
}
use redis_in_go.Commands.Replies.{IsReady, handle_authenticated, send_one}
use redis_in_go.Commands.ExecLaws.{
  Script, run_script, entries, requests, handle_all, handle_exec, exec_runs,
}
use redis_in_go.Commands.Transactions.{
  handle_multi, IsIdle, handle_all-append, handle_all_queued, queued_replies,
}

module _ (others : Bytes → List Bytes → Session → Outcome Session) where
  exec_aborts :
      (args : List Bytes) (s : Session) (q : QueueEntry) (qs : List QueueEntry)
      → IsReady s
      → s.is_multi_active ≡ true
      → s.cmd_queue ≡ q ∷ qs
      → Store.check_watched s.watched_keys s.world.store ≡ true
      → handle_commands others (codes "exec" ∷ args) s
        ≡ done (record (discard_watch s) { sent = s.sent ++ null_array })
  unfolding exec_cmd exec_open exec_queue discard_watch
  exec_aborts args s q qs h hm hqueue hw =
      rw (handle_exec others args s h)
        (simp (hm, hqueue, hw, send_one null_array (discard_watch s) h refl))

  -- A client that is authenticated and has no subscriptions has opened a transaction, with a command in its queue and a watch on a key that has an entry. When
  -- another connection sets that key, EXEC runs nothing, whatever is in the queue: the world is the one
  -- that the other connection left, the reply is the null array, and the transaction and its watches
  -- are over.
  pub watched_set_aborts :
      (args : List Bytes) (s : Session) (q : QueueEntry) (qs : List QueueEntry) (now : ℕ)
      (key value : Bytes) (ttl : ℤ) (e : Entry)
      → IsReady s
      → s.is_multi_active ≡ true
      → s.cmd_queue ≡ q ∷ qs
      → Table.get s.world.store.items key ≡ some e
      → Table.get s.watched_keys key ≡ some e.version
      → e.version < 2 ^ 64
      → (let w = with_store (Store.set now key value ttl s.world.store) s.world in
          handle_commands others (codes "exec" ∷ args) (record s { world = w })
          ≡ done (record s {
            world = w;
            sent = s.sent ++ null_array;
            is_multi_active = false;
            is_response_queued = false;
            cmd_queue_responses = [];
            cmd_queue = [];
            watched_keys = [];
          }))
  unfolding discard_watch
  watched_set_aborts args s q qs now key value ttl e h hm hqueue at hw small =
      let w = with_store (Store.set now key value ttl s.world.store) s.world in
      exec_aborts args (record s { world = w }) q qs h hm hqueue
        (set_detected s.watched_keys now key value ttl e s.world.store at hw small)

  -- After EXEC the queue is not cleared: outside a transaction, for a client that is authenticated and
  -- has no subscriptions, with no watched key changed and a queue of commands that only use the store
  -- and come to their end, MULTI and EXEC with nothing in between run the old commands
  -- once more, on the world as it is then.
  pub exec_reruns :
      (s : Session) (script : Script) {rs : List Bytes} {w : World}
      → IsReady s
      → s.is_multi_active ≡ false
      → s.is_response_queued ≡ false
      → s.cmd_queue_responses ≡ []
      → s.cmd_queue ≡ entries script
      → length script ≢ 0
      → Store.check_watched s.watched_keys s.world.store ≡ false
      → run_script script s.world ≡ done (rs, w)
      → handle_all others ((codes "multi" ∷ []) ∷ (codes "exec" ∷ []) ∷ []) s
        ≡ done (record s {
          world = w;
          sent = s.sent ++ (ok_reply ++ (array_header (length rs) ++ concat rs));
        })
  unfolding handle_all
  exec_reruns s [] h hm hq hr hqueue ne hw e = absurd (ne refl)
  exec_reruns s ((c, args) ∷ script) h hm hq hr hqueue ne hw e =
      let s1 = record s { is_multi_active = true; sent = s.sent ++ ok_reply } in
      rw
        (
          handle_multi others [] s h hm hq,
          exec_runs others c args script [] s1 h refl hq hr hqueue hw e,
        )
        (simp (hm, append_assoc))

  handle_discard :
      (args : List Bytes) (s : Session)
      → IsReady s
      → s.is_multi_active ≡ true
      → handle_commands others (codes "discard" ∷ args) s
        ≡ done (record (discard_watch s) { sent = s.sent ++ ok_reply })
  unfolding execute_built_in dispatch to_lower str_eq Table.get built_ins discard_cmd call
      discard_watch
  handle_discard args s (ha, hc, hr, hs) hm =
      rw (handle_authenticated others (codes "discard") args s ha) (
        simp (hs, hm)
          (ap done (
            send_one ok_reply (discard_watch (record s { is_subscriber_mode = false }))
              (ha, hc, hr, refl) refl)))

  -- For a client that is authenticated and has no subscriptions, between two transactions and with an
  -- empty queue, MULTI, any commands that only use the store, and DISCARD have no effect
  -- but their replies and the end of all watches.
  pub discarded_transaction :
      (script : Script) (s : Session)
      → IsReady s
      → IsIdle s
      → handle_all others
          ((codes "multi" ∷ []) ∷ (requests script ++ (codes "discard" ∷ []) ∷ []))
          s
        ≡ done (record s {
          watched_keys = [];
          sent = s.sent ++ (ok_reply ++ (queued_replies (length script) ++ ok_reply));
        })
  unfolding handle_all discard_watch
  discarded_transaction script s h (hm, hq, hr, hqueue) =
      let s1 = record s { is_multi_active = true; sent = s.sent ++ ok_reply } in
      let s2 = record s1 {
        cmd_queue = s.cmd_queue ++ entries script;
        sent = s1.sent ++ queued_replies (length script);
      } in
      rw
        (
          handle_multi others [] s h hm hq,
          handle_all-append others (requests script) ((codes "discard" ∷ []) ∷ []) s1,
          handle_all_queued others script s1 h refl hq,
          handle_discard [] s2 h refl,
        )
        (simp (hm, hq, hr, hqueue, append_assoc))
