-- ===== src/Commands/QueueLaws.antt =====
-- Proofs about what stands in the queue of a transaction in internal/commands/commands.go.
use redis_in_go.Prelude.{
  ℕ, zero, suc, ◌≡◌, refl, ◌∙◌, Bool, true, false, not, ◌&&◌, List, [], ◌∷◌, Option, none, some,
  Outcome, done, panic, blocked, Returns, Returns->>=, Returns-if, if◌then◌else◌, arith,
}
use redis_in_go.Text.{Bytes, codes, str_eq, All-append, to_lower}
use mathlib.Core.Path.{subst}
use redis_in_go.Table
use redis_in_go.Commands.Handlers.{StoreCmd, Reply, run_store_cmd}
use redis_in_go.Table.{Table}
use redis_in_go.Store
use redis_in_go.Commands.ExecLaws.{handle_all}
use redis_in_go.Commands.Session.{
  QueueEntry, Session, send_response, send_all, BuiltIn, store_cmd, ping, multi, exec, discard,
  watch, unwatch, other, built_ins, discard_watch, ping_cmd, multi_cmd, discard_cmd, unwatch_cmd,
  watch_cmd, store_cmd_reply, execute_all, send_queued, exec_queue, exec_open, exec_cmd,
  enqueue_cmd, dispatch, execute_built_in, call, handle_commands, is_subscribe_cmd, unknown_reply,
  Call,
}
use redis_in_go.Commands.Depth.{IsFlat, call_depth}

-- A handler that keeps EXEC out of the queue.
abbrev Keeps : Call → Type 0
Keeps run =
    (f : BuiltIn) (args : List Bytes) (s : Session)
    → IsFlat s.cmd_queue
    → Returns (λ t. IsFlat t.cmd_queue) (run f args s)

send_response-cmd_queue : (r : Bytes) (s : Session) → (send_response r s).cmd_queue ≡ s.cmd_queue
unfolding send_response
send_response-cmd_queue r s = ground arith

send_all-cmd_queue : (rs : List Bytes) (s : Session) → (send_all rs s).cmd_queue ≡ s.cmd_queue
unfolding send_all
send_all-cmd_queue [] s = refl
send_all-cmd_queue (r ∷ rs) s =
    send_all-cmd_queue rs (send_response r s) ∙ send_response-cmd_queue r s

send_response-IsFlat :
    (r : Bytes) (s : Session) → IsFlat s.cmd_queue → IsFlat (send_response r s).cmd_queue
send_response-IsFlat r s h = rw (send_response-cmd_queue r s) h

enqueue_cmd-IsFlat :
    (cmd : Bytes) (args : List Bytes) (s : Session)
    → str_eq cmd (codes "exec") ≡ false
    → IsFlat s.cmd_queue
    → IsFlat (enqueue_cmd cmd args s).cmd_queue
unfolding enqueue_cmd
enqueue_cmd-IsFlat cmd args s ne h =
    send_response-IsFlat (codes "+QUEUED\r\n") _
      (All-append (λ e. str_eq e.cmd (codes "exec") ≡ false) s.cmd_queue _ h (ne, tt))

not_exec : (a b c : Bool) → (a && (not b && not c)) ≡ true → b ≡ false
not_exec a b c h = ground arith

dispatch-Keeps :
    (run : Call) (f : BuiltIn) (cmd : Bytes) (args : List Bytes) (s : Session)
    → Keeps run
    → IsFlat s.cmd_queue
    → Returns (λ t. IsFlat t.cmd_queue) (dispatch run f cmd args s)
unfolding dispatch
dispatch-Keeps run f cmd args s keeps h =
    Returns-if _ (s.is_subscriber_mode && not (is_subscribe_cmd cmd)) _ _
      (λ _. send_response-IsFlat _ s h)
      (λ _.
        Returns-if _ (s.is_multi_active && str_eq cmd (codes "watch")) _ _
          (λ _. send_response-IsFlat _ s h)
          (λ _.
            Returns-if _
              (s.is_multi_active
                && (not (str_eq cmd (codes "exec")) && not (str_eq cmd (codes "discard"))))
              _ _ (λ t. enqueue_cmd-IsFlat cmd args s (not_exec s.is_multi_active _ _ t) h)
              (λ _. keeps f args s h)))

execute_built_in-Keeps :
    (run : Call) (cmd : Bytes) (args : List Bytes) (s : Session)
    → Keeps run
    → IsFlat s.cmd_queue
    → Returns (λ t. IsFlat t.cmd_queue) (execute_built_in run cmd args s)
unfolding execute_built_in
execute_built_in-Keeps run cmd args s keeps h =
    Returns-if _ (str_eq (to_lower cmd) (codes "command")) _ _ (λ _. send_response-IsFlat _ s h)
      (λ _. looked_up (Table.get built_ins cmd))
  where
    looked_up :
        (r : Option BuiltIn)
        → Returns
            (λ t. IsFlat t.cmd_queue)
            (elim r [
              | none ↦ done (send_response (unknown_reply cmd) s)
              | some f ↦ dispatch run f cmd args s
            ])
    looked_up none = send_response-IsFlat _ s h
    looked_up (some f) = dispatch-Keeps run f cmd args s keeps h

execute_all-Keeps :
    (run : Call) (queue : List QueueEntry) (s : Session)
    → Keeps run
    → IsFlat s.cmd_queue
    → Returns (λ t. IsFlat t.cmd_queue) (execute_all (execute_built_in run) queue s)
unfolding execute_all
execute_all-Keeps run [] s keeps h = h
execute_all-Keeps run (e ∷ es) s keeps h =
    Returns->>= (λ t. IsFlat t.cmd_queue) (λ t. IsFlat t.cmd_queue)
      (execute_built_in run e.cmd e.args s) _ (execute_built_in-Keeps run e.cmd e.args s keeps h)
      (λ t ht. execute_all-Keeps run es t keeps ht)

if_IsFlat :
    (b : Bool) (s t : Session)
    → IsFlat s.cmd_queue
    → IsFlat t.cmd_queue
    → IsFlat (if b then s else t).cmd_queue
if_IsFlat true s t hs ht = hs
if_IsFlat false s t hs ht = ht

any-Returns : (m : Reply) → Returns {0, 0} (λ _. Unit) m
any-Returns (done _) = tt
any-Returns panic = tt
any-Returns blocked = tt

exec_queue-Keeps :
    (run : Call) (queue : List QueueEntry) (s : Session)
    → Keeps run
    → IsFlat s.cmd_queue
    → Returns (λ t. IsFlat t.cmd_queue) (exec_queue (execute_built_in run) queue s)
unfolding exec_queue discard_watch send_queued
exec_queue-Keeps run queue s keeps h =
    Returns-if _ (Store.check_watched s.watched_keys s.world.store) _ _
      (λ _. send_response-IsFlat _ (discard_watch s) tt)
      (λ _.
        Returns->>= (λ t. IsFlat t.cmd_queue) (λ t. IsFlat t.cmd_queue)
          (execute_all (execute_built_in run) queue
            (record s { is_response_queued = true; is_multi_active = false }))
          _ (execute_all-Keeps run queue _ keeps h) (λ t ht. send_response-IsFlat _ _ ht))

exec_open-Keeps :
    (run : Call) (queue : List QueueEntry) (s : Session)
    → Keeps run
    → IsFlat s.cmd_queue
    → Returns (λ t. IsFlat t.cmd_queue) (exec_open (execute_built_in run) queue s)
unfolding exec_open
exec_open-Keeps run [] s keeps h = send_response-IsFlat _ s h
exec_open-Keeps run (e ∷ es) s keeps h = exec_queue-Keeps run (e ∷ es) s keeps h

store_cmd_reply-Keeps :
    (c : StoreCmd) (args : List Bytes) (s : Session)
    → IsFlat s.cmd_queue
    → Returns (λ t. IsFlat t.cmd_queue) (store_cmd_reply c args s)
unfolding store_cmd_reply
store_cmd_reply-Keeps c args s h =
    Returns->>= {0, 0, 0, 0} (λ _. Unit) (λ t. IsFlat t.cmd_queue) (run_store_cmd c args s.world) _
      (any-Returns (run_store_cmd c args s.world))
      (λ (rs, w) _. rw (send_all-cmd_queue rs (record s { world = w })) h)

module _ (others : Bytes → List Bytes → Session → Outcome Session)
    (keeps : (name : Bytes) (args : List Bytes) (s : Session)
      → IsFlat s.cmd_queue
      → Returns (λ t. IsFlat t.cmd_queue) (others name args s)) where
  call-Keeps : (depth : ℕ) → Keeps (call others depth)
  unfolding call exec_cmd ping_cmd multi_cmd discard_cmd unwatch_cmd watch_cmd discard_watch
  call-Keeps depth (store_cmd c) args s h = store_cmd_reply-Keeps c args s h
  call-Keeps depth ping args s h =
      if_IsFlat s.is_subscriber_mode _ _ (send_response-IsFlat _ s h) (send_response-IsFlat _ s h)
  call-Keeps depth multi args s h = send_response-IsFlat _ s h
  call-Keeps zero exec args s h = tt
  call-Keeps (suc depth) exec args s h =
      Returns-if _ (not s.is_multi_active) _ _ (λ _. send_response-IsFlat _ s h)
        (λ _. exec_open-Keeps (call others depth) s.cmd_queue s (call-Keeps depth) h)
  call-Keeps depth discard args s h =
      if_IsFlat s.is_multi_active _ _ (send_response-IsFlat _ (discard_watch s) tt)
        (send_response-IsFlat _ s h)
  call-Keeps depth watch args s h = send_response-IsFlat _ _ h
  call-Keeps depth unwatch args s h = send_response-IsFlat _ (discard_watch s) tt
  call-Keeps depth (other name) args s h = keeps name args s h

  handle_commands-Keeps :
      (request : List Bytes) (s : Session)
      → IsFlat s.cmd_queue
      → Returns (λ t. IsFlat t.cmd_queue) (handle_commands others request s)
  unfolding handle_commands
  handle_commands-Keeps [] s h = tt
  handle_commands-Keeps (cmd ∷ args) s h =
      Returns-if _ (not s.authenticated && not (str_eq (to_lower cmd) (codes "auth"))) _ _
        (λ _. send_response-IsFlat _ s h)
        (λ _. execute_built_in-Keeps (call others 1) (to_lower cmd) args s (call-Keeps 1) h)

  handle_all-Keeps :
      (requests : List (List Bytes)) (s : Session)
      → IsFlat s.cmd_queue
      → Returns (λ t. IsFlat t.cmd_queue) (handle_all others requests s)
  unfolding handle_all
  handle_all-Keeps [] s h = h
  handle_all-Keeps (r ∷ rs) s h =
      Returns->>= (λ t. IsFlat t.cmd_queue) (λ t. IsFlat t.cmd_queue) (handle_commands others r s) _
        (handle_commands-Keeps r s h) (λ t ht. handle_all-Keeps rs t ht)

  -- Provided that the handlers that are not modelled keep EXEC out of the queue, it never gets there
  -- from any requests; and so in every session that is reached from one with an empty queue, a
  -- command runs the same whatever depth of EXEC in EXEC the model allows, from 1 on.
  pub exec_never_nests :
      (requests : List (List Bytes)) (s : Session) {t : Session}
      → s.cmd_queue ≡ []
      → handle_all others requests s ≡ done t
      → (depth : ℕ) (f : BuiltIn) (args : List Bytes)
      → call others (suc depth) f args t ≡ call others 1 f args t
  exec_never_nests requests s empty e depth f args =
      call_depth others depth f args _
        (subst (Returns (λ t. IsFlat t.cmd_queue)) e (handle_all-Keeps requests s (rw empty tt)))
