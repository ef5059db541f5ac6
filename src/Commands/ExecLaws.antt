-- ===== src/Commands/ExecLaws.antt =====
-- Proofs about MULTI and EXEC in internal/commands/commands.go, for queues of the commands that only
-- use the store.
use redis_in_go.Prelude.{
  ℕ, ◌≡◌, refl, ◌∙◌, ap, true, false, List, [], ◌∷◌, ◌++◌, append_assoc, append-nil, Outcome, done,
  panic, blocked, ◌>>=◌, length,
}
use mathlib.Core.Bool.{and-false}
use redis_in_go.Text.{Bytes, codes, str_eq, to_lower}
use redis_in_go.Resp.{array_header}
use redis_in_go.Table
use redis_in_go.Store
use redis_in_go.Commands.World.{World, concat}
use redis_in_go.Commands.Handlers.{StoreCmd, Reply, run_store_cmd}
use redis_in_go.Commands.Session.{
  QueueEntry, Execute, Session, send_all, built_ins, store_cmd_reply, execute_all, send_queued,
  exec_queue, exec_open, exec_cmd, dispatch, execute_built_in, call, handle_commands,
}
use redis_in_go.Commands.Replies.{IsReady, cmd_name, execute_store_cmd, send_one, send_all_queued}

-- Commands with their arguments, in the order in which a client sends them.
abbrev pub Script : Type 0
Script = List (StoreCmd × List Bytes)

-- The commands one after another, with all their responses: what a script means, without a session.
unfoldable pub run_script : Script → World → Reply
run_script [] w = done ([], w)
run_script ((c, args) ∷ script) w = do
  (rs, w') ← run_store_cmd c args w
  (rs', w'') ← run_script script w'
  done (rs ++ rs', w'')

unfoldable pub entries : Script → List QueueEntry
entries [] = []
entries ((c, args) ∷ script) = record { cmd = cmd_name c; args = args } ∷ entries script

unfoldable pub requests : Script → List (List Bytes)
requests [] = []
requests ((c, args) ∷ script) = (cmd_name c ∷ args) ∷ requests script

exec_cmd_active :
    (run : Execute) (s : Session)
    → s.is_multi_active ≡ true
    → exec_cmd run s ≡ exec_open run s.cmd_queue s
unfolding exec_cmd
exec_cmd_active run s hm = simp (hm)

-- what a script leaves in a session that keeps the responses back
abbrev kept : Session → List Bytes × World → Outcome Session
kept s (rs, w) = done (record s { cmd_queue_responses = s.cmd_queue_responses ++ rs; world = w })

kept_append :
    (m : Reply) (s : Session) (rs : List Bytes) (w : World)
    → (m >>= kept (record s { cmd_queue_responses = s.cmd_queue_responses ++ rs; world = w }))
      ≡ ((m >>= λ (rs', w'). done (rs ++ rs', w')) >>= kept s)
kept_append panic s rs w = refl
kept_append blocked s rs w = refl
kept_append (done (rs', w')) s rs w = rw append_assoc refl

module _ (others : Bytes → List Bytes → Session → Outcome Session) where
  -- the rounds of `HandleIncomingStream`
  unfoldable pub handle_all : List (List Bytes) → Session → Outcome Session
  handle_all [] s = done s
  handle_all (request ∷ rest) s = do s' ← handle_commands others request s; handle_all rest s'

  -- the queue, run with the responses kept back
  abbrev run_queue : ℕ → Script → Session → Outcome Session
  run_queue depth script = execute_all (execute_built_in (call others depth)) (entries script)

  -- one command, with any result, in front of a script for which the claim is known
  run_queue_step :
      (depth : ℕ) (script : Script) (s : Session) (m : Reply)
      → IsReady s
      → s.is_response_queued ≡ true
      → ((s' : Session)
          → IsReady s'
          → s'.is_multi_active ≡ s.is_multi_active
          → s'.is_response_queued ≡ true
          → run_queue depth script s' ≡ (run_script script s'.world >>= kept s'))
      → ((m >>= λ (rs, w). done (send_all rs (record s { world = w }))) >>= run_queue depth script)
        ≡ ((m >>= λ (rs, w). run_script script w >>= λ (rs', w'). done (rs ++ rs', w')) >>= kept s)
  run_queue_step depth script s panic h hq ih = refl
  run_queue_step depth script s blocked h hq ih = refl
  run_queue_step depth script s (done (rs, w)) h hq ih =
      let s' = record s { cmd_queue_responses = s.cmd_queue_responses ++ rs; world = w } in
      rw (send_all_queued rs (record s { world = w }) h hq)
        (rw (ih s' h refl hq) (kept_append (run_script script w) s rs w))

  run_queue_lem :
      (depth : ℕ) (script : Script) (s : Session)
      → IsReady s
      → s.is_multi_active ≡ false
      → s.is_response_queued ≡ true
      → run_queue depth script s ≡ (run_script script s.world >>= kept s)
  unfolding execute_all entries run_script call store_cmd_reply
  run_queue_lem depth [] s h hm hq = rw append-nil refl
  run_queue_lem depth ((c, args) ∷ script) s h hm hq =
      rw (execute_store_cmd (call others depth) c args s h.3 hm) (
        run_queue_step depth script s (run_store_cmd c args s.world) h hq
          (λ s' h' hm' hq'. run_queue_lem depth script s' h' (hm' ∙ hm) hq'))

  -- EXEC sends one array with the responses of the commands in the queue, which it runs on the world
  -- it finds; the queue stays.
  exec_queue_lem :
      (depth : ℕ) (script : Script) (s : Session) {rs : List Bytes} {w : World}
      → IsReady s
      → s.is_response_queued ≡ false
      → s.cmd_queue_responses ≡ []
      → Store.check_watched s.watched_keys s.world.store ≡ false
      → run_script script s.world ≡ done (rs, w)
      → exec_queue (execute_built_in (call others depth)) (entries script) s
        ≡ done (record s {
          sent = s.sent ++ (array_header (length rs) ++ concat rs);
          world = w;
          is_multi_active = false;
        })
  unfolding exec_queue send_queued
  exec_queue_lem depth script s {rs} {w} h hq hr hw e =
      let s' = record s { is_response_queued = true; is_multi_active = false } in
      rw (hw, run_queue_lem depth script s' h refl refl, e, hr)
        (rw
          (send_one (array_header (length rs) ++ concat rs)
            (record s {
              is_multi_active = false;
              is_response_queued = false;
              cmd_queue_responses = [];
              world = w;
            })
            h refl)
          (simp (hq)))

  -- the tests in front of EXEC's handler
  pub handle_exec :
      (args : List Bytes) (s : Session)
      → IsReady s
      → handle_commands others (codes "exec" ∷ args) s
        ≡ exec_cmd (execute_built_in (call others 0)) s
  unfolding handle_commands execute_built_in dispatch to_lower str_eq Table.get built_ins
  handle_exec args s (ha, hc, hr, hs) = simp (ha, hs, and-false)

  pub exec_runs :
      (c : StoreCmd) (cargs : List Bytes) (script : Script) (args : List Bytes) (s : Session)
      {rs : List Bytes} {w : World}
      → IsReady s
      → s.is_multi_active ≡ true
      → s.is_response_queued ≡ false
      → s.cmd_queue_responses ≡ []
      → s.cmd_queue ≡ entries ((c, cargs) ∷ script)
      → Store.check_watched s.watched_keys s.world.store ≡ false
      → run_script ((c, cargs) ∷ script) s.world ≡ done (rs, w)
      → handle_commands others (codes "exec" ∷ args) s
        ≡ done (record s {
          sent = s.sent ++ (array_header (length rs) ++ concat rs);
          world = w;
          is_multi_active = false;
        })
  unfolding exec_open entries
  exec_runs c cargs script args s h hm hq hr hqueue hw e =
      let run = execute_built_in (call others 0) in
      handle_exec args s h
      ∙ exec_cmd_active run s hm
      ∙ ap (λ queue. exec_open run queue s) hqueue
      ∙ exec_queue_lem 0 ((c, cargs) ∷ script) s h hq hr hw e
