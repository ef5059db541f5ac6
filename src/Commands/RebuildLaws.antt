-- ===== src/Commands/RebuildLaws.antt =====
-- Proofs about `RebuildState` of internal/commands/commands.go.
use redis_in_go.Prelude.{
  ℕ, zero, suc, ◌+◌, ◌≤◌, ◌<◌, ◌^◌, ◌≡◌, refl, ◌∙◌, ap, true, false, List, [], ◌∷◌, ◌++◌, Outcome,
  done, panic, blocked, ◌>>=◌, length, length-append, drop, arith,
}
use mathlib.Core.Bool.{or-true}
use redis_in_go.Text.{Bytes, to_lower, to_upper}
use redis_in_go.Resp
use redis_in_go.Resp.{max_cap, array_header, bulk, bulks, format_propagated_command}
use redis_in_go.Resp.RoundTrip.{parse_command-format, drop-append}
use redis_in_go.Commands.World.{World, aof_line}
use redis_in_go.Commands.Handlers.{
  StoreCmd, echo, set, get, incr, rpush, lpush, llen, lrange, lpop, key_type, xadd, xrange, Reply,
  run_store_cmd,
}
use redis_in_go.Commands.Session.{
  Session, send_response, send_all, store_cmd_reply, handle_commands,
}
use redis_in_go.Commands.Replies.{cmd_name, handle_store_cmd}
use redis_in_go.Commands.ExecLaws.{Script, run_script}
use redis_in_go.Commands.Log.{modifies, log, script_logs}
use redis_in_go.Commands.Rebuild.{Rebuild, rebuilt, rebuild_loop, rebuild_state}

to_lower-to_upper : (c : StoreCmd) → to_lower (to_upper (cmd_name c)) ≡ cmd_name c
unfolding to_lower to_upper
to_lower-to_upper echo = refl
to_lower-to_upper set = refl
to_lower-to_upper get = refl
to_lower-to_upper incr = refl
to_lower-to_upper rpush = refl
to_lower-to_upper lpush = refl
to_lower-to_upper llen = refl
to_lower-to_upper lrange = refl
to_lower-to_upper lpop = refl
to_lower-to_upper key_type = refl
to_lower-to_upper xadd = refl
to_lower-to_upper xrange = refl

send_all_muted : (rs : List Bytes) (s : Session) → s.is_rebuilding ≡ true → send_all rs s ≡ s
unfolding send_all send_response
send_all_muted [] s h = refl
send_all_muted (r ∷ rs) s h = simp (h, or-true) (send_all_muted rs s h)

-- Commands that modify the store, and whose lines the parser can read back.
abbrev pub IsReplayable : Script → Type 0
IsReplayable [] = Unit
IsReplayable ((c, args) ∷ script) =
    (modifies c ≡ true)
    × (length args + 1 ≤ max_cap)
    × (length (aof_line (cmd_name c) args) < 2 ^ 63)
    × IsReplayable script

parse_command-aof_line :
    (c : StoreCmd) (args : List Bytes) (rest : Bytes)
    → length args + 1 ≤ max_cap
    → length (aof_line (cmd_name c) args) < 2 ^ 63
    → Resp.parse_command (aof_line (cmd_name c) args ++ rest)
      ≡ Resp.ok (to_upper (cmd_name c) ∷ args, length (aof_line (cmd_name c) args))
unfolding aof_line format_propagated_command
parse_command-aof_line c args rest few fits =
    parse_command-format (to_upper (cmd_name c)) args rest few fits

length-aof_line : (cmd : Bytes) (args : List Bytes) → 0 < length (aof_line cmd args)
unfolding aof_line array_header
length-aof_line cmd args = omega arith

-- a line uses up at least one unit of fuel
line_takes_fuel :
    (c : StoreCmd) (args : List Bytes) (rest : Bytes) (fuel : ℕ)
    → length (aof_line (cmd_name c) args ++ rest) ≤ suc fuel
    → length rest ≤ fuel
line_takes_fuel c args rest fuel h =
    let line = aof_line (cmd_name c) args in
    omega (arith, length-aof_line (cmd_name c) args, length-append line rest)

line_needs_fuel :
    (c : StoreCmd) (args : List Bytes) (rest : Bytes)
    → ¬ (length (aof_line (cmd_name c) args ++ rest) ≤ 0)
line_needs_fuel c args rest h =
    let line = aof_line (cmd_name c) args in
    omega (arith, length-aof_line (cmd_name c) args, length-append line rest)

empty_refused : {r : List Bytes × ℕ} → ¬ (Resp.parse_command [] ≡ Resp.ok r)
unfolding Resp.parse_command
empty_refused h = cc

-- the state of a session while it replays
abbrev IsReplaying : Session → Type 0
IsReplaying s =
    (s.authenticated ≡ true)
    × (s.is_rebuilding ≡ true)
    × (s.is_subscriber_mode ≡ false)
    × (s.is_multi_active ≡ false)

abbrev replayed : Session → List Bytes × World → Outcome (Rebuild × Session)
replayed s (rs, w) = done (rebuilt, record s { world = w })

module _ (others : Bytes → List Bytes → Session → Outcome Session) where
  replay_step :
      (fuel : ℕ) (script : Script) (s : Session) (m : Reply)
      → IsReplaying s
      → ((s' : Session)
          → IsReplaying s'
          → rebuild_loop others fuel (log script) s' ≡ (run_script script s'.world >>= replayed s'))
      → ((m >>= λ (rs, w). done (send_all rs (record s { world = w })))
          >>= rebuild_loop others fuel (log script))
        ≡ ((m >>= λ (rs, w). run_script script w >>= λ (rs', w'). done (rs ++ rs', w'))
            >>= replayed s)
  replay_step fuel script s panic h ih = refl
  replay_step fuel script s blocked h ih = refl
  replay_step fuel script s (done (rs, w)) h ih =
      rw (send_all_muted rs (record s { world = w }) h.1)
        (rw (ih (record s { world = w }) h) (replayed_append (run_script script w)))
    where
      replayed_append :
          (m : Reply)
          → (m >>= replayed (record s { world = w }))
            ≡ ((m >>= λ (rs', w'). done (rs ++ rs', w')) >>= replayed s)
      replayed_append (done _) = refl
      replayed_append panic = refl
      replayed_append blocked = refl

  rebuild_loop_round :
      (fuel : ℕ) (buf : Bytes) (s : Session) {request : List Bytes} {pos : ℕ}
      → Resp.parse_command buf ≡ Resp.ok (request, pos)
      → rebuild_loop others (suc fuel) buf s
        ≡ (handle_commands others request s >>= rebuild_loop others fuel (drop pos buf))
  unfolding rebuild_loop
  rebuild_loop_round fuel [] s h = absurd (empty_refused h)
  rebuild_loop_round fuel (b ∷ buf) s h = rw (h, rebuild_loop) refl

  rebuild_loop_line :
      (fuel : ℕ) (c : StoreCmd) (args : List Bytes) (rest : Bytes) (s : Session)
      → IsReplaying s
      → length args + 1 ≤ max_cap
      → length (aof_line (cmd_name c) args) < 2 ^ 63
      → rebuild_loop others (suc fuel) (aof_line (cmd_name c) args ++ rest) s
        ≡ (store_cmd_reply c args s >>= rebuild_loop others fuel rest)
  rebuild_loop_line fuel c args rest s (ha, _, hs, hm) few fits =
      let line = aof_line (cmd_name c) args in
      rw
        (
          rebuild_loop_round fuel (line ++ rest) s (parse_command-aof_line c args rest few fits),
          handle_store_cmd others c (to_upper (cmd_name c)) args s (to_lower-to_upper c) ha hs hm,
          drop-append line rest,
        )
        refl

  rebuild_loop-log :
      (fuel : ℕ) (script : Script) (s : Session)
      → IsReplaying s
      → IsReplayable script
      → length (log script) ≤ fuel
      → rebuild_loop others fuel (log script) s ≡ (run_script script s.world >>= replayed s)
  unfolding log run_script store_cmd_reply rebuild_loop
  rebuild_loop-log fuel [] s h _ enough = refl
  rebuild_loop-log zero ((c, args) ∷ script) s h (m, few, fits, ok) enough =
      absurd (line_needs_fuel c args (log script) (rw m at enough))
  rebuild_loop-log (suc fuel) ((c, args) ∷ script) s h (m, few, fits, ok) enough =
      rw (m, rebuild_loop_line fuel c args (log script) s h few fits)
        (replay_step fuel script s (run_store_cmd c args s.world) h (λ s' h'.
          rebuild_loop-log fuel script s' h' ok
            (line_takes_fuel c args (log script) fuel (rw m at enough))))

  -- A restart with the option appendonly, on the file of commands that modify the store and whose lines
  -- the parser can read; the handler is authenticated, without subscriptions and outside a transaction,
  -- nothing has been rebuilt yet, the file opens, its buffer is empty, and the commands come to their
  -- end. Then the script that made the lines runs once more, without
  -- replies, and every line is in the file twice afterwards, since `HandleModifyingCmd` does not look
  -- at the flag of the rebuild.
  pub rebuild_replays :
      (script : Script) (s : Session) {rs : List Bytes} {w : World}
      → s.authenticated ≡ true
      → s.is_subscriber_mode ≡ false
      → s.is_multi_active ≡ false
      → s.is_rebuilding ≡ false
      → s.is_done_rebuilding ≡ false
      → s.world.aof_opens ≡ true
      → s.world.aof_buffer ≡ []
      → s.world.aof_file ≡ log script
      → IsReplayable script
      → run_script script s.world ≡ done (rs, w)
      → (rebuild_state others true s
          ≡ done (rebuilt, record s { world = w; is_done_rebuilding = true }))
        × (w.aof_file ≡ log script ++ log script)
  unfolding rebuild_state
  rebuild_replays script s {rs} {w} ha hs hm hr hd ho hb hf replayable e =
      let s' = record s { is_rebuilding = true; is_done_rebuilding = false } in
      let loop =
        rebuild_loop-log (length (log script)) script s' (ha, refl, hs, hm) replayable
          (omega arith) in
      (
        simp (hd, ho, hf, hr) (rw (loop, e) refl),
        (script_logs script s.world ho hb e).0 ∙ ap (λ f. f ++ log script) hf,
      )
