-- ===== src/Commands/Rebuild.antt =====
-- `RebuildState` of internal/commands/commands.go, which replays the append-only file.
use redis_in_go.Prelude.{
  ℕ, zero, suc, Bool, true, false, not, ◌||◌, List, [], ◌∷◌, Outcome, done, panic, blocked, ◌>>=◌,
  if◌then◌else◌, length, drop,
}
use redis_in_go.Text.{Bytes}
use redis_in_go.Resp
use redis_in_go.Resp.{ParseError}
use redis_in_go.Commands.Session.{Session, handle_commands}

pub data Rebuild : Type 0 where
  rebuilt open_failed : Rebuild
  parse_failed : ParseError → Rebuild

-- The deferred assignments.
finish_rebuild : Rebuild × Session → Rebuild × Session
finish_rebuild (r, s) = (r, record s { is_rebuilding = false; is_done_rebuilding = true })

module _ (others : Bytes → List Bytes → Session → Outcome Session) where
  unfoldable pub rebuild_round :
      Resp.Parsed (List Bytes × ℕ)
      → (ℕ → Session → Outcome (Rebuild × Session))
      → Session
      → Outcome (Rebuild × Session)
  rebuild_round (Resp.err e) next s = done (parse_failed e, s)
  rebuild_round Resp.panic next s = panic
  rebuild_round (Resp.ok (args, pos)) next s = do s' ← handle_commands others args s; next pos s'

  -- The loop over `buf`, for at most `fuel` rounds.
  unfoldable pub rebuild_loop : ℕ → Bytes → Session → Outcome (Rebuild × Session)
  unfolding rebuild_round
  rebuild_loop fuel [] s = done (rebuilt, s)
  rebuild_loop zero (b ∷ buf) s = blocked
  rebuild_loop (suc fuel) (b ∷ buf) s =
      rebuild_round (Resp.parse_command (b ∷ buf)) (λ pos. rebuild_loop fuel (drop pos (b ∷ buf))) s

  -- `appendonly` tells whether the option of that name is "yes". The file is read once, in front of
  -- the loop.
  unfoldable pub rebuild_state : Bool → Session → Outcome (Rebuild × Session)
  unfolding rebuild_loop finish_rebuild
  rebuild_state appendonly s =
      if not appendonly || s.is_done_rebuilding
      then done (rebuilt, s)
      else if not s.world.aof_opens
      then done (finish_rebuild (open_failed, s))
      else (do
        r ←
            rebuild_loop (length s.world.aof_file) s.world.aof_file
              (record s { is_rebuilding = true })
        done (finish_rebuild r))
