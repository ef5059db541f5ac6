-- ===== src/Commands/RebuildFuel.antt =====
-- Proofs about the fuel of the loop of `RebuildState` in internal/commands/commands.go.
use redis_in_go.Prelude.{
  ℕ, zero, suc, ◌≤◌, ◌≡◌, refl, List, [], ◌∷◌, Outcome, >>=-cong, length, length-drop, drop, arith,
}
use redis_in_go.Text.{Bytes}
use redis_in_go.Resp
use redis_in_go.Resp.Bounds.{parse_command_progress}
use redis_in_go.Commands.Session.{Session, handle_commands}
use redis_in_go.Commands.Rebuild.{Rebuild, rebuild_round, rebuild_loop}

module _ (others : Bytes → List Bytes → Session → Outcome Session) where
  rebuild_round-cong :
      (r : Resp.Parsed (List Bytes × ℕ)) (next after : ℕ → Session → Outcome (Rebuild × Session))
      (s : Session)
      → ((args : List Bytes) (pos : ℕ)
          → r ≡ Resp.ok (args, pos)
          → (t : Session) → next pos t ≡ after pos t)
      → rebuild_round others r next s ≡ rebuild_round others r after s
  unfolding rebuild_round
  rebuild_round-cong (Resp.err e) next after s h = refl
  rebuild_round-cong Resp.panic next after s h = refl
  rebuild_round-cong (Resp.ok (args, pos)) next after s h =
      >>=-cong (handle_commands others args s) (h args pos refl)

  left_shorter :
      (buf : Bytes) (args : List Bytes) (pos fuel : ℕ)
      → Resp.parse_command buf ≡ Resp.ok (args, pos)
      → length buf ≤ suc fuel
      → length (drop pos buf) ≤ fuel
  left_shorter buf args pos fuel e h =
      let (some_read, _) = parse_command_progress buf e in
      omega (arith, length-drop pos buf, some_read)

  -- More fuel than there are bytes makes no difference: the loop never runs out.
  pub rebuild_loop_enough :
      (fuel more : ℕ) (buf : Bytes) (s : Session)
      → length buf ≤ fuel
      → length buf ≤ more
      → rebuild_loop others fuel buf s ≡ rebuild_loop others more buf s
  unfolding rebuild_loop
  rebuild_loop_enough fuel more [] s h k = refl
  rebuild_loop_enough zero more (b ∷ buf) s h k = absurd (omega (arith, h))
  rebuild_loop_enough (suc fuel) zero (b ∷ buf) s h k = absurd (omega (arith, k))
  rebuild_loop_enough (suc fuel) (suc more) (b ∷ buf) s h k =
      rebuild_round-cong (Resp.parse_command (b ∷ buf)) _ _ s (λ args pos e t.
        rebuild_loop_enough fuel more (drop pos (b ∷ buf)) t
          (left_shorter (b ∷ buf) args pos fuel e h) (left_shorter (b ∷ buf) args pos more e k))
