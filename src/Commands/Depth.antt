-- ===== src/Commands/Depth.antt =====
-- Proofs about the nesting of `executeBuiltIn` of internal/commands/commands.go.
use redis_in_go.Prelude.{
  ℕ, zero, suc, ◌≡◌, refl, Bool, true, false, not, ◌&&◌, ◌||◌, List, [], ◌∷◌, some, Outcome,
  >>=-cong, Option-cases, inl, inr, arith,
}
use redis_in_go.Text.{Bytes, codes, str_eq, str_eq_iff, All}
use redis_in_go.Table
use redis_in_go.Table.{Table}
use redis_in_go.Commands.Session.{
  QueueEntry, Session, BuiltIn, store_cmd, ping, multi, exec, discard, watch, unwatch, other,
  built_ins, execute_all, exec_queue, exec_open, exec_cmd, dispatch, execute_built_in, call,
  Execute,
}

-- No entry of the queue is an EXEC.
abbrev pub IsFlat : List QueueEntry → Type 0
IsFlat = All (λ e. str_eq e.cmd (codes "exec") ≡ false)

is_exec : BuiltIn → Bool
is_exec exec = true
is_exec _ = false

-- In this table only the name "exec" leads to EXEC.
only_exec : Table BuiltIn → Bool
only_exec [] = true
only_exec ((k, f) ∷ m) = (not (is_exec f) || str_eq k (codes "exec")) && only_exec m

get-only_exec :
    (m : Table BuiltIn) (cmd : Bytes) (f : BuiltIn)
    → only_exec m ≡ true
    → str_eq cmd (codes "exec") ≡ false
    → Table.get m cmd ≡ some f
    → is_exec f ≡ false
unfolding only_exec Table.get
get-only_exec [] cmd f h ne e = cc
get-only_exec ((k, g) ∷ m) cmd f h ne e = ground (arith, str_eq_iff k cmd, get-only_exec m cmd f)

built_ins-only_exec : only_exec built_ins ≡ true
unfolding only_exec built_ins is_exec str_eq
built_ins-only_exec = refl

exec_queue-cong :
    (run walk : Execute) (queue : List QueueEntry) (s : Session)
    → ((t : Session) → execute_all run queue t ≡ execute_all walk queue t)
    → exec_queue run queue s ≡ exec_queue walk queue s
unfolding exec_queue
exec_queue-cong run walk queue s h =
    rw (h (record s { is_response_queued = true; is_multi_active = false })) refl

exec_open-cong :
    (run walk : Execute) (queue : List QueueEntry) (s : Session)
    → ((t : Session) → execute_all run queue t ≡ execute_all walk queue t)
    → exec_open run queue s ≡ exec_open walk queue s
unfolding exec_open
exec_open-cong run walk [] s h = refl
exec_open-cong run walk (q ∷ qs) s h = exec_queue-cong run walk (q ∷ qs) s h

exec_cmd-cong :
    (run walk : Execute) (s : Session)
    → ((t : Session) → execute_all run s.cmd_queue t ≡ execute_all walk s.cmd_queue t)
    → exec_cmd run s ≡ exec_cmd walk s
unfolding exec_cmd
exec_cmd-cong run walk s h = rw (exec_open-cong run walk s.cmd_queue s h) refl

module _ (others : Bytes → List Bytes → Session → Outcome Session) where
  call_flat :
      (depth : ℕ) (f : BuiltIn) (args : List Bytes) (s : Session)
      → is_exec f ≡ false
      → call others depth f args s ≡ call others 0 f args s
  unfolding call is_exec
  call_flat zero f args s h = refl
  call_flat (suc depth) (store_cmd c) args s h = refl
  call_flat (suc depth) ping args s h = refl
  call_flat (suc depth) multi args s h = refl
  call_flat (suc depth) exec args s h = cc
  call_flat (suc depth) discard args s h = refl
  call_flat (suc depth) watch args s h = refl
  call_flat (suc depth) unwatch args s h = refl
  call_flat (suc depth) (other name) args s h = refl

  dispatch_flat :
      (depth : ℕ) (f : BuiltIn) (cmd : Bytes) (args : List Bytes) (s : Session)
      → is_exec f ≡ false
      → dispatch (call others depth) f cmd args s ≡ dispatch (call others 0) f cmd args s
  unfolding dispatch
  dispatch_flat depth f cmd args s h = rw (call_flat depth f args s h) refl

  execute_flat :
      (depth : ℕ) (cmd : Bytes) (args : List Bytes) (s : Session)
      → str_eq cmd (codes "exec") ≡ false
      → execute_built_in (call others depth) cmd args s
        ≡ execute_built_in (call others 0) cmd args s
  unfolding execute_built_in
  execute_flat depth cmd args s ne = elim (Option-cases (Table.get built_ins cmd)) [
    | inl absent ↦ rw (absent) refl
    | inr (f, e) ↦ rw (e) (
        rw
          (dispatch_flat depth f cmd args s
            (get-only_exec built_ins cmd f built_ins-only_exec ne e))
          refl)
  ]

  execute_all_flat :
      (depth : ℕ) (queue : List QueueEntry) (s : Session)
      → IsFlat queue
      → execute_all (execute_built_in (call others depth)) queue s
        ≡ execute_all (execute_built_in (call others 0)) queue s
  unfolding execute_all
  execute_all_flat depth [] s h = refl
  execute_all_flat depth (e ∷ es) s (he, hes) = rw (execute_flat depth e.cmd e.args s he) (
      >>=-cong (execute_built_in (call others 0) e.cmd e.args s)
        (λ s'. execute_all_flat depth es s' hes))

  -- With no EXEC in the queue, a command runs the same at every depth from 1 on.
  pub call_depth :
      (depth : ℕ) (f : BuiltIn) (args : List Bytes) (s : Session)
      → IsFlat s.cmd_queue
      → call others (suc depth) f args s ≡ call others 1 f args s
  unfolding call
  call_depth depth exec args s h =
      exec_cmd-cong (execute_built_in (call others depth)) (execute_built_in (call others 0)) s
        (λ t. execute_all_flat depth s.cmd_queue t h)
  call_depth depth (store_cmd c) args s h = refl
  call_depth depth ping args s h = refl
  call_depth depth multi args s h = refl
  call_depth depth discard args s h = refl
  call_depth depth watch args s h = refl
  call_depth depth unwatch args s h = refl
  call_depth depth (other name) args s h = refl
