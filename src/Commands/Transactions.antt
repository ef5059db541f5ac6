-- ===== src/Commands/Transactions.antt =====
-- Proofs about whole transactions: MULTI, the commands, EXEC, as a client sends them.
use redis_in_go.Prelude.{
  ℕ, zero, suc, ◌≡◌, refl, ◌∙◌, sym, ap, true, false, List, [], ◌∷◌, ◌++◌, append_assoc, append-nil,
  Outcome, done, panic, blocked, ◌>>=◌, >>=-eq-done, done_injective, length,
}
use redis_in_go.Text.{Bytes, codes, str_eq, to_lower}
use redis_in_go.Resp.{array_header}
use redis_in_go.Table
use redis_in_go.Store
use redis_in_go.Commands.World.{World, concat, concat-append, ok_reply}
use redis_in_go.Commands.Handlers.{StoreCmd, Reply, run_store_cmd}
use redis_in_go.Commands.Session.{
  Session, send_all, built_ins, enqueue_cmd, multi_cmd, store_cmd_reply, dispatch, execute_built_in,
  call, handle_commands,
}
use redis_in_go.Commands.Replies.{
  handle_authenticated, handle_store_cmd, handle_store_cmd_queued, IsReady, cmd_name,
  cmd_name-IsPlain, send_one, send_all_sent,
}
use redis_in_go.Commands.ExecLaws.{Script, run_script, entries, requests, handle_all, exec_runs}

-- "+QUEUED\r\n", `n` times
unfoldable pub queued_replies : ℕ → Bytes
queued_replies zero = []
queued_replies (suc n) = codes "+QUEUED\r\n" ++ queued_replies n

-- The state between two transactions.
abbrev pub IsIdle : Session → Type 0
IsIdle s =
    (s.is_multi_active ≡ false)
    × (s.is_response_queued ≡ false)
    × (s.cmd_queue_responses ≡ [])
    × (s.cmd_queue ≡ [])

abbrev pub transaction : Script → List (List Bytes)
transaction script = (codes "multi" ∷ []) ∷ (requests script ++ (codes "exec" ∷ []) ∷ [])

-- what a script leaves in a session that sends each response
abbrev answered : Session → List Bytes × World → Outcome Session
answered s (rs, w) = done (record s { sent = s.sent ++ concat rs; world = w })

answered_append :
    (m : Reply) (s : Session) (rs : List Bytes) (w : World)
    → (m >>= answered (record s { sent = s.sent ++ concat rs; world = w }))
      ≡ ((m >>= λ (rs', w'). done (rs ++ rs', w')) >>= answered s)
answered_append panic s rs w = refl
answered_append blocked s rs w = refl
answered_append (done (rs', w')) s rs w = rw (concat-append, append_assoc) refl

module _ (others : Bytes → List Bytes → Session → Outcome Session) where
  handle_rest :
      (xs ys : List (List Bytes)) (m : Outcome Session)
      → ((s : Session)
          → handle_all others (xs ++ ys) s ≡ (handle_all others xs s >>= handle_all others ys))
      → (m >>= handle_all others (xs ++ ys))
        ≡ ((m >>= handle_all others xs) >>= handle_all others ys)
  handle_rest xs ys (done s) ih = ih s
  handle_rest xs ys panic ih = refl
  handle_rest xs ys blocked ih = refl

  pub handle_all-append :
      (xs ys : List (List Bytes)) (s : Session)
      → handle_all others (xs ++ ys) s ≡ (handle_all others xs s >>= handle_all others ys)
  unfolding handle_all
  handle_all-append [] ys s = refl
  handle_all-append (x ∷ xs) ys s =
      handle_rest xs ys (handle_commands others x s) (handle_all-append xs ys)

  -- While a transaction is open, a command is only queued.
  pub handle_all_queued :
      (script : Script) (s : Session)
      → IsReady s
      → s.is_multi_active ≡ true
      → s.is_response_queued ≡ false
      → handle_all others (requests script) s
        ≡ done (record s {
          cmd_queue = s.cmd_queue ++ entries script;
          sent = s.sent ++ queued_replies (length script);
        })
  unfolding handle_all requests handle_commands entries queued_replies enqueue_cmd
  handle_all_queued [] s h hm hq = rw (append-nil, append-nil) refl
  handle_all_queued ((c, args) ∷ script) s h hm hq =
      let s' = record s {
        cmd_queue = s.cmd_queue ++ record { cmd = cmd_name c; args = args } ∷ [];
        sent = s.sent ++ codes "+QUEUED\r\n";
      } in
      rw (handle_store_cmd_queued others c args s h hm hq)
        (rw (handle_all_queued script s' h hm hq, append_assoc, append_assoc) refl)

  answer_step :
      (script : Script) (s : Session) (m : Reply)
      → IsReady s
      → s.is_response_queued ≡ false
      → ((s' : Session)
          → IsReady s'
          → s'.is_multi_active ≡ s.is_multi_active
          → s'.is_response_queued ≡ false
          → handle_all others (requests script) s' ≡ (run_script script s'.world >>= answered s'))
      → ((m >>= λ (rs, w). done (send_all rs (record s { world = w })))
          >>= handle_all others (requests script))
        ≡ ((m >>= λ (rs, w). run_script script w >>= λ (rs', w'). done (rs ++ rs', w'))
            >>= answered s)
  answer_step script s panic h hq ih = refl
  answer_step script s blocked h hq ih = refl
  answer_step script s (done (rs, w)) h hq ih =
      let s' = record s { sent = s.sent ++ concat rs; world = w } in
      rw (send_all_sent rs (record s { world = w }) h hq)
        (rw (ih s' h refl hq) (answered_append (run_script script w) s rs w))

  pub handle_all_script :
      (script : Script) (s : Session)
      → IsReady s
      → s.is_multi_active ≡ false
      → s.is_response_queued ≡ false
      → handle_all others (requests script) s ≡ (run_script script s.world >>= answered s)
  unfolding handle_all requests run_script handle_commands call store_cmd_reply concat
  handle_all_script [] s h hm hq = rw append-nil refl
  handle_all_script ((c, args) ∷ script) s h hm hq =
      rw (handle_store_cmd others c (cmd_name c) args s (cmd_name-IsPlain c).0 h.0 h.3 hm) (
        answer_step script s (run_store_cmd c args s.world) h hq
          (λ s' h' hm' hq'. handle_all_script script s' h' (hm' ∙ hm) hq'))

  pub handle_multi :
      (args : List Bytes) (s : Session)
      → IsReady s
      → s.is_multi_active ≡ false
      → s.is_response_queued ≡ false
      → handle_commands others (codes "multi" ∷ args) s
        ≡ done (record s { is_multi_active = true; sent = s.sent ++ ok_reply })
  unfolding execute_built_in dispatch to_lower str_eq Table.get built_ins multi_cmd call
  handle_multi args s (ha, hc, hr, hs) hm hq =
      rw (handle_authenticated others (codes "multi") args s ha)
        (simp (hs, hm, send_one ok_reply s (ha, hc, hr, hs) hq))

  transaction_runs :
      (c : StoreCmd) (args : List Bytes) (rest : Script) (s : Session) {rs : List Bytes} {w : World}
      → IsReady s
      → IsIdle s
      → Store.check_watched s.watched_keys s.world.store ≡ false
      → (let script = (c, args) ∷ rest in
          run_script script s.world ≡ done (rs, w)
          → handle_all others (transaction script) s
            ≡ done (record s {
              cmd_queue = entries script;
              world = w;
              sent =
                  s.sent
                  ++ (ok_reply
                      ++ (queued_replies (length script)
                          ++ (array_header (length rs) ++ concat rs)));
            }))
  unfolding handle_all
  transaction_runs c args rest s {rs} {w} h (hm, hq, hr, hqueue) hw e =
      let script : Script = (c, args) ∷ rest in
      let s1 = record s { is_multi_active = true; sent = s.sent ++ ok_reply } in
      let s2 = record s1 {
        cmd_queue = s.cmd_queue ++ entries script;
        sent = s1.sent ++ queued_replies (length script);
      } in
      let queue : s2.cmd_queue ≡ entries script = ap (λ q. q ++ entries script) hqueue in
      let end' = exec_runs others c args rest [] s2 h refl hq hr queue hw e in
      rw
        (
          handle_multi [] s h hm hq,
          handle_all-append (requests script) ((codes "exec" ∷ []) ∷ []) s1,
          handle_all_queued script s1 h refl hq,
          end',
        )
        (simp (hqueue, hm, append_assoc))

  -- A client that is authenticated and has no subscriptions is between two transactions, with an empty
  -- queue and no watched key changed, and nothing is being rebuilt. Then a script that is answered
  -- command by command can be sent as a transaction instead: MULTI, its commands and EXEC leave the
  -- same world, and the replies are OK, QUEUED for each command, and one array with the responses of
  -- the direct run.
  pub transaction_as_direct :
      (c : StoreCmd) (args : List Bytes) (rest : Script) (s : Session) {t : Session}
      → IsReady s
      → IsIdle s
      → Store.check_watched s.watched_keys s.world.store ≡ false
      → handle_all others (requests ((c, args) ∷ rest)) s ≡ done t
      → (rs : List Bytes) × (t.sent ≡ s.sent ++ concat rs)
        × (handle_all others (transaction ((c, args) ∷ rest)) s
            ≡ done (record s {
              cmd_queue = entries ((c, args) ∷ rest);
              world = t.world;
              sent =
                  s.sent
                  ++ (ok_reply
                      ++ (queued_replies (suc (length rest))
                          ++ (array_header (length rs) ++ concat rs)));
            }))
  transaction_as_direct c args rest s {t} h (hm, hq, hr, hqueue) hw e =
      let script : Script = (c, args) ∷ rest in
      let ((rs, w), e1, e2) =
        >>=-eq-done (run_script script s.world) (answered s)
          (sym (handle_all_script script s h hm hq) ∙ e) in
      let same = done_injective e2 in
      (
        rs,
        ap (λ u. u.sent) (sym same),
        rw⁻¹ same (transaction_runs c args rest s h (hm, hq, hr, hqueue) hw e1),
      )
