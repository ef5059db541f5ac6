-- ===== src/Store/WaitSteps.antt =====
-- The list commands as steps of a transition system, with clients that wait in `BLPop`.
use redis_in_go.Prelude.{ℕ, ◌≡◌, refl, List, [], ◌∷◌, ◌++◌, Option, none, some, Outcome, done}
use redis_in_go.Prelude.Int.{ℤ, pos, negsuc}
use redis_in_go.Text.{Bytes, codes}
use redis_in_go.Table
use redis_in_go.Store.State.{Store, init}
use redis_in_go.Store.Channels.{receive}
use redis_in_go.Store.Lists.{rpush, lpush, lpop, blpop, blpop_timeout}
use redis_in_go.Store.ListLaws.{lpop-take, lpop_negative}
use redis_in_go.Store.WaitLaws.{IsValid, init-IsValid, put_list-IsValid, rpush_total, lpush_total}
use redis_in_go.Store.WaitBegin.{blpop-IsValid}
use redis_in_go.Store.WaitEnd.{receive-IsValid, blpop_timeout-IsValid}

-- The list commands, and the moves of clients that wait in `BLPop`. A push has at least one value.
pub data Step : Store → Store → Type 0 where
  push_right :
      {s s' : Store} {n : ℕ} (key v : Bytes) (vs : List Bytes)
      → rpush key (v ∷ vs) s ≡ done (n, s')
      → Step s s'
  push_left :
      {s s' : Store} {n : ℕ} (key v : Bytes) (vs : List Bytes)
      → lpush key (vs ++ v ∷ []) s ≡ done (n, s')
      → Step s s'
  pop :
      {s s' : Store} {out : Bytes} (key : Bytes) (n : ℤ) → lpop key n s ≡ done (out, s') → Step s s'
  wait : {s : Store} (key : Bytes) → Step s (blpop key s).1
  wake : {s : Store} (ch : ℕ) → Step s (receive ch s).1
  give_up : {s : Store} (key : Bytes) (ch : ℕ) → Step s (blpop_timeout key ch s).1

pub data Reach (s : Store) : Store → Type 0 where
  here : Reach s s
  next : {t u : Store} → Reach s t → Step t u → Reach s u

done_state :
    {A S : Type 0} (m : Outcome (A × S)) {a b : A} {s t : S}
    → m ≡ done (a, s)
    → m ≡ done (b, t)
    → s ≡ t
done_state m h k = cc

lpop-IsValid :
    (key : Bytes) (n : ℤ) (s s' : Store) (out : Bytes)
    → lpop key n s ≡ done (out, s')
    → IsValid s
    → IsValid s'
lpop-IsValid key n s s' out h valid = go n (Table.get s.elements key) refl h
  where
    go :
        (n : ℤ) (o : Option (List Bytes))
        → Table.get s.elements key ≡ o
        → lpop key n s ≡ done (out, s')
        → IsValid s'
    go n none at h =
        let missing : lpop key n s ≡ done (codes "$-1\r\n", s) = unfold lpop in rw (at, lpop) in
        rw (done_state (lpop key n s) h missing) valid
    go (pos m) (some l) at h =
        rw (done_state (lpop key (pos m) s) h (lpop-take key l m s at))
          (put_list-IsValid key _ s valid)
    go (negsuc m) (some l) at h = cc (lpop_negative key l m s at)

Step-IsValid : {s s' : Store} → Step s s' → IsValid s → IsValid s'
Step-IsValid (push_right {s} key v vs h) valid =
    let (n', t, r, valid') = rpush_total key v vs s valid in
    rw (done_state (rpush key (v ∷ vs) s) h r) valid'
Step-IsValid (push_left {s} key v vs h) valid =
    let (n', t, r, valid') = lpush_total key v vs s valid in
    rw (done_state (lpush key (vs ++ v ∷ []) s) h r) valid'
Step-IsValid (pop {s} {s'} {out} key n h) valid = lpop-IsValid key n s s' out h valid
Step-IsValid (wait {s} key) valid = blpop-IsValid key s valid
Step-IsValid (wake {s} ch) valid = receive-IsValid ch s valid
Step-IsValid (give_up {s} key ch) valid = blpop_timeout-IsValid key ch s valid

Reach-IsValid : {s s' : Store} → IsValid s → Reach s s' → IsValid s'
Reach-IsValid valid here = valid
Reach-IsValid valid (next r st) = Step-IsValid st (Reach-IsValid valid r)

-- After any list commands and any moves of waiting clients, from a server that has just started, a
-- push of at least one value returns: it neither panics nor blocks.
pub reachable_push_returns :
    (s : Store) (key v : Bytes) (vs : List Bytes)
    → Reach init s
    → (n : ℕ) × (s' : Store) × (rpush key (v ∷ vs) s ≡ done (n, s'))
reachable_push_returns s key v vs r =
    let (n, s', e, _) = rpush_total key v vs s (Reach-IsValid init-IsValid r) in (n, s', e)
