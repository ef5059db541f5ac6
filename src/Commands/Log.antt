-- ===== src/Commands/Log.antt =====
-- Proofs about the append-only file that `HandleModifyingCmd` of internal/commands/commands.go writes.
use redis_in_go.Prelude.{
  ◌≡◌, refl, ◌∙◌, sym, Bool, true, false, List, [], ◌∷◌, ◌++◌, Option, append_assoc, append-nil,
  some, none, Outcome, done, panic, blocked, Bool-cases, inl, inr, ◌>>=◌, if◌then◌else◌,
}
use redis_in_go.Prelude.Int.{ℤ, pos}
use redis_in_go.Text.{Bytes, codes}
use mathlib.Core.Path.{subst}
use redis_in_go.Text.Decimal.{atoi}
use redis_in_go.Store
use redis_in_go.Commands.World.{World, concat, aof_line, handle_modifying_cmd}
use redis_in_go.Commands.Handlers.{
  StoreCmd, echo, set, get, incr, rpush, lpush, llen, lrange, lpop, key_type, xadd, xrange, Reply,
  run_store_cmd, set_key, incr_key, rpush_key, lpush_key, lpop_key, xadd_key, pop_elements, set_ttl,
  atoi_value, set_value, set_cmd, incr_cmd, rpush_cmd, lpush_cmd, lpop_cmd, xadd_cmd, echo_cmd,
  get_cmd, llen_cmd, lrange_cmd, type_cmd, xrange_cmd,
}
use redis_in_go.Commands.Replies.{cmd_name}
use redis_in_go.Commands.ExecLaws.{Script, run_script}

-- The file opens, and nothing is left in the buffer.
abbrev pub IsLogging : World → Type 0
IsLogging w = (w.aof_opens ≡ true) × (w.aof_buffer ≡ [])

abbrev pub modifies : StoreCmd → Bool
modifies set = true
modifies incr = true
modifies rpush = true
modifies lpush = true
modifies lpop = true
modifies xadd = true
modifies _ = false

-- The line of a command, as the code writes it.
abbrev pub log_line : StoreCmd → List Bytes → Bytes
log_line c args = if modifies c then aof_line (cmd_name c) args else []

unfoldable pub log : Script → Bytes
log [] = []
log ((c, args) ∷ script) = log_line c args ++ log script

-- Two worlds with the same file and buffer.
abbrev SameLog : World → World → Type 0
SameLog w v =
    (v.aof_opens ≡ w.aof_opens) × (v.aof_buffer ≡ w.aof_buffer) × (v.aof_file ≡ w.aof_file)

-- What holds of the world if the command comes to its end.
abbrev pub Ends : (World → Type 0) → Reply → Type 0
Ends P (done (rs, w)) = P w
Ends P panic = Unit
Ends P blocked = Unit

Ends->>= :
    {A : Type 0} (P : World → Type 0) (m : Outcome A) (f : A → Reply)
    → ((a : A) → Ends P (f a))
    → Ends P (m >>= f)
Ends->>= P (done a) f h = h a
Ends->>= P panic f h = tt
Ends->>= P blocked f h = tt

-- The handlers behind `HandleModifyingCmd` leave the file alone.
set_value-SameLog :
    (key value : Bytes) (t : Option ℤ) (w : World) → Ends (SameLog w) (set_value key value t w)
unfolding set_value
set_value-SameLog key value none w = (refl, refl, refl)
set_value-SameLog key value (some ttl) w = (refl, refl, refl)

set_key-SameLog : (args : List Bytes) (w : World) → Ends (SameLog w) (set_key args w)
unfolding set_key
set_key-SameLog [] w = tt
set_key-SameLog (key ∷ []) w = tt
set_key-SameLog (key ∷ value ∷ options) w = set_value-SameLog key value (set_ttl options) w

incr_key-SameLog : (args : List Bytes) (w : World) → Ends (SameLog w) (incr_key args w)
unfolding incr_key
incr_key-SameLog [] w = (refl, refl, refl)
incr_key-SameLog (key ∷ _) w = (refl, refl, refl)

rpush_key-SameLog : (args : List Bytes) (w : World) → Ends (SameLog w) (rpush_key args w)
unfolding rpush_key
rpush_key-SameLog [] w = tt
rpush_key-SameLog (key ∷ values) w =
    Ends->>= (SameLog w) (Store.rpush key values w.store) _ (λ _. (refl, refl, refl))

lpush_key-SameLog : (args : List Bytes) (w : World) → Ends (SameLog w) (lpush_key args w)
unfolding lpush_key
lpush_key-SameLog [] w = tt
lpush_key-SameLog (key ∷ values) w =
    Ends->>= (SameLog w) (Store.lpush key values w.store) _ (λ _. (refl, refl, refl))

pop_elements-SameLog : (key : Bytes) (n : ℤ) (w : World) → Ends (SameLog w) (pop_elements key n w)
unfolding pop_elements
pop_elements-SameLog key n w =
    Ends->>= (SameLog w) (Store.lpop key n w.store) _ (λ _. (refl, refl, refl))

lpop_key-SameLog : (args : List Bytes) (w : World) → Ends (SameLog w) (lpop_key args w)
unfolding lpop_key
lpop_key-SameLog [] w = tt
lpop_key-SameLog (key ∷ []) w = pop_elements-SameLog key (pos 1) w
lpop_key-SameLog (key ∷ n ∷ _) w = pop_elements-SameLog key (atoi_value (atoi n)) w

xadd_key-SameLog : (args : List Bytes) (w : World) → Ends (SameLog w) (xadd_key args w)
unfolding xadd_key
xadd_key-SameLog [] w = tt
xadd_key-SameLog (key ∷ []) w = tt
xadd_key-SameLog (key ∷ id ∷ rest) w = (refl, refl, refl)

-- A world that logs, with this file.
abbrev Logged : Bytes → World → Type 0
Logged file w = IsLogging w × (w.aof_file ≡ file)

handle_modifying_cmd-Logged :
    (cmd : Bytes) (args : List Bytes) (w : World)
    → IsLogging w
    → Logged (w.aof_file ++ aof_line cmd args) (handle_modifying_cmd cmd args w)
unfolding handle_modifying_cmd concat
handle_modifying_cmd-Logged cmd args w (ho, hb) = elim (Bool-cases w.is_master) [
  | inl t ↦ simp (t, ho, hb, append-nil) ((refl, refl), refl)
  | inr f ↦ simp (f, ho, hb, append-nil) ((refl, refl), refl)
]

Ends-SameLog :
    (file : Bytes) (v : World) (m : Reply)
    → Logged file v
    → Ends (SameLog v) m
    → Ends (Logged file) m
Ends-SameLog file v (done (rs, u)) ((o, b), e) (o', b', e') = ((o' ∙ o, b' ∙ b), e' ∙ e)
Ends-SameLog file v panic l h = tt
Ends-SameLog file v blocked l h = tt

-- a modifying handler: `HandleModifyingCmd`, and then a part that leaves the file alone
modifying-Logged :
    (cmd : Bytes) (args : List Bytes) (w : World) (f : List Bytes → World → Reply)
    → IsLogging w
    → ((v : World) → Ends (SameLog v) (f args v))
    → Ends (Logged (w.aof_file ++ aof_line cmd args)) (f args (handle_modifying_cmd cmd args w))
modifying-Logged cmd args w f h quiet =
    let v = handle_modifying_cmd cmd args w in
    Ends-SameLog _ v (f args v) (handle_modifying_cmd-Logged cmd args w h) (quiet v)

lrange_cmd-Logged :
    (args : List Bytes) (w : World)
    → IsLogging w
    → Ends (Logged (w.aof_file ++ [])) (lrange_cmd args w)
unfolding lrange_cmd
lrange_cmd-Logged (key ∷ start ∷ stop ∷ _) w h =
    Ends->>= _ (Store.lrange key (atoi_value (atoi start)) (atoi_value (atoi stop)) w.store) _
      (λ _. (h, sym (append-nil w.aof_file)))
lrange_cmd-Logged (key ∷ start ∷ []) w h = tt
lrange_cmd-Logged (key ∷ []) w h = tt
lrange_cmd-Logged [] w h = tt

xrange_cmd-Logged :
    (args : List Bytes) (w : World)
    → IsLogging w
    → Ends (Logged (w.aof_file ++ [])) (xrange_cmd args w)
unfolding xrange_cmd
xrange_cmd-Logged (key ∷ start_id ∷ end_id ∷ _) w h =
    Ends->>= _ (Store.xrange key start_id end_id w.store) _ (λ _. (h, sym (append-nil w.aof_file)))
xrange_cmd-Logged (key ∷ start_id ∷ []) w h = (h, sym (append-nil w.aof_file))
xrange_cmd-Logged (key ∷ []) w h = (h, sym (append-nil w.aof_file))
xrange_cmd-Logged [] w h = (h, sym (append-nil w.aof_file))

run_store_cmd-Logged :
    (c : StoreCmd) (args : List Bytes) (w : World)
    → IsLogging w
    → Ends (Logged (w.aof_file ++ log_line c args)) (run_store_cmd c args w)
unfolding run_store_cmd set_cmd incr_cmd rpush_cmd lpush_cmd lpop_cmd xadd_cmd echo_cmd get_cmd
    llen_cmd type_cmd
run_store_cmd-Logged set args w h =
    modifying-Logged (codes "set") args w set_key h (set_key-SameLog args)
run_store_cmd-Logged incr args w h =
    modifying-Logged (codes "incr") args w incr_key h (incr_key-SameLog args)
run_store_cmd-Logged rpush args w h =
    modifying-Logged (codes "rpush") args w rpush_key h (rpush_key-SameLog args)
run_store_cmd-Logged lpush args w h =
    modifying-Logged (codes "lpush") args w lpush_key h (lpush_key-SameLog args)
run_store_cmd-Logged lpop args w h =
    modifying-Logged (codes "lpop") args w lpop_key h (lpop_key-SameLog args)
run_store_cmd-Logged xadd args w h =
    modifying-Logged (codes "xadd") args w xadd_key h (xadd_key-SameLog args)
run_store_cmd-Logged echo [] w h = tt
run_store_cmd-Logged echo (arg ∷ _) w h = (h, sym (append-nil w.aof_file))
run_store_cmd-Logged get [] w h = tt
run_store_cmd-Logged get (key ∷ _) w h = (h, sym (append-nil w.aof_file))
run_store_cmd-Logged llen [] w h = tt
run_store_cmd-Logged llen (key ∷ _) w h = (h, sym (append-nil w.aof_file))
run_store_cmd-Logged key_type [] w h = (h, sym (append-nil w.aof_file))
run_store_cmd-Logged key_type (key ∷ _) w h = (h, sym (append-nil w.aof_file))
run_store_cmd-Logged lrange args w h = lrange_cmd-Logged args w h
run_store_cmd-Logged xrange args w h = xrange_cmd-Logged args w h

Ends-rest :
    (P Q : World → Type 0) (m : Reply) (f : List Bytes × World → Reply)
    → Ends P m
    → ((rs : List Bytes) (w : World) → P w → Ends Q (f (rs, w)))
    → Ends Q (m >>= f)
Ends-rest P Q (done (rs, w)) f h k = k rs w h
Ends-rest P Q panic f h k = tt
Ends-rest P Q blocked f h k = tt

run_script-Logged :
    (script : Script) (w : World)
    → IsLogging w
    → Ends (Logged (w.aof_file ++ log script)) (run_script script w)
unfolding run_script log
run_script-Logged [] w h = (h, sym (append-nil w.aof_file))
run_script-Logged ((c, args) ∷ script) w h =
    Ends-rest _ _ (run_store_cmd c args w) _ (run_store_cmd-Logged c args w h) (λ rs v (hv, file).
      Ends-rest _ _ (run_script script v) _ (run_script-Logged script v hv)
        (λ rs' u (hu, file'). (hu, rw (file', file, append_assoc) refl)))

-- With the lines of the code.
pub script_logs :
    (script : Script) (w : World) {rs : List Bytes} {v : World}
    → w.aof_opens ≡ true
    → w.aof_buffer ≡ []
    → run_script script w ≡ done (rs, v)
    → (v.aof_file ≡ w.aof_file ++ log script) × (v.aof_buffer ≡ [])
script_logs script w ho hb e =
    let ((_, b), file) =
      subst (Ends (Logged (w.aof_file ++ log script))) e (run_script-Logged script w (ho, hb)) in
    (file, b)
