-- ===== src/Commands/LogText.antt =====
-- The text that `HandleModifyingCmd` of internal/commands/commands.go appends to its file, against the
-- format of the protocol.
use redis_in_go.Prelude.{◌≡◌, refl, true, List, [], ◌∷◌, ◌++◌, Option, some, none, done}
use redis_in_go.Text.{Bytes, codes, to_upper}
use redis_in_go.Commands.World.{World, aof_line}
use redis_in_go.Commands.Handlers.{
  StoreCmd, echo, set, get, incr, rpush, lpush, llen, lrange, lpop, key_type, xadd, xrange,
}
use redis_in_go.Commands.ExecLaws.{Script, run_script}
use redis_in_go.Resp.Format.{resp_array, array_header-resp_array}
use redis_in_go.Commands.Log.{log, script_logs}

-- The name under which a command is logged; the others are not.
abbrev pub logged_name : StoreCmd → Option Bytes
logged_name set = some (codes "SET")
logged_name incr = some (codes "INCR")
logged_name rpush = some (codes "RPUSH")
logged_name lpush = some (codes "LPUSH")
logged_name lpop = some (codes "LPOP")
logged_name xadd = some (codes "XADD")
logged_name echo = none
logged_name get = none
logged_name llen = none
logged_name lrange = none
logged_name key_type = none
logged_name xrange = none

-- What a script adds to the file: one array of bulk strings for each command that is logged, its
-- name in capitals and its arguments.
abbrev pub logged_text : Script → Bytes
logged_text [] = []
logged_text ((c, args) ∷ script) = elim (logged_name c) [
  | none ↦ logged_text script
  | some name ↦ resp_array (name ∷ args) ++ logged_text script
]

aof_line-resp_array :
    (cmd : Bytes) (args : List Bytes) → aof_line cmd args ≡ resp_array (to_upper cmd ∷ args)
unfolding aof_line
aof_line-resp_array cmd args = array_header-resp_array (to_upper cmd) args

logged_line :
    (cmd name : Bytes) (args : List Bytes) {rest rest' : Bytes}
    → to_upper cmd ≡ name
    → rest ≡ rest'
    → aof_line cmd args ++ rest ≡ resp_array (name ∷ args) ++ rest'
logged_line cmd name args u e = rw (aof_line-resp_array cmd args, u, e)

log-logged_text : (script : Script) → log script ≡ logged_text script
unfolding log to_upper
log-logged_text [] = refl
log-logged_text ((set, args) ∷ script) =
    logged_line (codes "set") (codes "SET") args refl (log-logged_text script)
log-logged_text ((incr, args) ∷ script) =
    logged_line (codes "incr") (codes "INCR") args refl (log-logged_text script)
log-logged_text ((rpush, args) ∷ script) =
    logged_line (codes "rpush") (codes "RPUSH") args refl (log-logged_text script)
log-logged_text ((lpush, args) ∷ script) =
    logged_line (codes "lpush") (codes "LPUSH") args refl (log-logged_text script)
log-logged_text ((lpop, args) ∷ script) =
    logged_line (codes "lpop") (codes "LPOP") args refl (log-logged_text script)
log-logged_text ((xadd, args) ∷ script) =
    logged_line (codes "xadd") (codes "XADD") args refl (log-logged_text script)
log-logged_text ((echo, args) ∷ script) = log-logged_text script
log-logged_text ((get, args) ∷ script) = log-logged_text script
log-logged_text ((llen, args) ∷ script) = log-logged_text script
log-logged_text ((lrange, args) ∷ script) = log-logged_text script
log-logged_text ((key_type, args) ∷ script) = log-logged_text script
log-logged_text ((xrange, args) ∷ script) = log-logged_text script

-- With an append-only file that opens and an empty buffer, a script of the commands of the store that
-- comes to its end has added to the file, in their order, one array of bulk strings for each SET, INCR,
-- RPUSH, LPUSH, LPOP and XADD, whether the command was carried out or refused: the name in capitals and
-- the arguments. ECHO, GET, LLEN, LRANGE, TYPE and XRANGE add nothing, and the buffer is empty again.
pub script_logged :
    (script : Script) (w : World) {rs : List Bytes} {v : World}
    → w.aof_opens ≡ true
    → w.aof_buffer ≡ []
    → run_script script w ≡ done (rs, v)
    → (v.aof_file ≡ w.aof_file ++ logged_text script) × (v.aof_buffer ≡ [])
script_logged script w ho hb e =
    let (file, b) = script_logs script w ho hb e in (rw (← log-logged_text script) file, b)
