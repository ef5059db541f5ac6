-- ===== src/Commands/Stream.antt =====
-- `HandleIncomingStream` of internal/commands/commands.go with `TrackOffset`. What the reader returns
-- is a list of chunks, of at most 1024 bytes each in the source; behind the last one it fails.
use redis_in_go.Prelude.{
  ℕ, zero, suc, ◌+◌, ◌*◌, Bool, true, false, List, [], ◌∷◌, ◌++◌, Outcome, done, panic, blocked,
  ◌>>=◌, if◌then◌else◌, length, drop,
}
use redis_in_go.Prelude.Int.{ℤ, pos, ◌+ℤ◌, wrap_int}
use redis_in_go.Text.{Bytes}
use redis_in_go.Resp
use redis_in_go.Resp.{ParseError, not_array, not_enough}
use redis_in_go.Commands.Session.{Session, handle_commands}
pub mod Framing
pub mod Batches
pub mod Fuel

pub data Ending : Type 0 where
  read_failed : Ending
  parse_failed : ParseError → Ending

-- What the loop works on: `master_repl_offset` is that of internal/info, and `is_slave` tells whether
-- its role is "slave".
pub record Incoming : Type 0 where
  pub is_slave : Bool
  pub master_repl_offset : ℤ
  pub chunks : List Bytes
  pub buf : Bytes
  pub session : Session

unfoldable pub track_offset : Bool → ℕ → ℤ → ℤ
track_offset is_slave n offset = if is_slave then wrap_int (offset +ℤ pos n) else offset

-- the errors after which more data is read
unfoldable pub wants_more : ParseError → Bool
wants_more not_enough = true
wants_more not_array = true
wants_more _ = false

abbrev pub Continue : Type 0
Continue = Incoming → Outcome (Ending × Incoming)

-- another read, behind what is left
unfoldable pub read_more : Continue → Incoming → Outcome (Ending × Incoming)
read_more next c = elim c.chunks [
  | [] ↦ done (read_failed, c)
  | chunk ∷ chunks ↦ next (record c { chunks = chunks; buf = c.buf ++ chunk })
]

module _ (others : Bytes → List Bytes → Session → Outcome Session) where
  -- what follows from the result of the parser; `next` is the loop
  unfoldable pub handle_parsed :
      Continue → Resp.Parsed (List Bytes × ℕ) → Incoming → Outcome (Ending × Incoming)
  unfolding track_offset wants_more read_more
  handle_parsed next (Resp.err e) c =
      if wants_more e then read_more next c else done (parse_failed e, c)
  handle_parsed next Resp.panic c = panic
  handle_parsed next (Resp.ok (cmds, n)) c = do
    s ← handle_commands others cmds c.session
    next (record c {
      session = s;
      buf = drop n c.buf;
      master_repl_offset = track_offset c.is_slave n c.master_repl_offset;
    })

  -- The loop, for at most `fuel` rounds; a read is a round of its own.
  unfoldable pub handle_incoming : ℕ → Incoming → Outcome (Ending × Incoming)
  unfolding handle_parsed
  handle_incoming zero c = blocked
  handle_incoming (suc fuel) c = elim c.buf [
    | [] ↦ elim c.chunks [
      | [] ↦ done (read_failed, c)
      | chunk ∷ chunks ↦
          handle_parsed (handle_incoming fuel) (Resp.parse_command chunk)
            (record c { chunks = chunks; buf = chunk })
    ]
    | b ∷ buf ↦ handle_parsed (handle_incoming fuel) (Resp.parse_command (b ∷ buf)) c
  ]
