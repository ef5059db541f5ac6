-- ===== src/Commands/Strangers.antt =====
-- Requests on a connection that is not authenticated, at `handleCommands` of
-- internal/commands/commands.go.
use redis_in_go.Prelude.{ℕ, zero, suc, ◌≡◌, false, [], ◌++◌}
use redis_in_go.Text.{Bytes, codes, str_eq, to_lower}
use redis_in_go.Commands.Session.{Session}
use redis_in_go.Commands.Stream.Framing.{Request}

abbrev pub no_auth : Bytes
no_auth = codes "-NOAUTH Authentication required\r\n"

abbrev pub errors : ℕ → Bytes
errors zero = []
errors (suc n) = no_auth ++ errors n

abbrev pub IsNotAuth : Request → Type 0
IsNotAuth (cmd, _) = str_eq (to_lower cmd) (codes "auth") ≡ false

-- What `n` refused requests make of a session: only its output changes, and where replies are sent
-- at once it has `n` errors more.
pub record Refused (n : ℕ) (s s' : Session) : Type 0 where
  pub nothing_else : s' ≡ record s { sent = s'.sent; cmd_queue_responses = s'.cmd_queue_responses }
  pub answered :
      s.is_master_conn ≡ false
      → s.is_rebuilding ≡ false
      → s.is_response_queued ≡ false
      → s'.sent ≡ s.sent ++ errors n
