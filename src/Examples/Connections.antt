-- ===== src/Examples/Connections.antt =====
-- Concrete connections for `HandleIncomingStream`.
use redis_in_go.Prelude.{◌≡◌, refl, true, List, [], ◌∷◌, map, done, arith}
use redis_in_go.Prelude.Int.{pos, wrap_int, ◌+ℤ◌}
use redis_in_go.Text.{codes, str_eq, to_lower}
use redis_in_go.Resp.{format_propagated_command, array_header, bulk, bulks}
use redis_in_go.Text.Decimal.{format_nat}
use redis_in_go.Table
use redis_in_go.Commands.World.{concat}
use redis_in_go.Commands.Session.{
  handle_commands, execute_built_in, built_ins, dispatch, call, ping_cmd, send_response,
}
use redis_in_go.Commands.ExecLaws.{handle_all}
use redis_in_go.Commands.Stream.{Incoming, read_failed, handle_incoming}
use redis_in_go.Commands.Stream.Framing.{Request, words, FitsRequest}
use redis_in_go.Commands.Stream.Batches.{Batch, all_requests, batch_chunks, requests_in_order}
use redis_in_go.Commands.Stream.Fuel.{handle_incoming_enough, stuck_on_inline}
use redis_in_go.Examples.Sessions.{client, no_others}

abbrev ping : Request
ping = (codes "PING", [])

-- two requests in the first read, one in the second
abbrev pings : List Batch
pings = (ping, ping ∷ []) ∷ (ping, []) ∷ []

abbrev connection : Incoming
connection = record {
  is_slave = true;
  master_repl_offset = pos 0;
  chunks = batch_chunks pings;
  buf = [];
  session = client;
}

ping-FitsRequest : FitsRequest ping
unfolding format_propagated_command array_header bulk bulks format_nat
ping-FitsRequest = (omega arith, omega arith)

three_pings :
    handle_all no_others (map words (all_requests pings)) client
    ≡ done (record client { sent = codes "+PONG\r\n+PONG\r\n+PONG\r\n" })
unfolding handle_all handle_commands execute_built_in built_ins str_eq to_lower Table.get dispatch
    call ping_cmd send_response
three_pings = refl

requests_in_order_example :
    handle_incoming no_others 10 connection
    ≡ done (
      read_failed,
      record connection {
        session = record client { sent = codes "+PONG\r\n+PONG\r\n+PONG\r\n" };
        chunks = [];
        buf = [];
        master_repl_offset = pos 42;
      },
    )
unfolding format_propagated_command array_header bulk bulks format_nat wrap_int ◌+ℤ◌
requests_in_order_example =
    requests_in_order no_others 10 pings connection
      (record client { sent = codes "+PONG\r\n+PONG\r\n+PONG\r\n" }) refl refl (omega arith)
      (ping-FitsRequest, (ping-FitsRequest, (ping-FitsRequest, tt))) three_pings (omega arith)

abbrev inline : Incoming
inline = record connection { chunks = codes "PING\r\n" ∷ []; buf = codes "ECHO\r\n" }

handle_incoming_enough_example :
    handle_incoming no_others 20 inline ≡ handle_incoming no_others 30 inline
handle_incoming_enough_example =
    handle_incoming_enough no_others 20 30 inline (omega arith) (omega arith)

stuck_on_inline_example :
    handle_incoming no_others 2 inline
    ≡ done (read_failed, record inline { chunks = []; buf = codes "ECHO\r\nPING\r\n" })
unfolding concat
stuck_on_inline_example =
    stuck_on_inline no_others 2 69 (codes "CHO\r\n") (codes "PING\r\n" ∷ []) inline (omega arith)
      (omega arith)
