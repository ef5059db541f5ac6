-- ===== src/Commands/PubSub.antt =====
-- The publish/subscribe server of internal/commands/commands.go: `Subscribe`, `Publish` and
-- `Unsubscribe` of PubSubServer, and the handlers on top of them. A handler is known by a number; what
-- it keeps for its subscriptions is a Client. A map into `struct{}` is a list of its keys.
use redis_in_go.Prelude.{
  ℕ, suc, ◌+◌, Bool, true, false, ◌||◌, List, [], ◌∷◌, ◌++◌, none, some, ltb, ◌==◌, if◌then◌else◌,
  length,
}
use redis_in_go.Prelude.Int.{pos}
use redis_in_go.Text.{Bytes, codes}
use redis_in_go.Text.Decimal.{format_nat}
use redis_in_go.Resp.{crlf, bulk}
use redis_in_go.Table
use redis_in_go.Table.{Table}
use redis_in_go.Commands.World.{integer_reply}
pub mod Laws
pub mod Reach

-- `send_chan` has the messages that wait for the writer.
pub record Client : Type 0 where
  pub subs : Table (Unit {0})
  pub send_chan : List Bytes
  pub is_subscriber_mode : Bool

pub record Hub : Type 0 where
  pub channels : Table (List ℕ)
  pub clients : ℕ → Client

abbrev pub new_client : Client
new_client = record { subs = []; send_chan = []; is_subscriber_mode = false }

abbrev pub new_hub : Hub
new_hub = record { channels = []; clients = λ h. new_client }

-- h.sendChan = make(chan []byte, 256)
abbrev pub chan_size : ℕ
chan_size = 256

unfoldable pub set_client : ℕ → Client → Hub → Hub
set_client h c hub = record hub { clients = λ i. if h == i then c else hub.clients i }

unfoldable pub has_handler : ℕ → List ℕ → Bool
has_handler h [] = false
has_handler h (i ∷ is) = i == h || has_handler h is

-- m[h] = struct{}{}
unfoldable pub put_handler : ℕ → List ℕ → List ℕ
unfolding has_handler
put_handler h is = if has_handler h is then is else is ++ h ∷ []

-- delete(m, h)
unfoldable pub delete_handler : ℕ → List ℕ → List ℕ
delete_handler h [] = []
delete_handler h (i ∷ is) = let rest = delete_handler h is in if i == h then rest else i ∷ rest

unfoldable pub subscribe : ℕ → Bytes → Hub → Hub
unfolding put_handler set_client
subscribe h channel hub =
    let c = hub.clients h in
    set_client h (record c { subs = Table.put c.subs channel tt })
      (record hub {
        channels =
            Table.put hub.channels channel (put_handler h (Table.get_or hub.channels channel []));
      })

unfoldable pub message_text : Bytes → Bytes → Bytes
message_text channel message = codes "*3\r\n$7\r\nmessage\r\n" ++ (bulk channel ++ bulk message)

-- A send that does not wait: a full channel passes the message over.
unfoldable pub offer : Bytes → Client → Client
offer text c =
    if ltb (length c.send_chan) chan_size
    then record c { send_chan = c.send_chan ++ text ∷ [] }
    else c

unfoldable pub has_room : Client → ℕ
has_room c = if ltb (length c.send_chan) chan_size then 1 else 0

unfoldable pub send_to : Bytes → List ℕ → Hub → ℕ × Hub
unfolding offer has_room set_client
send_to text [] hub = (0, hub)
send_to text (h ∷ hs) hub =
    let c = hub.clients h in
    let (count, hub') = send_to text hs (set_client h (offer text c) hub) in
    (has_room c + count, hub')

-- the clients that got the message
unfoldable pub publish : Bytes → Bytes → Hub → ℕ × Hub
unfolding send_to message_text
publish channel message hub = elim (Table.get hub.channels channel) [
  | none ↦ (0, hub)
  | some hs ↦ send_to (message_text channel message) hs hub
]

unfoldable pub drop_empty : Bytes → List ℕ → Table (List ℕ) → Table (List ℕ)
drop_empty channel [] m = Table.remove m channel
drop_empty channel (h ∷ hs) m = Table.put m channel (h ∷ hs)

unfoldable pub leave : ℕ → Bytes → Table (List ℕ) → Table (List ℕ)
unfolding delete_handler drop_empty
leave h channel m = elim (Table.get m channel) [
  | none ↦ m
  | some hs ↦ drop_empty channel (delete_handler h hs) m
]

-- The handler's map `subs` is never nil.
unfoldable pub unsubscribe : ℕ → Bytes → Hub → ℕ × Hub
unfolding leave set_client
unsubscribe h channel hub =
    let c = hub.clients h in
    let subs = Table.remove c.subs channel in
    (
      length subs,
      set_client h (record c { subs = subs })
          (record hub { channels = leave h channel hub.channels }),
    )

confirmation : Bytes → Bytes → ℕ → Bytes
confirmation kind channel count =
    codes "*3\r\n" ++ (bulk kind ++ (bulk channel ++ integer_reply (pos count)))

-- The handlers, with the responses that they send.
unfoldable pub subscribe_cmd : ℕ → List Bytes → Hub → List Bytes × Hub
unfolding confirmation subscribe
subscribe_cmd h [] hub = ([], hub)
subscribe_cmd h (channel ∷ _) hub =
    let hub' = subscribe h channel hub in
    let c = record (hub'.clients h) { is_subscriber_mode = true } in
    (confirmation (codes "subscribe") channel (length c.subs) ∷ [], set_client h c hub')

unfoldable pub unsubscribe_cmd : ℕ → List Bytes → Hub → List Bytes × Hub
unfolding confirmation unsubscribe
unsubscribe_cmd h [] hub = ([], hub)
unsubscribe_cmd h (channel ∷ _) hub =
    let (count, hub') = unsubscribe h channel hub in
    (confirmation (codes "unsubscribe") channel count ∷ [], hub')

unfoldable pub publish_cmd : List Bytes → Hub → List Bytes × Hub
unfolding publish
publish_cmd (channel ∷ message ∷ _) hub =
    let (count, hub') = publish channel message hub in (integer_reply (pos count) ∷ [], hub')
publish_cmd _ hub = ([], hub)

-- A round of `StartWriterForPubSub` on a connection that takes every write: the text written.
unfoldable pub write_next : ℕ → Hub → Bytes × Hub
write_next h hub = elim ((hub.clients h).send_chan) [
  | [] ↦ ([], hub)
  | msg ∷ rest ↦ (msg, set_client h (record (hub.clients h) { send_chan = rest }) hub)
]
