-- ===== src/Commands/PubSub/Reach.antt =====
-- The states that the publish/subscribe server of internal/commands/commands.go can reach.
use redis_in_go.Prelude.{
  ℕ, ◌≡◌, refl, sym, ap, ◌∙◌, Bool, true, false, ◌&&◌, ◌++◌, ltb, length, append-nil, Bool-cases,
  inl, inr, List, [], ◌∷◌, arith, ◌==◌, if◌then◌else◌,
}
use redis_in_go.Text.{Bytes, codes}
use redis_in_go.Text.Decimal.{format_nat}
use redis_in_go.Resp.{bulk}
use redis_in_go.Resp.Format.{resp_array, resp_strings, resp_string}
use redis_in_go.Commands.PubSub.{
  Client, Hub, new_hub, set_client, subscribe, offer, publish, subscribe_cmd, unsubscribe_cmd,
  publish_cmd, write_next, message_text,
}
use redis_in_go.Commands.PubSub.Laws.{
  is_subscribed, IsLinked, is_subscribed-if, new_hub-IsLinked, subscribe-IsLinked,
  unsubscribe-IsLinked, publish-IsLinked, publish_delivers,
}

-- A command of a client, or a round of its writer.
pub data Step : Hub → Hub → Type 0 where
  subscribes : (h : ℕ) (args : List Bytes) (hub : Hub) → Step hub (subscribe_cmd h args hub).1
  unsubscribes : (h : ℕ) (args : List Bytes) (hub : Hub) → Step hub (unsubscribe_cmd h args hub).1
  publishes : (args : List Bytes) (hub : Hub) → Step hub (publish_cmd args hub).1
  writes : (h : ℕ) (hub : Hub) → Step hub (write_next h hub).1

pub data Reachable : Hub → Type 0 where
  start : Reachable new_hub
  then_step : {hub hub' : Hub} → Reachable hub → Step hub hub' → Reachable hub'

relink :
    (h : ℕ) (c : Client) (hub : Hub)
    → ((channel : Bytes) → is_subscribed channel c ≡ is_subscribed channel (hub.clients h))
    → IsLinked hub
    → IsLinked (set_client h c hub)
unfolding set_client
relink h c hub same l i channel =
    l i channel
    ∙ ap (λ (b : Bool). if b then 1 else 0)
        (sym (is_subscribed-if channel (h == i) c (hub.clients i) ∙ kept))
  where
    kept :
        (if h == i then is_subscribed channel c else is_subscribed channel (hub.clients i))
        ≡ is_subscribed channel (hub.clients i)
    kept =
        ground
          (arith, same channel, λ (e : h ≡ i). ap (λ j. is_subscribed channel (hub.clients j)) e)

subscribe_cmd-IsLinked :
    (h : ℕ) (args : List Bytes) (hub : Hub) → IsLinked hub → IsLinked (subscribe_cmd h args hub).1
unfolding subscribe_cmd
subscribe_cmd-IsLinked h [] hub l = l
subscribe_cmd-IsLinked h (channel ∷ _) hub l =
    relink h _ (subscribe h channel hub) (λ c. refl) (subscribe-IsLinked h channel hub l)

unsubscribe_cmd-IsLinked :
    (h : ℕ) (args : List Bytes) (hub : Hub) → IsLinked hub → IsLinked (unsubscribe_cmd h args hub).1
unfolding unsubscribe_cmd
unsubscribe_cmd-IsLinked h [] hub l = l
unsubscribe_cmd-IsLinked h (channel ∷ _) hub l = unsubscribe-IsLinked h channel hub l

publish_cmd-IsLinked :
    (args : List Bytes) (hub : Hub) → IsLinked hub → IsLinked (publish_cmd args hub).1
unfolding publish_cmd
publish_cmd-IsLinked [] hub l = l
publish_cmd-IsLinked (channel ∷ []) hub l = l
publish_cmd-IsLinked (channel ∷ message ∷ _) hub l = publish-IsLinked channel message hub l

written : ℕ → Hub → List Bytes → Bytes × Hub
written h hub [] = ([], hub)
written h hub (msg ∷ rest) = (msg, set_client h (record (hub.clients h) { send_chan = rest }) hub)

written-IsLinked :
    (h : ℕ) (hub : Hub) (waiting : List Bytes) → IsLinked hub → IsLinked (written h hub waiting).1
unfolding written
written-IsLinked h hub [] l = l
written-IsLinked h hub (msg ∷ rest) l = relink h _ hub (λ c. refl) l

write_next-IsLinked : (h : ℕ) (hub : Hub) → IsLinked hub → IsLinked (write_next h hub).1
unfolding write_next written
write_next-IsLinked h hub l = written-IsLinked h hub ((hub.clients h).send_chan) l

Step-IsLinked : {hub hub' : Hub} → Step hub hub' → IsLinked hub → IsLinked hub'
Step-IsLinked (subscribes h args hub) l = subscribe_cmd-IsLinked h args hub l
Step-IsLinked (unsubscribes h args hub) l = unsubscribe_cmd-IsLinked h args hub l
Step-IsLinked (publishes args hub) l = publish_cmd-IsLinked args hub l
Step-IsLinked (writes h hub) l = write_next-IsLinked h hub l

-- In every state that the server reaches by commands of clients and rounds of their writers, a client
-- stands once in the set of a channel that it has noted as a subscription, and in no other set.
pub reachable-IsLinked : {hub : Hub} → Reachable hub → IsLinked hub
reachable-IsLinked start = new_hub-IsLinked
reachable-IsLinked (then_step r s) = Step-IsLinked s (reachable-IsLinked r)

-- What a client gets of a PUBLISH to a channel: the message as an array of three bulk strings, behind
-- those that wait, if it is subscribed to the channel and fewer than 256 wait for it; else nothing.
abbrev pub gets : Bytes → Bytes → Client → List Bytes
gets channel message c =
    if is_subscribed channel c && ltb (length c.send_chan) 256
    then resp_array (codes "message" ∷ channel ∷ message ∷ []) ∷ []
    else []

message_text-resp_array :
    (channel message : Bytes)
    → message_text channel message ≡ resp_array (codes "message" ∷ channel ∷ message ∷ [])
unfolding message_text resp_array resp_strings resp_string bulk format_nat
message_text-resp_array channel message =
    ap (λ t. codes "*3\r\n$7\r\nmessage\r\n" ++ (bulk channel ++ t))
      (sym (append-nil (bulk message)))

-- A client that is offered a text, if `b` holds.
offer-if :
    (b : Bool) (text : Bytes) (c : Client)
    → (if b then offer text c else c) ≡ record c {
      send_chan = c.send_chan ++ (if b && ltb (length c.send_chan) 256 then text ∷ [] else []);
    }
unfolding offer
offer-if false text c =
    ap (λ waiting. record c { send_chan = waiting }) (sym (append-nil c.send_chan))
offer-if true text c = elim (Bool-cases (ltb (length c.send_chan) 256)) [
  | inl room ↦ rw room refl
  | inr full ↦
      rw full (ap (λ waiting. record c { send_chan = waiting }) (sym (append-nil c.send_chan)))
]

-- In every state that the server reaches, a PUBLISH puts its message once behind those that wait for a
-- client that is subscribed to the channel, unless 256 wait for it already, and changes neither its
-- subscriptions nor any other client. The message is an array of three bulk strings: the word message,
-- the channel and the text.
pub published_once :
    (channel message : Bytes) (hub : Hub) (h : ℕ)
    → Reachable hub
    → (publish channel message hub).1.clients h ≡ record (hub.clients h) {
      send_chan = (hub.clients h).send_chan ++ gets channel message (hub.clients h);
    }
published_once channel message hub h r =
    publish_delivers channel message hub h (reachable-IsLinked r)
    ∙ offer-if (is_subscribed channel (hub.clients h)) (message_text channel message)
        (hub.clients h)
    ∙ rw (message_text-resp_array channel message)
