-- ===== src/Examples/Subscriptions.antt =====
-- Concrete runs of publish/subscribe.
use redis_in_go.Prelude.{◌≡◌, refl, [], ◌∷◌}
use redis_in_go.Text.{codes, str_eq}
use redis_in_go.Text.Decimal.{format_int, format_nat}
use redis_in_go.Resp.Format.{resp_array, resp_strings, resp_string}
use redis_in_go.Resp.{bulk}
use redis_in_go.Table
use redis_in_go.Commands.World.{integer_reply}
use redis_in_go.Commands.PubSub.{Hub, new_hub, subscribe_cmd, subscribe, set_client, publish}
use redis_in_go.Commands.PubSub.Laws.{IsLinked}
use redis_in_go.Commands.PubSub.Reach.{
  Reachable, start, then_step, subscribes, reachable-IsLinked, published_once,
}

abbrev two_clients : Hub
two_clients =
    let hub = (subscribe_cmd 4 (codes "news" ∷ []) new_hub).1 in
    (subscribe_cmd 7 (codes "news" ∷ []) hub).1

two_clients-Reachable : Reachable two_clients
two_clients-Reachable =
    then_step (then_step start (subscribes 4 (codes "news" ∷ []) new_hub))
      (subscribes 7 (codes "news" ∷ []) (subscribe_cmd 4 (codes "news" ∷ []) new_hub).1)

reachable-IsLinked_example : IsLinked two_clients
reachable-IsLinked_example = reachable-IsLinked two_clients-Reachable

published_once_example :
    (publish (codes "news") (codes "hi") two_clients).1.clients 7 ≡ record (two_clients.clients 7) {
      send_chan = codes "*3\r\n$7\r\nmessage\r\n$4\r\nnews\r\n$2\r\nhi\r\n" ∷ [];
    }
unfolding subscribe_cmd subscribe set_client Table.get Table.put str_eq resp_array resp_strings
    resp_string format_nat
published_once_example =
    published_once (codes "news") (codes "hi") two_clients 7 two_clients-Reachable

replies_count_up :
    (subscribe_cmd 4 (codes "b" ∷ []) (subscribe_cmd 4 (codes "a" ∷ []) new_hub).1).0
    ≡ codes "*3\r\n$9\r\nsubscribe\r\n$1\r\nb\r\n:2\r\n" ∷ []
unfolding subscribe_cmd subscribe set_client bulk integer_reply Table.put format_int str_eq
replies_count_up = refl
