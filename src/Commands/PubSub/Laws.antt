-- ===== src/Commands/PubSub/Laws.antt =====
-- The two sides of a subscription, and what a client gets of a message.
use redis_in_go.Prelude.{
  ℕ, zero, suc, ◌+◌, ◌≡◌, refl, sym, ap, ◌∙◌, Bool, true, false, not, ◌||◌, ◌&&◌, List, [], ◌∷◌,
  ◌++◌, Option, none, some, arith, ltb, ◌==◌, if◌then◌else◌, length,
}
use redis_in_go.Text.{Bytes, str_eq, str_eq_iff}
use redis_in_go.Table
use redis_in_go.Table.{Table}
use redis_in_go.Commands.PubSub.{
  Client, Hub, new_hub, set_client, has_handler, put_handler, delete_handler, subscribe, offer,
  send_to, publish, drop_empty, leave, unsubscribe, chan_size, message_text,
}

abbrev pub is_subscribed : Bytes → Client → Bool
is_subscribed channel c = elim (Table.get c.subs channel) [ none ↦ false | some x ↦ true ]

abbrev pub subscribers : Bytes → Hub → List ℕ
subscribers channel hub = Table.get_or hub.channels channel []

-- how often a handler stands in a list
abbrev count : ℕ → List ℕ → ℕ
count h [] = 0
count h (i ∷ is) = (if i == h then 1 else 0) + count h is

count-append :
    (h j : ℕ) (is : List ℕ) → count h (is ++ j ∷ []) ≡ count h is + (if j == h then 1 else 0)
count-append h j [] = omega arith
count-append h j (i ∷ is) = omega (arith, count-append h j is)

has_handler-count : (h : ℕ) (is : List ℕ) → has_handler h is ≡ ltb 0 (count h is)
unfolding has_handler
has_handler-count h [] = refl
has_handler-count h (i ∷ is) = ground (arith, has_handler-count h is)

count-put :
    (h j : ℕ) (is : List ℕ)
    → count h (put_handler j is) ≡ (if (j == h) && (count h is == 0) then 1 else count h is)
unfolding put_handler
count-put h j is = ground (
  arith,
  has_handler-count j is,
  count-append h j is,
  λ (e : j ≡ h). ap (λ (i : ℕ). count i is) e,
)

count-delete :
    (h j : ℕ) (is : List ℕ) → count h (delete_handler j is) ≡ (if j == h then 0 else count h is)
unfolding delete_handler
count-delete h j [] = ground arith
count-delete h j (i ∷ is) = ground (arith, count-delete h j is)

-- A handler stands once in the set of the channels that it has noted, and in no other set.
abbrev pub IsLinked : Hub → Type 0
IsLinked hub =
    (h : ℕ) (channel : Bytes)
    → count h (subscribers channel hub) ≡ (if is_subscribed channel (hub.clients h) then 1 else 0)

pub new_hub-IsLinked : IsLinked new_hub
unfolding Table.get Table.get_or
new_hub-IsLinked h channel = refl

is_subscribed-put :
    (channel c : Bytes) (cl : Client)
    → is_subscribed c (record cl { subs = Table.put cl.subs channel tt })
      ≡ (str_eq channel c || is_subscribed c cl)
is_subscribed-put channel c cl =
    rw (is_subscribed, Table.get-put cl.subs channel c tt) (ground arith)

is_subscribed-remove :
    (channel c : Bytes) (cl : Client)
    → is_subscribed c (record cl { subs = Table.remove cl.subs channel })
      ≡ (not (str_eq channel c) && is_subscribed c cl)
is_subscribed-remove channel c cl =
    rw (is_subscribed, Table.get-remove cl.subs channel c) (ground arith)

pub is_subscribed-if :
    (channel : Bytes) (b : Bool) (x y : Client)
    → is_subscribed channel (if b then x else y)
      ≡ (if b then is_subscribed channel x else is_subscribed channel y)
is_subscribed-if channel true x y = refl
is_subscribed-if channel false x y = refl

subscribers-subscribe :
    (h i : ℕ) (channel c : Bytes) (hub : Hub)
    → count i (subscribers c (subscribe h channel hub)) ≡ (
        if str_eq channel c && (h == i) && (count i (subscribers c hub) == 0)
        then 1
        else count i (subscribers c hub))
unfolding subscribe set_client
subscribers-subscribe h i channel c hub =
    rw
      (Table.get_or-put hub.channels channel c
        (put_handler h (Table.get_or hub.channels channel [])) [])
      (ground (arith, str_eq_iff channel c, count-put i h (Table.get_or hub.channels channel [])))

subscribed-subscribe :
    (h i : ℕ) (channel c : Bytes) (hub : Hub)
    → is_subscribed c ((subscribe h channel hub).clients i)
      ≡ ((str_eq channel c && (h == i)) || is_subscribed c (hub.clients i))
unfolding subscribe set_client
subscribed-subscribe h i channel c hub =
    rw
      (
        is_subscribed-if c (h == i)
            (record (hub.clients h) { subs = Table.put (hub.clients h).subs channel tt })
            (hub.clients i),
        is_subscribed-put channel c (hub.clients h),
      )
      (ground (arith, λ (e : h ≡ i). ap (λ j. is_subscribed c (hub.clients j)) e))

pub subscribe-IsLinked :
    (h : ℕ) (channel : Bytes) (hub : Hub) → IsLinked hub → IsLinked (subscribe h channel hub)
subscribe-IsLinked h channel hub l i c =
    rw (subscribers-subscribe h i channel c hub, subscribed-subscribe h i channel c hub, l i c)
      (ground arith)

count-drop_empty :
    (i : ℕ) (channel c : Bytes) (hs : List ℕ) (m : Table (List ℕ))
    → count i (Table.get_or (drop_empty channel hs m) c [])
      ≡ (if str_eq channel c then count i hs else count i (Table.get_or m c []))
unfolding drop_empty
count-drop_empty i channel c [] m = rw (Table.get_or-remove m channel c []) (ground arith)
count-drop_empty i channel c (h ∷ hs) m =
    rw (Table.get_or-put m channel c (h ∷ hs) []) (ground arith)

abbrev leave_from : ℕ → Bytes → Table (List ℕ) → Option (List ℕ) → Table (List ℕ)
leave_from h channel m none = m
leave_from h channel m (some hs) = drop_empty channel (delete_handler h hs) m

get_or-leave_from :
    (h i : ℕ) (channel c : Bytes) (m : Table (List ℕ)) (found : Option (List ℕ))
    → Table.get m channel ≡ found
    → count i (Table.get_or (leave_from h channel m found) c [])
      ≡ (if str_eq channel c && (h == i) then 0 else count i (Table.get_or m c []))
get_or-leave_from h i channel c m none e =
    unfold Table.get_or in ground (arith, e, str_eq_iff channel c)
get_or-leave_from h i channel c m (some hs) e =
    rw (count-drop_empty i channel c (delete_handler h hs) m, count-delete i h hs)
      (unfold Table.get_or in ground (arith, e, str_eq_iff channel c))

get_or-leave :
    (h i : ℕ) (channel c : Bytes) (m : Table (List ℕ))
    → count i (Table.get_or (leave h channel m) c [])
      ≡ (if str_eq channel c && (h == i) then 0 else count i (Table.get_or m c []))
unfolding leave
get_or-leave h i channel c m = get_or-leave_from h i channel c m (Table.get m channel) refl

subscribed-unsubscribe :
    (h i : ℕ) (channel c : Bytes) (hub : Hub)
    → is_subscribed c ((unsubscribe h channel hub).1.clients i)
      ≡ (not (str_eq channel c && (h == i)) && is_subscribed c (hub.clients i))
unfolding unsubscribe set_client
subscribed-unsubscribe h i channel c hub =
    rw
      (
        is_subscribed-if c (h == i)
            (record (hub.clients h) { subs = Table.remove (hub.clients h).subs channel })
            (hub.clients i),
        is_subscribed-remove channel c (hub.clients h),
      )
      (ground (arith, λ (e : h ≡ i). ap (λ j. is_subscribed c (hub.clients j)) e))

subscribers-unsubscribe :
    (h i : ℕ) (channel c : Bytes) (hub : Hub)
    → count i (subscribers c (unsubscribe h channel hub).1)
      ≡ (if str_eq channel c && (h == i) then 0 else count i (subscribers c hub))
unfolding unsubscribe set_client
subscribers-unsubscribe h i channel c hub = get_or-leave h i channel c hub.channels

pub unsubscribe-IsLinked :
    (h : ℕ) (channel : Bytes) (hub : Hub) → IsLinked hub → IsLinked (unsubscribe h channel hub).1
unsubscribe-IsLinked h channel hub l i c =
    rw (subscribers-unsubscribe h i channel c hub, subscribed-unsubscribe h i channel c hub, l i c)
      (ground arith)

-- a client that is offered the text `n` times
abbrev offers : ℕ → Bytes → Client → Client
offers zero text c = c
offers (suc n) text c = offers n text (offer text c)

offers-if :
    (b : Bool) (n : ℕ) (text : Bytes) (c : Client)
    → offers ((if b then 1 else 0) + n) text c ≡ offers n text (if b then offer text c else c)
offers-if true n text c = let e : 1 + n ≡ suc n = omega arith in ap (λ k. offers k text c) e
offers-if false n text c = let e : 0 + n ≡ n = omega arith in ap (λ k. offers k text c) e

offers_once :
    (b : Bool) (text : Bytes) (c : Client)
    → offers (if b then 1 else 0) text c ≡ (if b then offer text c else c)
offers_once true text c = refl
offers_once false text c = refl

offer_one :
    (text : Bytes) (h i : ℕ) (hub : Hub)
    → (set_client h (offer text (hub.clients h)) hub).clients i
      ≡ (if h == i then offer text (hub.clients i) else hub.clients i)
unfolding set_client
offer_one text h i hub = ground (arith, λ (e : h ≡ i). ap (λ j. offer text (hub.clients j)) e)

send_to-clients :
    (text : Bytes) (hs : List ℕ) (hub : Hub) (i : ℕ)
    → (send_to text hs hub).1.clients i ≡ offers (count i hs) text (hub.clients i)
unfolding send_to
send_to-clients text [] hub i = refl
send_to-clients text (h ∷ hs) hub i =
    send_to-clients text hs (set_client h (offer text (hub.clients h)) hub) i
    ∙ (ap (offers (count i hs) text) (offer_one text h i hub)
        ∙ sym (offers-if (h == i) (count i hs) text (hub.clients i)))

send_to-channels :
    (text : Bytes) (hs : List ℕ) (hub : Hub) → (send_to text hs hub).1.channels ≡ hub.channels
unfolding send_to set_client
send_to-channels text [] hub = refl
send_to-channels text (h ∷ hs) hub =
    send_to-channels text hs (set_client h (offer text (hub.clients h)) hub)

publish-send_to :
    (channel message : Bytes) (hub : Hub)
    → publish channel message hub
      ≡ send_to (message_text channel message) (subscribers channel hub) hub
unfolding publish Table.get_or send_to
publish-send_to channel message hub = ground arith

is_subscribed-offers :
    (n : ℕ) (text c : Bytes) (cl : Client) → is_subscribed c (offers n text cl) ≡ is_subscribed c cl
unfolding offer
is_subscribed-offers zero text c cl = refl
is_subscribed-offers (suc n) text c cl =
    is_subscribed-offers n text c (offer text cl)
    ∙ is_subscribed-if c (ltb (length cl.send_chan) chan_size)
        (record cl { send_chan = cl.send_chan ++ text ∷ [] }) cl
    ∙ ground arith

pub publish-IsLinked :
    (channel message : Bytes) (hub : Hub) → IsLinked hub → IsLinked (publish channel message hub).1
publish-IsLinked channel message hub l h c =
    let text = message_text channel message in
    let hs = subscribers channel hub in
    rw
      (
        publish-send_to channel message hub,
        send_to-channels text hs hub,
        send_to-clients text hs hub h,
        is_subscribed-offers (count h hs) text c (hub.clients h),
      )
      (l h c)

pub publish_delivers :
    (channel message : Bytes) (hub : Hub) (h : ℕ)
    → IsLinked hub
    → (publish channel message hub).1.clients h ≡ (
        if is_subscribed channel (hub.clients h)
        then offer (message_text channel message) (hub.clients h)
        else hub.clients h)
publish_delivers channel message hub h l =
    rw
      (
        publish-send_to channel message hub,
        send_to-clients (message_text channel message) (subscribers channel hub) hub h,
        l h channel,
      )
      (offers_once (is_subscribed channel (hub.clients h)) (message_text channel message)
        (hub.clients h))
