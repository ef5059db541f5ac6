-- ===== src/Store/WaitEnd.antt =====
-- The end of a wait in `BLPop`: by a value, or by the time that is up.
use redis_in_go.Prelude.{
  ℕ, ◌≡◌, false, List, [], ◌∷◌, ◌⊎◌, inl, inr, arith, if◌then◌else◌, Bool-cases, ◌==◌,
}
use redis_in_go.Text.{Bytes, str_eq}
use redis_in_go.Store.State.{Store}
use redis_in_go.Store.Channels.{waiters, receive, without_first, set_queue, remove_waiter}
use redis_in_go.Store.Lists.{blpop_timeout}
use redis_in_go.Store.PushLaws.{waiters-set_queue, chans-set_queue, next_chan-set_queue}
use redis_in_go.Store.WaitLaws.{In, Distinct, IsValid, same_queue}

set_queue-IsValid :
    (key : Bytes) (q : List ℕ) (s : Store)
    → IsValid s
    → ((c : ℕ) → In c q → In c (waiters key s))
    → Distinct q
    → IsValid (set_queue key q s)
set_queue-IsValid key q s valid sub d =
    let queue_of = λ (k : Bytes) (c : ℕ) (i : In c (waiters k (set_queue key q s))).
      inside k c (rw waiters-set_queue at i) in
    record {
      made = λ k c i. rw next_chan-set_queue (valid.made k c (queue_of k c i));
      clear = λ k c i. rw chans-set_queue (valid.clear k c (queue_of k c i));
      distinct = λ k.
          rw waiters-set_queue
            (elim (Bool-cases (str_eq key k)) [ inl t ↦ rw t d | inr f ↦ rw f (valid.distinct k) ]);
      apart = λ j k c f i i'. valid.apart j k c f (queue_of j c i) (queue_of k c i');
    }
  where
    inside :
        (k : Bytes) (c : ℕ) → In c (if str_eq key k then q else waiters k s) → In c (waiters k s)
    inside k c i = elim (Bool-cases (str_eq key k)) [
      | inl t ↦ rw (same_queue key k s t) (sub c (rw t at i))
      | inr f ↦ rw f at i
    ]

In-without_first : (ch c : ℕ) (q : List ℕ) → In c (without_first ch q) → In c q
unfolding without_first
In-without_first ch c [] i = i
In-without_first ch c (d ∷ q) i = elim (Bool-cases (d == ch)) [
  | inl t ↦ inr (rw t at i)
  | inr f ↦ (elim (rw f at i) [ inl e ↦ inl e | inr j ↦ inr (In-without_first ch c q j) ])
]

Distinct-without_first : (ch : ℕ) (q : List ℕ) → Distinct q → Distinct (without_first ch q)
unfolding without_first
Distinct-without_first ch [] d = tt
Distinct-without_first ch (c ∷ q) (n, d) = elim (Bool-cases (c == ch)) [
  | inl t ↦ rw t d
  | inr f ↦ rw f ((λ i. n (In-without_first ch c q i)), Distinct-without_first ch q d)
]

removed : (ch : ℕ) (q : List ℕ) → Distinct q → ¬ In ch (without_first ch q)
unfolding without_first
removed ch [] d i = i
removed ch (c ∷ q) (n, d) i = elim (Bool-cases (c == ch)) [
  | inl t ↦ (let e : c ≡ ch = ground arith in n (rw e (rw t at i)))
  | inr f ↦
      (let i' : (ch ≡ c) ⊎ In ch (without_first ch q) = rw f at i in
        elim i' [ inl e ↦ ground arith | inr j ↦ removed ch q d j ])
]

pub receive-IsValid : (ch : ℕ) (s : Store) → IsValid s → IsValid (receive ch s).1
unfolding receive
receive-IsValid ch s valid = record {
  made = valid.made;
  clear = λ k c i. ground (arith, valid.clear k c i);
  distinct = valid.distinct;
  apart = valid.apart;
}

remove_waiter-IsValid :
    (key : Bytes) (ch : ℕ) (s : Store) → IsValid s → IsValid (remove_waiter key ch s)
unfolding remove_waiter
remove_waiter-IsValid key ch s valid =
    set_queue-IsValid key (without_first ch (waiters key s)) s valid
      (λ c. In-without_first ch c (waiters key s))
      (Distinct-without_first ch (waiters key s) (valid.distinct key))

pub blpop_timeout-IsValid :
    (key : Bytes) (ch : ℕ) (s : Store) → IsValid s → IsValid (blpop_timeout key ch s).1
unfolding blpop_timeout
blpop_timeout-IsValid key ch s valid = receive-IsValid ch _ (remove_waiter-IsValid key ch s valid)

-- A `BLPop` on channel `ch` whose time is up returns what a push has put into the channel in the
-- meantime, so that no value is lost; and no queue holds the channel afterwards, so that no later
-- push can send to a client that has gone. The client waits under one key.
pub blpop_timeout_lem :
    (key : Bytes) (ch : ℕ) (s : Store)
    → IsValid s
    → ((k : Bytes) → str_eq key k ≡ false → ¬ In ch (waiters k s))
    → ((blpop_timeout key ch s).0 ≡ s.chans ch)
      × ((k : Bytes) → ¬ In ch (waiters k (blpop_timeout key ch s).1))
unfolding blpop_timeout receive remove_waiter
blpop_timeout_lem key ch s valid only = (rw chans-set_queue, gone)
  where
    gone : (k : Bytes) → ¬ In ch (waiters k (remove_waiter key ch s))
    gone k i = elim (Bool-cases (str_eq key k)) [
      | inl t ↦
          removed ch (waiters key s) (valid.distinct key) (rw t at (rw waiters-set_queue at i))
      | inr f ↦ only k f (rw f at (rw waiters-set_queue at i))
    ]
