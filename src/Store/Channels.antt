-- ===== src/Store/Channels.antt =====
-- The channels of internal/store/store.go, each made by `make(chan string, 1)`, and the queues of
-- waiting clients under `blockingClients`.
use redis_in_go.Prelude.{
  ℕ, ◌+◌, List, [], ◌∷◌, ◌++◌, Option, none, some, Outcome, done, blocked, ◌==◌, if◌then◌else◌,
}
use redis_in_go.Text.{Bytes}
use redis_in_go.Table
use redis_in_go.Table.{Table}
use redis_in_go.Store.State.{Store}

abbrev pub update : (ℕ → Option Bytes) → ℕ → Option Bytes → ℕ → Option Bytes
update chans ch buffer c = if c == ch then buffer else chans c

-- the queue s.blockingClients[key]
abbrev pub waiters : Bytes → Store → List ℕ
waiters key s = Table.get_or s.blocking_clients key []

-- ch <- val: a full buffer blocks the sender, which holds the mutex
unfoldable pub send : ℕ → Bytes → Store → Outcome Store
send ch val s = elim (s.chans ch) [
  | none ↦ done (record s { chans = update s.chans ch (some val) })
  | some _ ↦ blocked
]

-- select { case ch <- val: default: }
unfoldable pub try_send : ℕ → Bytes → Store → Store
try_send ch val s = elim (s.chans ch) [
  | none ↦ record s { chans = update s.chans ch (some val) }
  | some _ ↦ s
]

-- select { case val := <-ch: default: }
unfoldable pub receive : ℕ → Store → Option Bytes × Store
receive ch s = (s.chans ch, record s { chans = update s.chans ch none })

-- ch := make(chan string, 1); s.blockingClients[key] = append(s.blockingClients[key], ch)
unfoldable pub enqueue : ℕ → Bytes → Store → Store
enqueue ch key s = record s {
  blocking_clients = Table.put s.blocking_clients key (waiters key s ++ ch ∷ []);
}

unfoldable pub make_chan : Store → ℕ × Store
make_chan s =
    (s.next_chan, record s { chans = update s.chans s.next_chan none; next_chan = s.next_chan + 1 })

-- `append(waiters[:i], waiters[i+1:]...)` at the first `i` with `waiters[i] == ch`
unfoldable pub without_first : ℕ → List ℕ → List ℕ
without_first ch [] = []
without_first ch (c ∷ cs) = if c == ch then cs else c ∷ without_first ch cs

-- an empty queue is deleted
unfoldable pub set_queue : Bytes → List ℕ → Store → Store
set_queue key [] s = record s { blocking_clients = Table.remove s.blocking_clients key }
set_queue key (c ∷ cs) s = record s { blocking_clients = Table.put s.blocking_clients key (c ∷ cs) }

unfoldable pub remove_waiter : Bytes → ℕ → Store → Store
unfolding without_first set_queue
remove_waiter key ch s = set_queue key (without_first ch (waiters key s)) s
