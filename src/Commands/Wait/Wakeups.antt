-- ===== src/Commands/Wait/Wakeups.antt =====
-- One client in the loop of WAIT, while replicas acknowledge offsets. An acknowledgement has two
-- steps, since the signal follows the release of the mutex.
use redis_in_go.Prelude.{ℕ, suc, ◌≡◌, Option, none, some}
use redis_in_go.Prelude.Int.{ℤ}
use redis_in_go.Text.{Bytes}
use redis_in_go.Commands.Wait.{MasterNode, set_offset, signal_ack, wait_round, wait_timeout}

pub data Phase : Type 0 where
  testing selecting : Phase
  answered : ℤ → Phase

-- `unsent` is the number of acknowledgements that have not sent their signal yet.
pub record Loop : Type 0 where
  pub master : MasterNode
  pub phase : Phase
  pub unsent : ℕ

unfoldable pub after_test : Option ℤ → Phase
after_test none = selecting
after_test (some n) = answered n

pub data Step (target number : ℤ) : Loop → Loop → Type 0 where
  stores :
      (id : Bytes) (offset : ℤ) (l : Loop)
      → Step target number l
          (record l { master = set_offset id offset l.master; unsent = suc l.unsent })
  signals :
      (l : Loop) (k : ℕ)
      → l.unsent ≡ suc k
      → Step target number l (record l { master = signal_ack l.master; unsent = k })
  tests :
      (l : Loop)
      → l.phase ≡ testing
      → Step target number l (record l { phase = after_test (wait_round target number l.master) })
  receives :
      (l : Loop) (k : ℕ)
      → l.phase ≡ selecting
      → l.master.ack_chan ≡ suc k
      → Step target number l
          (record l { master = record l.master { ack_chan = k }; phase = testing })
  times_out :
      (l : Loop)
      → l.phase ≡ selecting
      → Step target number l (record l { phase = answered (wait_timeout target l.master) })

pub data Reachable (target number : ℤ) : Loop → Type 0 where
  enters :
      (m : MasterNode) (k : ℕ)
      → Reachable target number (record { master = m; phase = testing; unsent = k })
  then_step :
      {l l' : Loop}
      → Reachable target number l
      → Step target number l l'
      → Reachable target number l'

-- A signal is on its way, or the test fails.
abbrev Awake : ℤ → ℤ → Loop → Type 0
Awake target number l =
    l.phase ≡ selecting
    → l.unsent ≡ 0
    → l.master.ack_chan ≡ 0
    → wait_round target number l.master ≡ none
