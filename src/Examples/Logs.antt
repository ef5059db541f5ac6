-- ===== src/Examples/Logs.antt =====
-- Concrete inputs for internal/aof/aof.go: paths are joined by a slash.
use redis_in_go.Prelude.{◌≡◌, refl, ◌++◌, false, List, [], ◌∷◌, some, append_assoc}
use redis_in_go.Text.{Bytes, codes, str_eq}
use redis_in_go.Text.Scan.{is_space}
use redis_in_go.Table.{Table, empty, get}
use redis_in_go.Aof.{Disk, active_file}
use redis_in_go.Aof.Restart.{started, with_log, restart_keeps_log}

-- every path on a line of its own in front of a slash
joined : List Bytes → Bytes
joined [] = []
joined (path ∷ []) = path
joined (path ∷ paths) = path ++ 47 ∷ joined paths

joined_twice : (a b c : Bytes) → joined (joined (a ∷ b ∷ []) ∷ c ∷ []) ≡ joined (a ∷ b ∷ c ∷ [])
unfolding joined
joined_twice a b c = append_assoc a (47 ∷ b) (47 ∷ c)

abbrev empty_disk : Disk
empty_disk = record { files = empty; fails = λ _ _. false }

abbrev one_command : Bytes
one_command = codes "*1"

abbrev start : Disk → Table Bytes × Disk
start = started joined (codes "work") (codes "dir") (codes "aof") (codes "always")

-- the disk once the server has been started and has logged the command
abbrev logged : Disk
logged =
    with_log joined (codes "work") (codes "dir") (codes "aof") (codes "always") one_command
      (start empty_disk).1

restart_keeps_log_example :
    ((start logged).1 ≡ logged)
    × (active_file joined (codes "work") (start empty_disk).0 logged
        ≡ some (codes "work/dir/aof.1.incr.aof", logged))
unfolding joined str_eq is_space get
restart_keeps_log_example =
    restart_keeps_log joined (codes "work") (codes "dir") (codes "aof") (codes "always")
      joined_twice empty_disk one_command (λ _ _. refl) (refl, (refl, (refl, tt))) refl refl
