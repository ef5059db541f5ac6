-- ===== src/Examples/Users.antt =====
-- Passwords of internal/auth/auth.go, with a function in place of SHA-256.
use redis_in_go.Prelude.{◌≡◌, map, [], ◌∷◌, ◌%◌, arith}
use redis_in_go.Text.{Bytes, codes}
use redis_in_go.Auth.{authorize, new_user, authenticate_connection}
use redis_in_go.Auth.Laws.{IsBytes, contains, is_empty, add_passwords, passwords_decide}

-- each byte of the text modulo 256
abbrev low_bytes : Bytes → Bytes
low_bytes s = map (λ c. c % 256) s

low_bytes-IsBytes : (s : Bytes) → IsBytes (low_bytes s)
low_bytes-IsBytes [] = tt
low_bytes-IsBytes (c ∷ s) = (omega arith, low_bytes-IsBytes s)

passwords_decide_example :
    (authorize low_bytes (codes "b") (add_passwords low_bytes (codes "a" ∷ codes "b" ∷ []) new_user)
      ≡ contains (codes "b") (codes "a" ∷ codes "b" ∷ []))
    × (authenticate_connection
          ((codes "default", add_passwords low_bytes (codes "a" ∷ codes "b" ∷ []) new_user) ∷ [])
        ≡ is_empty (codes "a" ∷ codes "b" ∷ []))
passwords_decide_example =
    passwords_decide low_bytes (codes "b") (codes "a" ∷ codes "b" ∷ []) low_bytes-IsBytes
      (λ e. e, (λ e. e, tt))
