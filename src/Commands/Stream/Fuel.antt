-- ===== src/Commands/Stream/Fuel.antt =====
-- The fuel of the loop of `HandleIncomingStream`, and a connection that never gets an answer.
use redis_in_go.Prelude.{
  Bool, ℕ, zero, suc, ◌+◌, ◌≤◌, ◌<◌, ◌≡◌, refl, ◌≢◌, false, true, if◌then◌else◌, List, [], ◌∷◌,
  ◌++◌, append_assoc, append-nil, Outcome, done, >>=-cong, length, length-append, length-drop, drop,
  arith,
}
use redis_in_go.Text.{Bytes}
use redis_in_go.Resp
use redis_in_go.Resp.{not_array}
use redis_in_go.Resp.Bounds.{parse_command_progress}
use redis_in_go.Commands.Session.{Session, handle_commands}
use redis_in_go.Commands.World.{concat}
use redis_in_go.Commands.Stream.{
  read_failed, Incoming, Continue, read_more, wants_more, handle_parsed, handle_incoming,
}

-- the bytes that are to come, and a unit for each read
abbrev pub incoming_size : List Bytes → ℕ
incoming_size [] = 0
incoming_size (chunk ∷ chunks) = suc (length chunk + incoming_size chunks)

abbrev pub work : Incoming → ℕ
work c = length c.buf + incoming_size c.chunks

-- Two loops that agree on all states with less work.
abbrev Agree : Incoming → Continue → Continue → Type 0
Agree c next after = (c' : Incoming) → work c' < work c → next c' ≡ after c'

read_more-cong :
    (next after : Continue) (chunks : List Bytes) (c : Incoming)
    → Agree (record c { chunks = chunks }) next after
    → read_more next (record c { chunks = chunks }) ≡ read_more after (record c { chunks = chunks })
unfolding read_more
read_more-cong next after [] c h = refl
read_more-cong next after (chunk ∷ chunks) c h =
    h (record c { chunks = chunks; buf = c.buf ++ chunk })
      (omega (arith, length-append c.buf chunk))

if-cong {ℓ} :
    {A : Type ℓ} (b : Bool) (x x' y : A) → x ≡ x' → (if b then x else y) ≡ (if b then x' else y)
if-cong true x x' y h = h
if-cong false x x' y h = refl

shorter :
    (c : Incoming) (n : ℕ)
    → (0 < n) × (n ≤ length c.buf)
    → length (drop n c.buf) + incoming_size c.chunks < work c
shorter c n h = omega (arith, length-drop n c.buf, h.0, h.1)

module _ (others : Bytes → List Bytes → Session → Outcome Session) where
  handle_parsed-cong :
      (next after : Continue) (r : Resp.Parsed (List Bytes × ℕ)) (c : Incoming)
      → Resp.parse_command c.buf ≡ r
      → Agree c next after
      → handle_parsed others next r c ≡ handle_parsed others after r c
  unfolding handle_parsed
  handle_parsed-cong next after (Resp.err e) c p h =
      if-cong (wants_more e) _ _ _ (read_more-cong next after c.chunks c h)
  handle_parsed-cong next after Resp.panic c p h = refl
  handle_parsed-cong next after (Resp.ok (cmds, n)) c p h =
      >>=-cong (handle_commands others cmds c.session)
        (λ s. h _ (shorter c n (parse_command_progress c.buf p)))

  -- One round from a state given by its buffer and its chunks.
  round-cong :
      (fuel more : ℕ) (buf : Bytes) (chunks : List Bytes) (c : Incoming)
      → Agree
          (record c { chunks = chunks; buf = buf })
          (handle_incoming others fuel)
          (handle_incoming others more)
      → handle_incoming others (suc fuel) (record c { chunks = chunks; buf = buf })
        ≡ handle_incoming others (suc more) (record c { chunks = chunks; buf = buf })
  unfolding handle_incoming
  round-cong fuel more [] [] c h = refl
  round-cong fuel more [] (chunk ∷ chunks) c h =
      handle_parsed-cong (handle_incoming others fuel) (handle_incoming others more)
        (Resp.parse_command chunk) (record c { chunks = chunks; buf = chunk }) refl
        (λ c' less. h c' (omega (arith, less)))
  round-cong fuel more (b ∷ buf) chunks c h =
      handle_parsed-cong (handle_incoming others fuel) (handle_incoming others more)
        (Resp.parse_command (b ∷ buf)) (record c { chunks = chunks; buf = b ∷ buf }) refl h

  -- The loop runs the same with any two fuels that are larger than the number of bytes in the buffer
  -- and in the chunks to come, with one more for each chunk.
  pub handle_incoming_enough :
      (fuel more : ℕ) (c : Incoming)
      → work c < fuel
      → work c < more
      → handle_incoming others fuel c ≡ handle_incoming others more c
  handle_incoming_enough zero more c h k = absurd (omega (arith, h))
  handle_incoming_enough (suc fuel) zero c h k = absurd (omega (arith, k))
  handle_incoming_enough (suc fuel) (suc more) c h k =
      round-cong fuel more c.buf c.chunks c (λ c' less.
        handle_incoming_enough fuel more c' (omega (arith, less, h)) (omega (arith, less, k)))

not_an_array : (b : ℕ) (buf : Bytes) → b ≢ b'*' → Resp.parse_command (b ∷ buf) ≡ Resp.err not_array
unfolding Resp.parse_command
not_an_array b buf h = ground (arith, h)

module _ (others : Bytes → List Bytes → Session → Outcome Session) where
  -- Once the buffer begins with another byte than an asterisk, no data that comes brings an answer: the
  -- loop reads until the reader fails, and runs no command.
  pub stuck_on_inline :
      (fuel b : ℕ) (buf : Bytes) (chunks : List Bytes) (c : Incoming)
      → b ≢ b'*'
      → length chunks < fuel
      → handle_incoming others fuel (record c { chunks = chunks; buf = b ∷ buf })
        ≡ done (read_failed, record c { chunks = []; buf = (b ∷ buf) ++ concat chunks })
  unfolding handle_incoming handle_parsed wants_more read_more concat
  stuck_on_inline zero b buf chunks c h enough = absurd (omega (arith, enough))
  stuck_on_inline (suc fuel) b buf [] c h enough = rw (not_an_array b buf h, append-nil buf) refl
  stuck_on_inline (suc fuel) b buf (chunk ∷ chunks) c h enough = rw (not_an_array b buf h) (
      rw (← append_assoc buf chunk (concat chunks))
        (stuck_on_inline fuel b (buf ++ chunk) chunks c h (omega (arith, enough))))
