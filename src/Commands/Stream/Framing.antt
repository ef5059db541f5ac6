-- ===== src/Commands/Stream/Framing.antt =====
-- The rounds of `HandleIncomingStream` on the text of whole requests.
use redis_in_go.Prelude.{
  ℕ, suc, ◌+◌, ◌≤◌, ◌<◌, ◌^◌, ◌≡◌, refl, ◌∙◌, List, [], ◌∷◌, ◌++◌, map, Outcome, done, ◌>>=◌,
  length, drop, arith,
}
use redis_in_go.Prelude.{Bool, done_injective, >>=-eq-done}
use redis_in_go.Prelude.Int.{ℤ}
use redis_in_go.Text.{Bytes, All}
use redis_in_go.Resp
use redis_in_go.Resp.{max_cap, format_propagated_command, array_header}
use redis_in_go.Resp.RoundTrip.{parse_command-format, drop-append}
use redis_in_go.Commands.Session.{Session, handle_commands}
use redis_in_go.Commands.ExecLaws.{handle_all}
use redis_in_go.Commands.Stream.{Incoming, track_offset, handle_incoming}

-- a command with its arguments
abbrev pub Request : Type 0
Request = Bytes × List Bytes

abbrev pub words : Request → List Bytes
words (cmd, args) = cmd ∷ args

abbrev pub request_text : Request → Bytes
request_text (cmd, args) = format_propagated_command cmd args

abbrev pub FitsRequest : Request → Type 0
FitsRequest q = (length q.1 + 1 ≤ max_cap) × (length (request_text q) < 2 ^ 63)

abbrev pub batch_text : List Request → Bytes
batch_text [] = []
batch_text (q ∷ qs) = request_text q ++ batch_text qs

-- the offset after some requests
abbrev pub track_all : Bool → List Request → ℤ → ℤ
track_all is_slave [] offset = offset
track_all is_slave (q ∷ qs) offset =
    track_all is_slave qs (track_offset is_slave (length (request_text q)) offset)

empty_refused : {r : List Bytes × ℕ} → ¬ (Resp.parse_command [] ≡ Resp.ok r)
unfolding Resp.parse_command
empty_refused h = cc

parse_request :
    (q : Request) (rest : Bytes)
    → FitsRequest q
    → Resp.parse_command (request_text q ++ rest) ≡ Resp.ok (words q, length (request_text q))
parse_request (cmd, args) rest h = parse_command-format cmd args rest h.0 h.1

module _ (others : Bytes → List Bytes → Session → Outcome Session) where
  pub parsed_round :
      (fuel : ℕ) (buf : Bytes) (c : Incoming) {request : List Bytes} {n : ℕ}
      → Resp.parse_command buf ≡ Resp.ok (request, n)
      → handle_incoming others (suc fuel) (record c { buf = buf }) ≡ (
          handle_commands others request c.session >>= λ s. handle_incoming others fuel (record c {
            session = s;
            buf = drop n buf;
            master_repl_offset = track_offset c.is_slave n c.master_repl_offset;
          }))
  unfolding handle_incoming
  parsed_round fuel [] c h = absurd (empty_refused h)
  parsed_round fuel (b ∷ buf) c h = rw (h, handle_incoming) refl

  chunk_read :
      (fuel : ℕ) (buf : Bytes) (chunks : List Bytes) (c : Incoming) {r : List Bytes × ℕ}
      → Resp.parse_command buf ≡ Resp.ok r
      → handle_incoming others (suc fuel) (record c { chunks = buf ∷ chunks; buf = [] })
        ≡ handle_incoming others (suc fuel) (record c { chunks = chunks; buf = buf })
  unfolding handle_incoming
  chunk_read fuel [] chunks c h = absurd (empty_refused h)
  chunk_read fuel (b ∷ buf) chunks c h = refl

  request_round :
      (fuel : ℕ) (q : Request) (rest : Bytes) (c : Incoming)
      → FitsRequest q
      → handle_incoming others (suc fuel) (record c { buf = request_text q ++ rest }) ≡ (
          handle_commands others (words q) c.session >>= λ s.
          handle_incoming others fuel (record c {
            session = s;
            buf = rest;
            master_repl_offset =
                track_offset c.is_slave (length (request_text q)) c.master_repl_offset;
          }))
  request_round fuel q rest c h =
      rw
        (
          parsed_round fuel (request_text q ++ rest) c (parse_request q rest h),
          drop-append (request_text q) rest,
        )
        refl

  -- the requests in the buffer, on top of `fuel` rounds
  batch_rounds :
      (fuel : ℕ) (qs : List Request) (c : Incoming) (s : Session)
      → All FitsRequest qs
      → handle_all others (map words qs) c.session ≡ done s
      → handle_incoming others (length qs + fuel) (record c { buf = batch_text qs })
        ≡ handle_incoming others fuel (record c {
          session = s;
          buf = [];
          master_repl_offset = track_all c.is_slave qs c.master_repl_offset;
        })
  unfolding handle_all
  batch_rounds fuel [] c s h e =
      let n : 0 + fuel ≡ fuel = omega arith in rw (n, done_injective e) refl
  batch_rounds fuel (q ∷ qs) c s h e =
      let n : suc (length qs) + fuel ≡ suc (length qs + fuel) = omega arith in
      let (s', e', es) =
        >>=-eq-done (handle_commands others (words q) c.session) (handle_all others (map words qs))
          e in
      rw (n, request_round (length qs + fuel) q (batch_text qs) c h.0, e')
        (batch_rounds fuel qs
          (record c {
            session = s';
            buf = [];
            master_repl_offset =
                track_offset c.is_slave (length (request_text q)) c.master_repl_offset;
          })
          s h.1 es)

  -- a batch that is read when the buffer is empty
  pub batch_read :
      (fuel : ℕ) (q : Request) (qs : List Request) (chunks : List Bytes) (c : Incoming)
      (s : Session)
      → All FitsRequest (q ∷ qs)
      → handle_all others (map words (q ∷ qs)) c.session ≡ done s
      → handle_incoming others
          (length (q ∷ qs) + fuel)
          (record c { chunks = batch_text (q ∷ qs) ∷ chunks; buf = [] })
        ≡ handle_incoming others fuel (record c {
          session = s;
          chunks = chunks;
          buf = [];
          master_repl_offset = track_all c.is_slave (q ∷ qs) c.master_repl_offset;
        })
  batch_read fuel q qs chunks c s h e =
      let n : suc (length qs) + fuel ≡ suc (length qs + fuel) = omega arith in
      let at_once = batch_rounds fuel (q ∷ qs) (record c { chunks = chunks }) s h e in
      rw n (
        chunk_read (length qs + fuel) (batch_text (q ∷ qs)) chunks c
          (parse_request q (batch_text qs) h.0)
        ∙ rw n at at_once)
