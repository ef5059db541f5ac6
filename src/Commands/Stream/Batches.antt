-- ===== src/Commands/Stream/Batches.antt =====
-- Requests that arrive in whole, several to a read, at `HandleIncomingStream`.
use redis_in_go.Prelude.{
  ◌-◌, ℕ, suc, ◌+◌, ◌<◌, ◌≡◌, refl, sym, ap, ◌∙◌, List, [], ◌∷◌, ◌++◌, map, Outcome, done, length,
  length-append, arith,
}
use redis_in_go.Prelude.{Bool, true, false, if◌then◌else◌, done_injective, >>=-eq-done}
use redis_in_go.Prelude.Int.{ℤ, pos, negsuc, ◌+ℤ◌, IsInt64, wrap_int, wrap_int-id, wrap_int-IsInt64}
use redis_in_go.Prelude.Wrap.{wrap_int-add_twice}
use redis_in_go.Text.{Bytes, All}
use redis_in_go.Commands.Session.{Session}
use redis_in_go.Commands.ExecLaws.{handle_all}
use redis_in_go.Commands.Transactions.{handle_all-append}
use redis_in_go.Commands.Stream.{read_failed, Incoming, track_offset, handle_incoming}
use redis_in_go.Commands.Stream.Framing.{
  Request, words, request_text, FitsRequest, batch_text, track_all, batch_read,
}

-- A read that brings one request or more.
abbrev pub Batch : Type 0
Batch = Request × List Request

abbrev pub members : Batch → List Request
members (q, qs) = q ∷ qs

abbrev pub all_requests : List Batch → List Request
all_requests [] = []
all_requests (b ∷ bs) = members b ++ all_requests bs

abbrev pub batch_chunks : List Batch → List Bytes
batch_chunks [] = []
batch_chunks (b ∷ bs) = batch_text (members b) ∷ batch_chunks bs

track_all-append :
    (is_slave : Bool) (qs rs : List Request) (offset : ℤ)
    → track_all is_slave (qs ++ rs) offset ≡ track_all is_slave rs (track_all is_slave qs offset)
track_all-append is_slave [] rs offset = refl
track_all-append is_slave (q ∷ qs) rs offset =
    track_all-append is_slave qs rs (track_offset is_slave (length (request_text q)) offset)

-- the bytes of some reads
abbrev pub arrived : List Bytes → ℕ
arrived [] = 0
arrived (chunk ∷ chunks) = length chunk + arrived chunks

batch_text-append :
    (qs rs : List Request)
    → length (batch_text (qs ++ rs)) ≡ length (batch_text qs) + length (batch_text rs)
batch_text-append [] rs = omega arith
batch_text-append (q ∷ qs) rs = omega (
  arith,
  length-append (request_text q) (batch_text (qs ++ rs)),
  length-append (request_text q) (batch_text qs),
  batch_text-append qs rs,
)

arrived-batch_chunks :
    (bs : List Batch) → arrived (batch_chunks bs) ≡ length (batch_text (all_requests bs))
arrived-batch_chunks [] = refl
arrived-batch_chunks (b ∷ bs) =
    omega (arith, batch_text-append (members b) (all_requests bs), arrived-batch_chunks bs)

track_all-master : (qs : List Request) (offset : ℤ) → track_all false qs offset ≡ offset
unfolding track_offset
track_all-master [] offset = refl
track_all-master (q ∷ qs) offset = track_all-master qs offset

add_nothing : (offset : ℤ) → offset +ℤ pos 0 ≡ offset
unfolding ◌+ℤ◌
add_nothing (pos n) = ground arith
add_nothing (negsuc n) = ground arith

track_all-slave :
    (qs : List Request) (offset : ℤ)
    → IsInt64 offset
    → track_all true qs offset ≡ wrap_int (offset +ℤ pos (length (batch_text qs)))
unfolding track_offset
track_all-slave [] offset h = rw (add_nothing offset, wrap_int-id offset h)
track_all-slave (q ∷ qs) offset h =
    let one = length (request_text q) in
    track_all-slave qs (wrap_int (offset +ℤ pos one)) (wrap_int-IsInt64 (offset +ℤ pos one))
    ∙ wrap_int-add_twice offset one (length (batch_text qs))
    ∙ rw (length-append (request_text q) (batch_text qs))

-- the offset once so many bytes have been handled
abbrev pub counted : Bool → ℕ → ℤ → ℤ
counted is_slave bytes offset = if is_slave then wrap_int (offset +ℤ pos bytes) else offset

track_all-counted :
    (is_slave : Bool) (bs : List Batch) (offset : ℤ)
    → IsInt64 offset
    → track_all is_slave (all_requests bs) offset
      ≡ counted is_slave (arrived (batch_chunks bs)) offset
track_all-counted true bs offset h =
    track_all-slave (all_requests bs) offset h ∙ rw (arrived-batch_chunks bs)
track_all-counted false bs offset h = track_all-master (all_requests bs) offset

words-append : (qs rs : List Request) → map words (qs ++ rs) ≡ map words qs ++ map words rs
words-append [] rs = refl
words-append (q ∷ qs) rs = ap (λ t. words q ∷ t) (words-append qs rs)

All-parts :
    (qs rs : List Request) → All FitsRequest (qs ++ rs) → All FitsRequest qs × All FitsRequest rs
All-parts [] rs h = (tt, h)
All-parts (q ∷ qs) rs h = let (a, b) = All-parts qs rs h.1 in ((h.0, a), b)

module _ (others : Bytes → List Bytes → Session → Outcome Session) where
  no_more :
      (fuel : ℕ) (c : Incoming)
      → handle_incoming others (suc fuel) (record c { chunks = []; buf = [] })
        ≡ done (read_failed, record c { chunks = []; buf = [] })
  unfolding handle_incoming
  no_more fuel c = refl

  batches_rounds :
      (fuel : ℕ) (bs : List Batch) (c : Incoming) (s : Session)
      → All FitsRequest (all_requests bs)
      → handle_all others (map words (all_requests bs)) c.session ≡ done s
      → handle_incoming others
          (length (all_requests bs) + suc fuel)
          (record c { chunks = batch_chunks bs; buf = [] })
        ≡ done (
          read_failed,
          record c {
            session = s;
            chunks = [];
            buf = [];
            master_repl_offset = track_all c.is_slave (all_requests bs) c.master_repl_offset;
          },
        )
  unfolding handle_all
  batches_rounds fuel [] c s h e =
      let n : 0 + suc fuel ≡ suc fuel = omega arith in
      rw (n, sym (done_injective e)) (no_more fuel c)
  batches_rounds fuel ((q, qs) ∷ bs) c s h e =
      let rest = all_requests bs in
      let n : length ((q ∷ qs) ++ rest) + suc fuel ≡ length (q ∷ qs) + (length rest + suc fuel) =
        omega (arith, length-append (q ∷ qs) rest) in
      let (h1, h2) = All-parts (q ∷ qs) rest h in
      let split =
        sym (handle_all-append others (map words (q ∷ qs)) (map words rest) c.session)
        ∙ (ap (λ t. handle_all others t c.session) (sym (words-append (q ∷ qs) rest)) ∙ e) in
      let (s', e', es) =
        >>=-eq-done (handle_all others (map words (q ∷ qs)) c.session)
          (handle_all others (map words rest)) split in
      rw
        (
          n,
          batch_read others (length rest + suc fuel) q qs (batch_chunks bs) c s' h1 e',
          track_all-append c.is_slave (q ∷ qs) rest c.master_repl_offset,
        )
        (batches_rounds fuel bs
          (record c {
            session = s';
            master_repl_offset = track_all c.is_slave (q ∷ qs) c.master_repl_offset;
          })
          s h2 es)

  -- Requests that are written like propagated commands, each of at most 2^44 words and with a length
  -- below 2^63, arrive in reads of one or more whole requests. If they all come to their end, they are
  -- handled in order, until the reader fails, and no byte is left. The offset of a slave, an int64, has
  -- grown by the number of bytes that arrived, as an int64 does that wraps around; that of a master has
  -- not changed. The fuel is larger than the number of requests.
  pub requests_in_order :
      (fuel : ℕ) (bs : List Batch) (c : Incoming) (s : Session)
      → c.chunks ≡ batch_chunks bs
      → c.buf ≡ []
      → IsInt64 c.master_repl_offset
      → All FitsRequest (all_requests bs)
      → handle_all others (map words (all_requests bs)) c.session ≡ done s
      → length (all_requests bs) < fuel
      → handle_incoming others fuel c
        ≡ done (
          read_failed,
          record c {
            session = s;
            chunks = [];
            buf = [];
            master_repl_offset = counted c.is_slave (arrived c.chunks) c.master_repl_offset;
          },
        )
  requests_in_order fuel bs c s hc hb int h e enough =
      let n : fuel ≡ length (all_requests bs) + suc (fuel - length (all_requests bs) - 1) =
        omega (arith, enough) in
      rw (n, hc, hb) (batches_rounds (fuel - length (all_requests bs) - 1) bs c s h e)
      ∙ ap
          (λ offset. done (
            read_failed,
            record c { session = s; chunks = []; buf = []; master_repl_offset = offset },
          ))
          (track_all-counted c.is_slave bs c.master_repl_offset int ∙ rw hc)
