-- ===== src/Loadgen.antt =====
-- src/bench/loadgen.c: one connection of the load generator, from its request to its counters. A call
-- of send or recv takes the next result of a list that stands for the kernel, as in Protocol.antt; what
-- a recv is offered beyond what it asks for stays for the next one.
pub mod Framed
pub mod Receiving
pub mod Messages
pub mod Rounds
pub mod Verdict
pub mod Barrier
pub mod Connecting
pub mod Arguments
pub mod Totals
pub mod Tests
use concurrent_servers.Prelude.{
  ℕ, zero, suc, ◌+◌, ◌-◌, ◌%◌, List, [], ◌∷◌, ◌++◌, Option, none, some, ◌>>=◌, Bool, true, false,
  ◌==◌, ◌&&◌, leb, ltb, if◌then◌else◌, length, take, drop, splice, write_at,
}
use concurrent_servers.Sys.{
  Errno, RecvResult, received, recv_failed, SendResult, add_u64, add_u8, is_eintr,
}
use concurrent_servers.Framing.{caret, dollar, star}
use concurrent_servers.Protocol.{SendStatus, all_sent, send_error, send_blocked, SendEnd, send_all}

abbrev pub max_payload : ℕ
max_payload = 512

-- How a call of `recv_exact` ends, what is left of the kernel's results, and the array.
pub data RecvStatus : Type 0 where
  got_all recv_error recv_blocked : RecvStatus

pub record RecvEnd : Type 0 where
  pub status : RecvStatus
  pub recvs : List RecvResult
  pub buf : List ℕ

-- A recv that is offered bytes; none are the end of the stream. `later` is the next round of the loop.
pub recv_bytes : List ℕ → List RecvResult → List ℕ → ℕ → ℕ → RecvEnd → RecvEnd
recv_bytes [] recvs buf got len later = record { status = recv_error; recvs = recvs; buf = buf }
recv_bytes (b ∷ bs) recvs buf got len later =
    if leb (length (b ∷ bs)) (len - got) then later else record {
      status = got_all;
      recvs = received (drop (len - got) (b ∷ bs)) ∷ recvs;
      buf = splice buf got (take (len - got) (b ∷ bs));
    }

-- The loop of `recv_exact`.
pub recv_exact_from : List RecvResult → List ℕ → ℕ → ℕ → RecvEnd
recv_exact_from [] buf got len = record {
  status = if ltb got len then recv_blocked else got_all;
  recvs = [];
  buf = buf;
}
recv_exact_from (recv_failed e ∷ recvs) buf got len =
    let rest = recv_exact_from recvs buf got len in
    let failed : RecvEnd = record { status = recv_error; recvs = recvs; buf = buf } in
    if ltb got len
    then if is_eintr e then rest else failed
    else record { status = got_all; recvs = recv_failed e ∷ recvs; buf = buf }
recv_exact_from (received bytes ∷ recvs) buf got len =
    let later = recv_exact_from recvs (splice buf got bytes) (add_u64 got (length bytes)) len in
    let next = recv_bytes bytes recvs buf got len later in
    if ltb got len
    then next
    else record { status = got_all; recvs = received bytes ∷ recvs; buf = buf }

pub recv_exact : List RecvResult → List ℕ → ℕ → RecvEnd
recv_exact recvs buf len = recv_exact_from recvs buf 0 len

-- send_all_fd has the loop of send_all in src/protocol.c.
pub send_all_fd : List SendResult → List ℕ → List ℕ → SendEnd
send_all_fd sends buf wire = send_all sends buf wire

-- The arrays `req` and `expected`.
pub record Frames : Type 0 where
  pub req : List ℕ
  pub expected : List ℕ

abbrev pub letter : ℕ → ℕ
letter i = (b'a' + i % 26) % 256

-- The loop that fills them, at index `i` with `k` rounds left; a write out of bounds is `none`.
pub fill_frames : ℕ → ℕ → Frames → Option Frames
fill_frames zero i a = some a
fill_frames (suc k) i a = write_at a.req (1 + i) (letter i) >>= λ req.
    write_at a.expected i (add_u8 (letter i) 1) >>= λ expected.
    fill_frames k (i + 1) (record { req = req; expected = expected })

-- With the bytes at both ends; `n` is the payload.
pub make_frames : ℕ → Frames → Option Frames
make_frames n a = write_at a.req 0 caret >>= λ req.
    fill_frames n 0 (record a { req = req }) >>= λ b.
    write_at b.req (1 + n) dollar >>= λ req'. some (record b { req = req' })

-- The counters of `conn_ctx_t`, with the descriptor that the thread has open, the kernel's results and
-- the bytes on the wire.
pub record Ctx : Type 0 where
  pub fd : Option ℕ
  pub completed : ℕ
  pub errors : ℕ
  pub mismatches : ℕ
  pub sends : List SendResult
  pub recvs : List RecvResult
  pub wire : List ℕ

-- memcmp(a, b, n) == 0, where both have n bytes.
abbrev pub same_bytes : List ℕ → List ℕ → Bool
same_bytes [] [] = true
same_bytes [] (y ∷ ys) = false
same_bytes (x ∷ xs) [] = false
same_bytes (x ∷ xs) (y ∷ ys) = x == y && same_bytes xs ys

-- The thread returns, or a call of it is still blocked, or it has gone out of the bounds of an array.
pub data ThreadEnd : Type 0 where
  returns blocks faults : ThreadEnd

-- What follows recv_exact in a round, by how it has ended; `continue` is the next round.
pub after_recv :
    RecvStatus → ℕ → List ℕ → RecvEnd → Ctx → (List ℕ → Ctx → ThreadEnd × Ctx) → ThreadEnd × Ctx
after_recv recv_blocked n expected r c continue = (blocks, record c { recvs = r.recvs })
after_recv recv_error n expected r c continue =
    (returns, record c { recvs = r.recvs; errors = c.errors + 1 })
after_recv got_all n expected r c continue = continue r.buf (record c {
  recvs = r.recvs;
  mismatches =
      if same_bytes (take n r.buf) (take n expected) then c.mismatches else c.mismatches + 1;
  completed = c.completed + 1;
})

-- What follows send_all_fd, by how it has ended.
pub after_send :
    SendStatus
    → ℕ
    → List ℕ
    → List ℕ
    → SendEnd
    → Ctx
    → (List ℕ → Ctx → ThreadEnd × Ctx)
    → ThreadEnd × Ctx
after_send send_blocked n expected got s c continue =
    (blocks, record c { sends = s.sends; wire = s.wire })
after_send (send_error e) n expected got s c continue =
    (returns, record c { sends = s.sends; wire = s.wire; errors = c.errors + 1 })
after_send all_sent n expected got s c continue =
    let r = recv_exact c.recvs got n in
    after_recv r.status n expected r (record c { sends = s.sends; wire = s.wire }) continue

-- The loop over the messages, with `m` left; `got` is what the array holds before a round.
pub send_messages : ℕ → ℕ → Frames → List ℕ → Ctx → ThreadEnd × Ctx
send_messages zero n a got c = (returns, c)
send_messages (suc m) n a got c =
    let s = send_all_fd c.sends (take (n + 2) a.req) c.wire in
    after_send s.status n a.expected got s c (send_messages m n a)

-- close(fd) behind the loop.
pub close_behind : ThreadEnd × Ctx → ThreadEnd × Ctx
close_behind (returns, c) = (returns, record c { fd = none })
close_behind (blocks, c) = (blocks, c)
close_behind (faults, c) = (faults, c)

-- What follows the filling of the arrays.
pub after_frames : Option Frames → ℕ → ℕ → List ℕ → Ctx → ThreadEnd × Ctx
after_frames none m n got c = (faults, c)
after_frames (some a) m n got c = close_behind (send_messages m n a got c)

-- What follows recv_exact of the acknowledgement, by how it has ended.
pub after_ack : RecvStatus → ℕ → ℕ → Frames → List ℕ → RecvEnd → Ctx → ThreadEnd × Ctx
after_ack recv_blocked m n a got r c = (blocks, record c { recvs = r.recvs })
after_ack recv_error m n a got r c = (returns, record c { fd = none; recvs = r.recvs; errors = m })
after_ack got_all m n a got r c =
    if same_bytes (take 1 r.buf) (star ∷ [])
    then after_frames (make_frames n a) m n got (record c { recvs = r.recvs })
    else (returns, record c { fd = none; recvs = r.recvs; errors = m })

-- `conn_main` behind the barrier, with the answer of connect_to and `m` messages of `n` bytes: `a`,
-- `ack` and `got` are what the variables hold before they are written.
pub conn_main : Option ℕ → ℕ → ℕ → Frames → List ℕ → List ℕ → Ctx → ThreadEnd × Ctx
conn_main none m n a ack got c = (returns, record c { fd = none; errors = m })
conn_main (some fd) m n a ack got c =
    let r = recv_exact c.recvs ack 1 in after_ack r.status m n a got r (record c { fd = some fd })
