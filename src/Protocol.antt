-- ===== src/Protocol.antt =====
-- src/protocol.c: the blocking servers' conversation with one peer. A call of send or recv takes
-- the next result of a list that stands for the kernel; where a list is used up, the call is still
-- blocked. So every loop recurs on the results that it takes, and needs no fuel.
pub mod Sending
pub mod Scanning
pub mod Conversation
pub mod Serving
pub mod Tests
use Prim.Native.String.{String}
use concurrent_servers.Prelude.{
  ℕ, zero, suc, ◌+◌, List, [], ◌∷◌, ◌++◌, Option, none, some, ◌>>=◌, Bool, true, false, ◌||◌, ◌==◌,
  ltb, if◌then◌else◌, length, take, drop, get_elem?, write_at,
}
use concurrent_servers.Sys.{
  Errno, eintr, econnreset, epipe, etimedout, RecvResult, received, recv_failed, SendResult, wrote,
  send_failed, ClockReading, add_u64, sub_u64, add_u8, is_eintr,
}
use concurrent_servers.Framing.{Mode, outside, inside, caret, dollar, star}
use concurrent_servers.Metrics.{Registry, metrics_now_ns, metrics_request_observed}

abbrev pub recvbuf_size : ℕ
recvbuf_size = 1024

pub data ServeResult : Type 0 where
  serve_ok serve_peer_reset serve_io_error : ServeResult

pub serve_result_str : ServeResult → String
serve_result_str serve_ok = "peer closed"
serve_result_str serve_peer_reset = "peer reset"
serve_result_str serve_io_error = "io error"

-- How a call of `send_all` ends, what is left of the kernel's results, and the bytes that the
-- kernel has taken so far.
pub data SendStatus : Type 0 where
  all_sent : SendStatus
  send_error : Errno → SendStatus
  send_blocked : SendStatus

pub record SendEnd : Type 0 where
  pub status : SendStatus
  pub sends : List SendResult
  pub wire : List ℕ

-- The loop of `send_all`: of the rest of `buf` the kernel takes `n` bytes, or fails.
pub send_all_from : List SendResult → List ℕ → ℕ → List ℕ → SendEnd
send_all_from [] buf sent wire = record {
  status = if ltb sent (length buf) then send_blocked else all_sent;
  sends = [];
  wire = wire;
}
send_all_from (wrote n ∷ sends) buf sent wire =
    let rest = send_all_from sends buf (add_u64 sent n) (wire ++ take n (drop sent buf)) in
    if ltb sent (length buf)
    then rest
    else record { status = all_sent; sends = wrote n ∷ sends; wire = wire }
send_all_from (send_failed e ∷ sends) buf sent wire =
    let rest = send_all_from sends buf sent wire in
    if ltb sent (length buf)
    then if is_eintr e then rest else record { status = send_error e; sends = sends; wire = wire }
    else record { status = all_sent; sends = send_failed e ∷ sends; wire = wire }

pub send_all : List SendResult → List ℕ → List ℕ → SendEnd
unfolding send_all_from
send_all sends buf wire = send_all_from sends buf 0 wire

pub classify_errno : Errno → ServeResult
classify_errno econnreset = serve_peer_reset
classify_errno epipe = serve_peer_reset
classify_errno etimedout = serve_peer_reset
classify_errno _ = serve_io_error

-- The loop variables of the transformation in place. WAIT_FOR_MSG is `outside`, IN_MSG `inside`.
pub record Scan : Type 0 where
  pub state : Mode
  pub nsend : ℕ
  pub recvbuf : List ℕ

-- The body of the loop for the byte `c`. A write out of bounds is `none`.
pub scan_byte : Mode → ℕ → Scan → Option Scan
scan_byte outside c s = some (if c == caret then record s { state = inside } else s)
scan_byte inside c s =
    if c == dollar
    then some (record s { state = outside })
    else write_at s.recvbuf s.nsend (add_u8 c 1) >>= λ buf.
        some (record s { recvbuf = buf; nsend = add_u64 s.nsend 1 })

-- for (i = 0; i < len; ++i), with `n` rounds left.
pub scan : ℕ → ℕ → Scan → Option Scan
scan zero i s = some s
scan (suc n) i s = get_elem? s.recvbuf i >>= λ c. scan_byte s.state c s >>= λ s'. scan n (i + 1) s'

-- The variables of `serve_connection` that live from one recv to the next, with the kernel's
-- results for send, the bytes on the wire, how often the clock was read, and the registry.
pub record Conn : Type 0 where
  pub state : Mode
  pub sends : List SendResult
  pub wire : List ℕ
  pub ticks : ℕ
  pub metrics : Registry

-- `fault` is an access out of bounds; the blocked calls have not returned yet.
pub data ServeStatus : Type 0 where
  returned : ServeResult → ServeStatus
  blocked_recv blocked_send fault : ServeStatus

-- if (nsend > 0 && send_all(...) < 0): without output there is no call of send.
pub send_reply : Scan → Conn → SendEnd
send_reply s c =
    if ltb 0 s.nsend
    then send_all c.sends (take s.nsend s.recvbuf) c.wire
    else record { status = all_sent; sends = c.sends; wire = c.wire }

-- What follows the reply. `continue` is the next round of the loop.
pub after_reply :
    (ℕ → ClockReading) → ℕ → SendStatus → Conn → (Conn → ServeStatus × Conn) → ServeStatus × Conn
after_reply clock started all_sent c continue = continue (record c {
  ticks = c.ticks + 1;
  metrics = metrics_request_observed (sub_u64 (metrics_now_ns (clock c.ticks)) started) c.metrics;
})
after_reply clock started (send_error e) c continue = (returned (classify_errno e), c)
after_reply clock started send_blocked c continue = (blocked_send, c)

-- The rest of a round, once the buffer has been transformed.
pub finish_request :
    (ℕ → ClockReading) → ℕ → Option Scan → Conn → (Conn → ServeStatus × Conn) → ServeStatus × Conn
finish_request clock started none c continue = (fault, c)
finish_request clock started (some s) c continue =
    let e = send_reply s c in
    after_reply clock started e.status
      (record c { state = s.state; sends = e.sends; wire = e.wire }) continue

-- One request: `bytes` is what recv put into the buffer.
pub serve_request :
    (ℕ → ClockReading) → List ℕ → Conn → (Conn → ServeStatus × Conn) → ServeStatus × Conn
serve_request clock bytes c continue =
    finish_request clock (metrics_now_ns (clock c.ticks))
      (scan (length bytes) 0 (record { state = c.state; nsend = 0; recvbuf = bytes }))
      (record c { ticks = c.ticks + 1 }) continue

pub serve_loop : (ℕ → ClockReading) → List RecvResult → Conn → ServeStatus × Conn
serve_loop clock [] c = (blocked_recv, c)
serve_loop clock (recv_failed e ∷ recvs) c =
    let rest = serve_loop clock recvs c in
    if is_eintr e then rest else (returned (classify_errno e), c)
serve_loop clock (received [] ∷ recvs) c = (returned serve_ok, c)
serve_loop clock (received (b ∷ bs) ∷ recvs) c =
    serve_request clock (b ∷ bs) c (serve_loop clock recvs)

-- What follows the acknowledgement.
pub after_ack : (ℕ → ClockReading) → List RecvResult → SendStatus → Conn → ServeStatus × Conn
after_ack clock recvs all_sent c = serve_loop clock recvs c
after_ack clock recvs (send_error e) c = (returned (classify_errno e), c)
after_ack clock recvs send_blocked c = (blocked_send, c)

-- The whole conversation on a fresh socket.
pub serve_connection :
    (ℕ → ClockReading) → List RecvResult → List SendResult → Registry → ServeStatus × Conn
serve_connection clock recvs sends metrics =
    let e = send_all sends (star ∷ []) [] in
    after_ack clock recvs e.status
      (record { state = outside; sends = e.sends; wire = e.wire; ticks = 0; metrics = metrics })
