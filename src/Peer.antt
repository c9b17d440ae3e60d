-- ===== src/Peer.antt =====
-- src/peer_state.c and peer_state.h: the per-descriptor parser of the event-driven servers. An
-- operation is defined on one `peer_state_t` first; the functions on descriptors look it up in the
-- table and store it back. `none` is an access outside of an array.
pub mod Consuming
pub mod Stream
pub mod Sent
pub mod Runs
mod Keeping
pub mod Answers
pub mod Table
pub mod Tests
use concurrent_servers.Prelude.{
  ℕ, zero, suc, ◌+◌, ◌-◌, List, [], ◌∷◌, Option, none, some, ◌>>=◌, Bool, true, false, not, ◌||◌,
  ◌==◌, ltb, leb, if◌then◌else◌, length, take, drop, get_elem?, set, write_at, replicate, ℤ, pos,
  negsuc,
}
use concurrent_servers.Sys.{
  Errno, eintr, econnreset, epipe, RecvResult, received, recv_failed, SendResult, wrote,
  send_failed, add_u64, sub_u64, add_u8, is_eintr, is_again,
}
use concurrent_servers.Framing.{caret, dollar, star}

abbrev pub sendbuf_size : ℕ
sendbuf_size = 1024

pub data ProcessingState : Type 0 where
  initial_ack wait_for_msg in_msg : ProcessingState

-- The texts that the sources give as a reason. `strerror e` is what strerror says of `e`.
pub data CloseReason : Type 0 where
  peer_closed peer_reset consume_beyond_room consume_while_initial_ack : CloseReason
  strerror : Errno → CloseReason

pub record PeerState : Type 0 where
  pub state : ProcessingState
  pub sendbuf : List ℕ
  pub sendbuf_end : ℕ
  pub sendptr : ℕ
  pub close_reason : Option CloseReason

pub record FdStatus : Type 0 where
  pub want_read : Bool
  pub want_write : Bool

abbrev pub fd_status_r : FdStatus
fd_status_r = record { want_read = true; want_write = false }

abbrev pub fd_status_w : FdStatus
fd_status_w = record { want_read = false; want_write = true }

abbrev pub fd_status_rw : FdStatus
fd_status_rw = record { want_read = true; want_write = true }

abbrev pub fd_status_norw : FdStatus
fd_status_norw = record { want_read = false; want_write = false }

pub close_with : PeerState → CloseReason → FdStatus × PeerState
close_with p reason = (fd_status_norw, record p { close_reason = some reason })

-- `peer_on_connected`. A write to `sendbuf[0]` of an empty array would be a fault.
pub on_connected : PeerState → Option (FdStatus × PeerState)
on_connected p = write_at p.sendbuf 0 star >>= λ buf. some (
  fd_status_w,
  record { state = initial_ack; sendbuf = buf; sendbuf_end = 1; sendptr = 0; close_reason = none },
)

abbrev pub is_initial_ack : ProcessingState → Bool
is_initial_ack initial_ack = true
is_initial_ack _ = false

-- `peer_recv_room`.
pub recv_room : PeerState → ℕ
recv_room p =
    if is_initial_ack p.state || ltb p.sendptr p.sendbuf_end
    then 0
    else sub_u64 sendbuf_size p.sendbuf_end

-- One round of the loop of `peer_consume`: on to the next byte, a return, or a write out of bounds.
pub data ByteStep : Type 0 where
  next : PeerState → Bool → ByteStep
  return : FdStatus × PeerState → ByteStep
  overrun : ByteStep

pub consume_byte : ProcessingState → ℕ → PeerState → Bool → ByteStep
unfolding close_with
consume_byte initial_ack c p ready = return (close_with p consume_while_initial_ack)
consume_byte wait_for_msg c p ready =
    next (if c == caret then record p { state = in_msg } else p) ready
consume_byte in_msg c p ready =
    if c == dollar
    then next (record p { state = wait_for_msg }) ready
    else elim (write_at p.sendbuf p.sendbuf_end (add_u8 c 1)) [
      | none ↦ overrun
      | some buf ↦ next (record p { sendbuf = buf; sendbuf_end = add_u64 p.sendbuf_end 1 }) true
    ]

pub consume_rest :
    ByteStep → (PeerState → Bool → Option (FdStatus × PeerState)) → Option (FdStatus × PeerState)
consume_rest (next p ready) continue = continue p ready
consume_rest (return r) continue = some r
consume_rest overrun continue = none

-- The loop of `peer_consume`, with `ready_to_send`.
pub consume_loop : List ℕ → PeerState → Bool → Option (FdStatus × PeerState)
consume_loop [] p ready = some (record { want_read = not ready; want_write = ready }, p)
consume_loop (c ∷ cs) p ready = consume_rest (consume_byte p.state c p ready) (consume_loop cs)

-- `peer_consume`, on the `len` bytes of `data`.
pub consume : PeerState → List ℕ → Option (FdStatus × PeerState)
unfolding close_with
consume p bytes =
    let loop = consume_loop bytes p false in
    if ltb (recv_room p) (length bytes) then some (close_with p consume_beyond_room) else loop

-- `peer_pending`: the length, and the bytes from `*out` on.
unfoldable pub pending : PeerState → ℕ × List ℕ
pending p =
    if leb p.sendbuf_end p.sendptr
    then (0, [])
    else (sub_u64 p.sendbuf_end p.sendptr, drop p.sendptr p.sendbuf)

-- `peer_sent`.
pub sent : PeerState → ℕ → FdStatus × PeerState
sent p n =
    let ptr = add_u64 p.sendptr n in
    if ltb ptr p.sendbuf_end then (fd_status_w, record p { sendptr = ptr }) else (
      fd_status_r,
      record p {
        sendptr = 0;
        sendbuf_end = 0;
        state = if is_initial_ack p.state then wait_for_msg else p.state;
      },
    )

abbrev pub is_reset : Errno → Bool
is_reset econnreset = true
is_reset _ = false

abbrev pub is_reset_or_pipe : Errno → Bool
is_reset_or_pipe econnreset = true
is_reset_or_pipe epipe = true
is_reset_or_pipe _ = false

-- What `peer_on_ready_recv` does with the answer of recv.
pub after_recv : RecvResult → PeerState → Option (FdStatus × PeerState)
unfolding close_with
after_recv (received []) p = some (close_with p peer_closed)
after_recv (received (b ∷ bs)) p = consume p (b ∷ bs)
after_recv (recv_failed e) p = some (
    if is_eintr e || is_again e
    then (fd_status_r, p)
    else if is_reset e
    then close_with p peer_reset
    else close_with p (strerror e))

-- `peer_on_ready_recv`. Without room there is no call of recv.
pub on_ready_recv : RecvResult → PeerState → Option (FdStatus × PeerState)
on_ready_recv r p = if recv_room p == 0 then some (fd_status_w, p) else after_recv r p

-- What `peer_on_ready_send` does with the answer of send.
pub after_send : SendResult → PeerState → FdStatus × PeerState
unfolding close_with
after_send (wrote n) p = sent p n
after_send (send_failed e) p =
    if is_eintr e || is_again e
    then (fd_status_w, p)
    else if is_reset_or_pipe e
    then close_with p peer_reset
    else close_with p (strerror e)

-- `peer_on_ready_send`. Without pending output there is no call of send.
pub on_ready_send : SendResult → PeerState → FdStatus × PeerState
on_ready_send s p = if (pending p).0 == 0 then (fd_status_rw, p) else after_send s p
