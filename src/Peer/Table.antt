-- ===== src/Peer/Table.antt =====
-- src/peer_state.c: the table of peers, indexed by descriptor, and what the calls on a descriptor do
-- to the socket behind it. `none` is an access out of bounds, or a call on a descriptor that is not
-- open.
pub mod Live
pub mod Moved
pub mod Sized
use concurrent_servers.Prelude.{
  ℕ, ◌+◌, ◌<◌, min, List, [], ◌++◌, Option, none, some, ◌>>=◌, Bool, true, false, ◌==◌, ltb,
  if◌then◌else◌, length, take, get_elem?, set, replicate, ℤ, pos, negsuc,
}
use concurrent_servers.Sys.{
  RecvResult, received, recv_failed, SendResult, wrote, send_failed, Errno,
}
use concurrent_servers.Peer.{
  ProcessingState, initial_ack, PeerState, FdStatus, CloseReason, peer_closed, on_connected,
  close_with, recv_room, pending, consume, sent, on_ready_recv, on_ready_send, sendbuf_size,
}

-- The kernel's side of a descriptor: what its peer has sent and been sent.
pub record Socket : Type 0 where
  pub is_open : Bool
  pub got : List ℕ
  pub wire : List ℕ

pub record Table : Type 0 where
  pub peers : List PeerState
  pub sockets : ℕ → Socket

abbrev pub update : (ℕ → Socket) → ℕ → Socket → ℕ → Socket
update sockets fd s = λ j. if j == fd then s else sockets j

-- `peer_state_init`: a table of `max_fds` zeroed peers, or `die` if calloc had no memory.
abbrev pub zeroed_peer : PeerState
zeroed_peer = record {
  state = initial_ack;
  sendbuf = replicate sendbuf_size 0;
  sendbuf_end = 0;
  sendptr = 0;
  close_reason = none;
}

unfoldable pub peer_state_init : Bool → ℕ → Option (List PeerState)
peer_state_init has_memory max_fds =
    if has_memory then some (replicate max_fds zeroed_peer) else none

-- `peer_fd_in_range`.
unfoldable pub peer_fd_in_range : Table → ℤ → Bool
peer_fd_in_range t (pos fd) = ltb fd (length t.peers)
peer_fd_in_range t (negsuc n) = false

-- `peer_close_reason`: what stands in the table, or "peer closed".
reason_or_closed : Option CloseReason → CloseReason
reason_or_closed none = peer_closed
reason_or_closed (some reason) = reason

pub peer_close_reason : Table → ℤ → Option CloseReason
peer_close_reason t (negsuc n) = some peer_closed
peer_close_reason t (pos fd) =
    if ltb fd (length t.peers)
    then (get_elem? t.peers fd >>= λ p. some (reason_or_closed p.close_reason))
    else some peer_closed

-- An operation on `peers[fd]`.
pub on_peer : (PeerState → Option (FdStatus × PeerState)) → Table → ℕ → Option (FdStatus × Table)
on_peer op t fd =
    get_elem? t.peers fd >>= λ p. op p >>= λ r. some (r.0, record t { peers = set t.peers fd r.1 })

pub peer_on_connected : Table → ℕ → Option (FdStatus × Table)
peer_on_connected t fd = on_peer on_connected t fd

pub peer_fail : CloseReason → Table → ℕ → Option (FdStatus × Table)
peer_fail reason t fd = on_peer (λ p. some (close_with p reason)) t fd

pub peer_consume : List ℕ → Table → ℕ → Option (FdStatus × Table)
peer_consume bytes t fd = on_peer (λ p. consume p bytes) t fd

pub peer_sent : ℕ → Table → ℕ → Option (FdStatus × Table)
peer_sent n t fd = on_peer (λ p. some (sent p n)) t fd

-- The calls on an open descriptor.
abbrev pub on_socket : (Socket → Socket) → Table → ℕ → Option Table
on_socket call t fd =
    if (t.sockets fd).is_open
    then some (record t { sockets = update t.sockets fd (call (t.sockets fd)) })
    else none

pub recv_call : List ℕ → Table → ℕ → Option Table
recv_call bytes t fd = on_socket (λ s. record s { got = s.got ++ bytes }) t fd

pub send_call : List ℕ → Table → ℕ → Option Table
send_call bytes t fd = on_socket (λ s. record s { wire = s.wire ++ bytes }) t fd

unfoldable pub close : Table → ℕ → Option Table
close t fd = on_socket (λ s. record s { is_open = false }) t fd

-- The descriptor that accept returns is a new one.
unfoldable pub opened : Table → ℕ → Table
opened t fd = record t {
  sockets = update t.sockets fd (record { is_open = true; got = []; wire = [] });
}

-- recv yields at most the bytes that it is asked for, and send takes at most those that it is given.
-- `r` and `s` are what the kernel has to offer: any answer that it may give comes of one.
abbrev pub clip_recv : ℕ → RecvResult → RecvResult
clip_recv room (received bytes) = received (take room bytes)
clip_recv room (recv_failed e) = recv_failed e

abbrev pub clip_send : ℕ → SendResult → SendResult
clip_send len (wrote n) = wrote (min n len)
clip_send len (send_failed e) = send_failed e

abbrev pub yields : RecvResult → List ℕ
yields (received bytes) = bytes
yields (recv_failed e) = []

abbrev pub takes : SendResult → ℕ
takes (wrote n) = n
takes (send_failed e) = 0

-- The bytes that `peer_on_ready_recv` receives, and those that `peer_on_ready_send` sends.
abbrev pub heard : RecvResult → PeerState → List ℕ
heard r p = if recv_room p == 0 then [] else yields (clip_recv (recv_room p) r)

abbrev pub told : SendResult → PeerState → List ℕ
told s p = if (pending p).0 == 0 then [] else take (takes (clip_send (pending p).0 s)) (pending p).1

-- `peer_on_ready_recv` on a descriptor, with its call of recv.
pub peer_on_ready_recv : RecvResult → Table → ℕ → Option (FdStatus × Table)
peer_on_ready_recv r t fd = get_elem? t.peers fd >>= λ p.
    (if recv_room p == 0 then some t else recv_call (heard r p) t fd) >>= λ t'.
    on_peer (on_ready_recv (clip_recv (recv_room p) r)) t' fd

-- `peer_on_ready_send` on a descriptor, with its call of send.
pub peer_on_ready_send : SendResult → Table → ℕ → Option (FdStatus × Table)
peer_on_ready_send s t fd = get_elem? t.peers fd >>= λ p.
    (if (pending p).0 == 0 then some t else send_call (told s p) t fd) >>= λ t'.
    on_peer (λ q. some (on_ready_send (clip_send (pending p).0 s) q)) t' fd
