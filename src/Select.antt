-- ===== src/Select.antt =====
-- src/select_server.c: the master sets, the verdict of a handler applied to them, and one round of
-- the loop around select.
pub mod Watch
pub mod Accepting
pub mod Parts
pub mod Rounds
pub mod Life
pub mod Tests
use concurrent_servers.Prelude.{
  ℕ, zero, suc, ◌+◌, ◌-◌, List, [], ◌∷◌, Option, none, some, ◌>>=◌, Bool, true, false, not, ◌&&◌,
  ◌||◌, ◌==◌, ltb, leb, if◌then◌else◌, get_elem?, write_at, replicate, pos,
}
use concurrent_servers.Sys.{Errno, RecvResult, SendResult, is_eintr}
use concurrent_servers.Exec.{
  Exec, done, died, fault, ◌⟫=◌, checked, AcceptResult, accepted, accept_failed, is_passing,
}
use concurrent_servers.Peer.{FdStatus, PeerState}
use concurrent_servers.Sockets.{Listen, listen_inet_socket}
use concurrent_servers.Peer.Table.{
  Socket, Table, peer_state_init, peer_fd_in_range, peer_on_connected, peer_on_ready_recv,
  peer_on_ready_send, close, opened,
}

abbrev pub maxfds : ℕ
maxfds = 1000

-- FD_SETSIZE on Linux.
abbrev pub fd_setsize : ℕ
fd_setsize = 1024

pub record Select : Type 0 where
  pub table : Table
  pub listener : ℕ
  pub readfds_master : List Bool
  pub writefds_master : List Bool
  pub fdset_max : ℕ

abbrev pub is_finished : FdStatus → Bool
is_finished status = not status.want_read && not status.want_write

-- `apply_status`. FD_SET and FD_CLR beyond the set are accesses out of bounds.
pub apply_status : ℕ → FdStatus → Select → Option Select
apply_status fd status s = write_at s.readfds_master fd status.want_read >>= λ reads.
    write_at s.writefds_master fd status.want_write >>= λ writes.
    (if is_finished status then close s.table fd else some s.table) >>= λ table.
    some (record s { table = table; readfds_master = reads; writefds_master = writes })

-- The sets are cleared, and the listener is watched.
pub watch_listener : List PeerState → ℕ → Exec Select
watch_listener peers listener =
    if leb fd_setsize listener
    then died
    else checked (
        write_at (replicate fd_setsize false) listener true >>= λ reads. some (record {
          table = record {
            peers = peers;
            sockets = λ fd. record { is_open = fd == listener; got = []; wire = [] };
          };
          listener = listener;
          readfds_master = reads;
          writefds_master = replicate fd_setsize false;
          fdset_max = listener;
        }))

-- The start of `main`: `has_memory` is whether calloc has memory for the table, and `nonblocking`
-- whether fcntl can make the listener non-blocking.
pub start : Bool → Listen → Bool → Exec Select
start has_memory listen nonblocking = elim (peer_state_init has_memory maxfds) [
  | none ↦ died
  | some peers ↦ listen_inet_socket listen ⟫= λ listener.
      if nonblocking then watch_listener peers listener else died
]

-- The answer of select: an errno, or the number of events.
pub data SelectResult : Type 0 where
  select_failed : Errno → SelectResult
  events : ℕ → SelectResult

-- What the kernel does in one round: the answer of select, and those of the calls that the round may
-- make. The descriptor of a new connection depends on those in use.
pub record Kernel : Type 0 where
  pub selects : SelectResult
  pub readable : ℕ → Bool
  pub writable : ℕ → Bool
  pub accepts : (ℕ → Socket) → AcceptResult
  pub recvs : ℕ → RecvResult
  pub sends : ℕ → SendResult

-- A connection on a new descriptor, admitted if both limits leave room for it.
pub admit : ℕ → Bool → Select → Exec Select
admit fd nonblocking s =
    let t = opened s.table fd in
    if leb fd_setsize fd || not (peer_fd_in_range s.table (pos fd))
    then checked (close t fd >>= λ t'. some (record s { table = t' }))
    else if nonblocking
    then checked (
        peer_on_connected t fd >>= λ r.
        apply_status fd r.0
          (record s { table = r.1; fdset_max = if ltb s.fdset_max fd then fd else s.fdset_max }))
    else died

pub accept_peer : AcceptResult → Select → Exec Select
accept_peer (accept_failed e) s = if is_passing e then done s else died
accept_peer (accepted fd nonblocking) s = admit fd nonblocking s

-- The branch of a readable descriptor, with `closed`.
pub on_readable : Kernel → ℕ → Select → Exec (Bool × Select)
on_readable k fd s =
    if fd == s.listener
    then (accept_peer (k.accepts s.table.sockets) s ⟫= λ s'. done (false, s'))
    else checked (
        peer_on_ready_recv (k.recvs fd) s.table fd >>= λ r.
        apply_status fd r.0 (record s { table = r.1 }) >>= λ s'. some (is_finished r.0, s'))

pub on_writable : Kernel → ℕ → Select → Exec Select
on_writable k fd s = checked (
    peer_on_ready_send (k.sends fd) s.table fd >>= λ r.
    apply_status fd r.0 (record s { table = r.1 }))

-- The two parts of the body of the `for` loop, the second for a descriptor that the first has not
-- closed. A count that would go below 0 ends the loop as 0 does.
pub read_part : Kernel → ℕ → Bool → ℕ → Select → Exec (ℕ × Bool × Select)
read_part k fd is_readable nready s =
    if is_readable
    then (on_readable k fd s ⟫= λ r. done (nready - 1, r.0, r.1))
    else done (nready, false, s)

pub write_part : Kernel → ℕ → Bool → ℕ → Select → Exec (ℕ × Select)
write_part k fd is_writable nready s =
    if is_writable then (on_writable k fd s ⟫= λ s'. done (nready - 1, s')) else done (nready, s)

-- `reads` and `writes` are the copies of the sets that select has rewritten.
pub serve_fd : Kernel → List Bool → List Bool → ℕ → ℕ → Select → Exec (ℕ × Select)
serve_fd k reads writes fd nready s = checked (get_elem? reads fd) ⟫= λ is_readable.
    read_part k fd is_readable nready s ⟫= λ r.
    if r.1
    then done (r.0, r.2)
    else (checked (get_elem? writes fd) ⟫= λ is_writable. write_part k fd is_writable r.0 r.2)

-- The `for` loop from `fd` on. Running out of fuel counts as a fault.
pub serve_fds : Kernel → List Bool → List Bool → ℕ → ℕ → ℕ → Select → Exec Select
serve_fds k reads writes zero fd nready s =
    if leb fd s.fdset_max && ltb 0 nready then fault else done s
serve_fds k reads writes (suc fuel) fd nready s =
    let rest = serve_fds k reads writes fuel (suc fd) in
    if leb fd s.fdset_max && ltb 0 nready
    then (serve_fd k reads writes fd nready s ⟫= λ r. rest r.0 r.1)
    else done s

-- select clears bits of the sets that it is given, and sets none.
pub kept : (ℕ → Bool) → List Bool → ℕ → List Bool
kept ready [] fd = []
kept ready (b ∷ bs) fd = (b && ready fd) ∷ kept ready bs (suc fd)

-- One round of `while (1)`.
pub serve_round : Kernel → Select → Exec Select
serve_round k s = elim k.selects [
  | select_failed e ↦ if is_eintr e then done s else died
  | events nready ↦
      serve_fds k (kept k.readable s.readfds_master 0) (kept k.writable s.writefds_master 0)
        fd_setsize 0 nready s
]

-- The rounds that a sequence of kernels makes.
pub serve_rounds : List Kernel → Select → Exec Select
serve_rounds [] s = done s
serve_rounds (k ∷ ks) s = serve_round k s ⟫= serve_rounds ks
