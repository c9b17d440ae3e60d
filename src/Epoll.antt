-- ===== src/Epoll.antt =====
-- src/epoll_server.c: the interest set, the verdict of a handler applied to it, and one round of the
-- loop around epoll_wait.
pub mod Interest
pub mod Accepting
pub mod Rounds
pub mod Life
pub mod Tests
use concurrent_servers.Prelude.{
  ℕ, ◌*◌, List, [], ◌∷◌, Option, none, some, ◌>>=◌, Bool, true, false, not, ◌&&◌, ◌||◌, ◌==◌,
  if◌then◌else◌, pos,
}
use concurrent_servers.Sys.{Errno, RecvResult, SendResult, is_eintr}
use concurrent_servers.Exec.{
  Exec, done, died, fault, ◌⟫=◌, checked, AcceptResult, accepted, accept_failed, is_passing,
}
use concurrent_servers.Peer.{FdStatus, PeerState, fd_status_r}
use concurrent_servers.Sockets.{Listen, listen_inet_socket}
use concurrent_servers.Peer.Table.{
  Socket, Table, peer_state_init, peer_fd_in_range, peer_on_connected, peer_on_ready_recv,
  peer_on_ready_send, close, opened,
}

abbrev pub maxfds : ℕ
maxfds = 16 * 1024

-- The interest set has, for each descriptor, whether EPOLLIN and EPOLLOUT are asked for.
pub record Epoll : Type 0 where
  pub table : Table
  pub listener : ℕ
  pub interest : ℕ → Option FdStatus

abbrev pub put : (ℕ → Option FdStatus) → ℕ → Option FdStatus → ℕ → Option FdStatus
put interest fd entry = λ j. if j == fd then entry else interest j

-- epoll_ctl: EPOLL_CTL_ADD fails on a descriptor in the set, or for want of memory; EPOLL_CTL_MOD on
-- one that is not in it, and then the process ends. The result of EPOLL_CTL_DEL is not looked at.
pub epoll_add : Bool → ℕ → FdStatus → Epoll → Exec Epoll
epoll_add has_memory fd events s = elim (s.interest fd) [
  | some _ ↦ died
  | none ↦
      if has_memory then done (record s { interest = put s.interest fd (some events) }) else died
]

pub epoll_mod : ℕ → FdStatus → Epoll → Exec Epoll
epoll_mod fd events s = elim (s.interest fd) [
  | none ↦ died
  | some _ ↦ done (record s { interest = put s.interest fd (some events) })
]

pub epoll_del_close : ℕ → Epoll → Exec Epoll
epoll_del_close fd s =
    checked
      (close s.table fd >>= λ t. some (record s { table = t; interest = put s.interest fd none }))

-- `apply_status`.
pub apply_status : ℕ → FdStatus → Epoll → Exec Epoll
apply_status fd status s =
    if not status.want_read && not status.want_write
    then epoll_del_close fd s
    else epoll_mod fd status s

-- What the calls at the start of `main` come to: whether calloc has memory for the table and for the
-- event buffer, and whether fcntl, epoll_create1 and epoll_ctl for the listener succeed.
pub record Starting : Type 0 where
  pub has_table : Bool
  pub listen : Listen
  pub nonblocking : Bool
  pub creates : Bool
  pub adds : Bool
  pub has_events : Bool

-- Nothing is in the interest set yet.
pub unwatched : List PeerState → ℕ → Epoll
unwatched peers listener = record {
  table = record {
    peers = peers;
    sockets = λ fd. record { is_open = fd == listener; got = []; wire = [] };
  };
  listener = listener;
  interest = λ fd. none;
}

-- What follows `make_socket_non_blocking`.
pub watch_listener : Starting → List PeerState → ℕ → Exec Epoll
watch_listener c peers listener =
    if c.creates
    then (epoll_add c.adds listener fd_status_r (unwatched peers listener) ⟫= λ s.
        if c.has_events then done s else died)
    else died

-- The start of `main`.
pub start : Starting → Exec Epoll
start c = elim (peer_state_init c.has_table maxfds) [
  | none ↦ died
  | some peers ↦ listen_inet_socket c.listen ⟫= λ listener.
      if c.nonblocking then watch_listener c peers listener else died
]

-- An entry of `events`, with EPOLLERR, EPOLLIN and EPOLLOUT.
pub record Event : Type 0 where
  pub fd : ℕ
  pub has_error : Bool
  pub is_readable : Bool
  pub is_writable : Bool

-- The answer of epoll_wait.
pub data WaitResult : Type 0 where
  wait_failed : Errno → WaitResult
  reported : List Event → WaitResult

pub record Kernel : Type 0 where
  pub waits : WaitResult
  pub accepts : (ℕ → Socket) → AcceptResult
  pub watches : Bool
  pub recvs : ℕ → RecvResult
  pub sends : ℕ → SendResult

-- A connection on a new descriptor, admitted if the table has room for it.
pub admit : Bool → ℕ → Bool → Epoll → Exec Epoll
admit watches fd nonblocking s =
    let t = opened s.table fd in
    if not (peer_fd_in_range s.table (pos fd))
    then checked (close t fd >>= λ t'. some (record s { table = t' }))
    else if nonblocking
    then (checked (peer_on_connected t fd) ⟫= λ r.
        epoll_add watches fd r.0 (record s { table = r.1 }))
    else died

pub accept_peer : Kernel → AcceptResult → Epoll → Exec Epoll
accept_peer k (accept_failed e) s = if is_passing e then done s else died
accept_peer k (accepted fd nonblocking) s = admit k.watches fd nonblocking s

-- A peer's descriptor that is readable or writable.
pub serve_peer : Kernel → Event → Epoll → Exec Epoll
serve_peer k e s =
    if e.is_readable
    then (checked (peer_on_ready_recv (k.recvs e.fd) s.table e.fd) ⟫= λ r.
        apply_status e.fd r.0 (record s { table = r.1 }))
    else if e.is_writable
    then (checked (peer_on_ready_send (k.sends e.fd) s.table e.fd) ⟫= λ r.
        apply_status e.fd r.0 (record s { table = r.1 }))
    else done s

-- The body of the `for` loop.
pub serve_event : Kernel → Event → Epoll → Exec Epoll
serve_event k e s =
    if e.has_error
    then if e.fd == s.listener then died else epoll_del_close e.fd s
    else if e.fd == s.listener
    then accept_peer k (k.accepts s.table.sockets) s
    else serve_peer k e s

pub serve_events : Kernel → List Event → Epoll → Exec Epoll
serve_events k [] s = done s
serve_events k (e ∷ es) s = serve_event k e s ⟫= serve_events k es

-- epoll_wait reports descriptors of the interest set only.
pub in_set : (ℕ → Option FdStatus) → List Event → List Event
in_set interest [] = []
in_set interest (e ∷ es) =
    let rest = in_set interest es in elim (interest e.fd) [ none ↦ rest | some _ ↦ e ∷ rest ]

-- One round of `while (1)`.
pub serve_round : Kernel → Epoll → Exec Epoll
serve_round k s = elim k.waits [
  | wait_failed e ↦ if is_eintr e then done s else died
  | reported es ↦ serve_events k (in_set s.interest es) s
]

-- The rounds that a sequence of kernels makes.
pub serve_rounds : List Kernel → Epoll → Exec Epoll
serve_rounds [] s = done s
serve_rounds (k ∷ ks) s = serve_round k s ⟫= serve_rounds ks
