-- ===== src/Uring.antt =====
-- src/uring_server.c: the user data of a submission, the submission queue, and what the loop does
-- with one completion.
pub mod UserData
pub mod Mine
pub mod Arming
pub mod Queueing
pub mod Completing
pub mod Admitting
pub mod Life
pub mod Whole
pub mod Tests
use concurrent_servers.Prelude.{
  ℕ, zero, suc, ◌+◌, ◌-◌, ◌*◌, ◌<◌, min, List, [], ◌∷◌, ◌++◌, Option, none, some, ◌>>=◌, Bool, true,
  false, not, ◌&&◌, ◌||◌, ◌==◌, ltb, if◌then◌else◌, length, take, splice, replicate, get_elem?, ℤ,
  pos, negsuc,
}
use concurrent_servers.Sys.{
  Errno, RecvResult, received, recv_failed, SendResult, wrote, send_failed, is_eintr, is_again,
}
use concurrent_servers.Exec.{
  Exec, done, died, fault, ◌⟫=◌, checked, AcceptResult, accepted, accept_failed,
}
use concurrent_servers.Peer.{
  PeerState, FdStatus, CloseReason, peer_closed, strerror, recv_room, pending,
}
use concurrent_servers.Peer.Table.{
  Socket, Table, peer_state_init, peer_fd_in_range, peer_on_connected, peer_fail, peer_consume,
  peer_sent, recv_call, send_call, close, opened, clip_recv, clip_send, yields, takes,
}
use concurrent_servers.Sockets.{Listen, listen_inet_socket}
use concurrent_servers.Uring.UserData.{
  UringOp, op_accept, op_recv, op_send, pack, unpack_op, unpack_fd,
}

abbrev pub maxfds : ℕ
maxfds = 16 * 1024

abbrev pub iobuf_size : ℕ
iobuf_size = 1024

-- A submission: its user data, and how many bytes a recv or a send is about, in `iobufs[fd]`.
pub record Sqe : Type 0 where
  pub user_data : ℕ
  pub len : ℕ

-- `iobufs` has a row for each descriptor of the table. `outstanding` are the submissions that have
-- not completed, of which the last `unsubmitted` are still in the submission queue of `depth` slots.
pub record Uring : Type 0 where
  pub table : Table
  pub listener : ℕ
  pub iobufs : ℕ → List ℕ
  pub outstanding : List Sqe
  pub unsubmitted : ℕ
  pub depth : ℕ

abbrev pub put_row : (ℕ → List ℕ) → ℕ → List ℕ → ℕ → List ℕ
put_row rows fd row = λ j. if j == fd then row else rows j

-- `get_sqe`, with the submission that its caller prepares. A full queue is flushed first; `flushes`
-- is whether io_uring_submit can take it.
pub submit : Bool → Sqe → Uring → Exec Uring
submit flushes sqe s =
    if s.unsubmitted == s.depth
    then if flushes
      then done (record s { outstanding = s.outstanding ++ (sqe ∷ []); unsubmitted = 1 })
      else died
    else done
        (record s { outstanding = s.outstanding ++ (sqe ∷ []); unsubmitted = s.unsubmitted + 1 })

pub queue_accept : Bool → Uring → Exec Uring
queue_accept flushes s =
    submit flushes (record { user_data = pack op_accept (pos s.listener); len = 0 }) s

pub queue_recv : Bool → ℕ → Uring → Exec Uring
queue_recv flushes fd s = checked (get_elem? s.table.peers fd) ⟫= λ p.
    submit flushes
      (record { user_data = pack op_recv (pos fd); len = min (recv_room p) iobuf_size }) s

-- `queue_send`, for a peer with something pending: the bytes are copied to the descriptor's row.
pub copy_and_send : Bool → ℕ → ℕ × List ℕ → Uring → Exec Uring
copy_and_send flushes fd out s =
    let len = min out.0 iobuf_size in
    submit flushes (record { user_data = pack op_send (pos fd); len = len })
      (record s { iobufs = put_row s.iobufs fd (splice (s.iobufs fd) 0 (take len out.1)) })

pub queue_send : Bool → ℕ → Uring → Exec Uring
queue_send flushes fd s = checked (get_elem? s.table.peers fd) ⟫= λ p.
    if (pending p).0 == 0 then queue_recv flushes fd s else copy_and_send flushes fd (pending p) s

pub arm_next : Bool → ℕ → FdStatus → Uring → Exec Uring
arm_next flushes fd status s =
    if not status.want_read && not status.want_write
    then checked (close s.table fd >>= λ t. some (record s { table = t }))
    else if status.want_write
    then queue_send flushes fd s
    else queue_recv flushes fd s

-- What the kernel does for the completion of one submission, the one at `which`.
pub record Kernel : Type 0 where
  pub which : ℕ
  pub flushes : Bool
  pub accepts : (ℕ → Socket) → AcceptResult
  pub recvs : RecvResult
  pub sends : SendResult

-- A call on the table, and then its verdict.
pub call_and_arm : Bool → ℕ → Option (FdStatus × Table) → Uring → Exec Uring
call_and_arm flushes fd answer s =
    checked answer ⟫= λ r. arm_next flushes fd r.0 (record s { table = r.1 })

-- OP_ACCEPT, after the listener has been armed again. Any failure leaves the loop running.
pub on_accepted : Bool → AcceptResult → Uring → Exec Uring
on_accepted flushes (accept_failed e) s = done s
on_accepted flushes (accepted fd _) s =
    let t = opened s.table fd in
    if not (peer_fd_in_range s.table (pos fd))
    then checked (close t fd >>= λ t'. some (record s { table = t' }))
    else call_and_arm flushes fd (peer_on_connected t fd) s

-- OP_RECV. The kernel has put the bytes into the descriptor's row.
pub on_received : Bool → ℕ → RecvResult → Uring → Exec Uring
on_received flushes fd (recv_failed e) s =
    if is_eintr e || is_again e
    then queue_recv flushes fd s
    else call_and_arm flushes fd (peer_fail (strerror e) s.table fd) s
on_received flushes fd (received []) s =
    call_and_arm flushes fd (peer_fail peer_closed s.table fd) s
on_received flushes fd (received (b ∷ bs)) s =
    let rows = put_row s.iobufs fd (splice (s.iobufs fd) 0 (b ∷ bs)) in
    checked (recv_call (b ∷ bs) s.table fd) ⟫= λ t.
    call_and_arm flushes fd (peer_consume (take (length (b ∷ bs)) (rows fd)) t fd)
      (record s { table = t; iobufs = rows })

-- OP_SEND. The kernel has sent from the descriptor's row.
pub on_sent : Bool → ℕ → SendResult → Uring → Exec Uring
on_sent flushes fd (send_failed e) s =
    if is_eintr e || is_again e
    then queue_send flushes fd s
    else call_and_arm flushes fd (peer_fail (strerror e) s.table fd) s
on_sent flushes fd (wrote n) s = checked (send_call (take n (s.iobufs fd)) s.table fd) ⟫= λ t.
    call_and_arm flushes fd (peer_sent n t fd) (record s { table = t })

-- The switch on the operation. `unpack_fd` of a peer's submission is not negative.
pub on_peer_completion : Kernel → Option UringOp → ℤ → ℕ → Uring → Exec Uring
on_peer_completion k (some op_recv) (pos fd) len s =
    on_received k.flushes fd (clip_recv len k.recvs) s
on_peer_completion k (some op_send) (pos fd) len s = on_sent k.flushes fd (clip_send len k.sends) s
on_peer_completion k (some op_accept) fd len s =
    queue_accept k.flushes s ⟫= λ s'. on_accepted k.flushes (k.accepts s.table.sockets) s'
on_peer_completion k (some op_recv) (negsuc _) len s = fault
on_peer_completion k (some op_send) (negsuc _) len s = fault
on_peer_completion k none fd len s = done s

abbrev pub without : List Sqe → ℕ → List Sqe
without [] i = []
without (x ∷ xs) zero = xs
without (x ∷ xs) (suc i) = x ∷ without xs i

-- The submission at this place, if it has left the queue.
abbrev pub submitted : ℕ → Uring → Option Sqe
submitted i s =
    if ltb i (length s.outstanding - s.unsubmitted) then get_elem? s.outstanding i else none

-- One completion.
pub complete : Kernel → Uring → Exec Uring
complete k s = elim (submitted k.which s) [
  | none ↦ done s
  | some sqe ↦
      on_peer_completion k (unpack_op sqe.user_data) (unpack_fd sqe.user_data) sqe.len
        (record s { outstanding = without s.outstanding k.which })
]

pub completions : List Kernel → Uring → Exec Uring
completions [] s = done s
completions (k ∷ ks) s = complete k s ⟫= completions ks

-- io_uring_submit; `taken` is whether the kernel takes the queue.
pub submit_all : Bool → Uring → Uring
submit_all taken s = if taken then record s { unsubmitted = 0 } else s

-- The answer of io_uring_wait_cqe: an errno, or the completions that are there to drain.
pub data WaitResult : Type 0 where
  wait_failed : Errno → WaitResult
  posted : List Kernel → WaitResult

pub record Round : Type 0 where
  pub taken : Bool
  pub waits : WaitResult

pub drain : WaitResult → Uring → Exec Uring
drain (wait_failed e) s = if is_eintr e then done s else died
drain (posted ks) s = completions ks s

-- The body of the loop, and the loop.
pub serve_round : Round → Uring → Exec Uring
serve_round r s = drain r.waits (submit_all r.taken s)

pub serve_rounds : List Round → Uring → Exec Uring
serve_rounds [] s = done s
serve_rounds (r ∷ rs) s = serve_round r s ⟫= serve_rounds rs

-- The start of `main`. `has_memory` and `has_rows` are whether calloc has memory for the table and for
-- the rows, and `has_ring` is whether io_uring_queue_init succeeds.
pub start : Bool → Bool → Bool → ℕ → Listen → Exec Uring
start has_memory has_rows has_ring depth listen =
    if ltb depth 8 then died else elim (peer_state_init has_memory maxfds) [
      | none ↦ died
      | some peers ↦
          if not has_rows || not has_ring
          then died
          else (listen_inet_socket listen ⟫= λ listener. queue_accept false (record {
            table = record {
              peers = peers;
              sockets = λ fd. record { is_open = fd == listener; got = []; wire = [] };
            };
            listener = listener;
            iobufs = λ fd. replicate iobuf_size 0;
            outstanding = [];
            unsubmitted = 0;
            depth = depth;
          }))
    ]
