-- ===== src/Peer/Table/Live.antt =====
-- The calls of src/peer_state.c on the descriptor of an open connection: no fault, the connection's
-- account is kept, and the other descriptors are left alone.
use concurrent_servers.Prelude.{
  ℕ, ◌<◌, ◌≡◌, ◌≢◌, refl, sym, ap, ◌∙◌, subst, Bool, true, false, [], ◌++◌, Option, none, some,
  ◌>>=◌, arith, ◌==◌, if◌then◌else◌, length, set, get_elem?, get_elem?-lt, get_elem?-some,
  get_elem?-set_self, get_elem?-set_ne, length-set, append-nil,
}
use concurrent_servers.Sys.{RecvResult, SendResult}
use concurrent_servers.Peer.{
  PeerState, FdStatus, CloseReason, sendbuf_size, on_connected, recv_room, pending, close_with,
  on_ready_recv, on_ready_send,
}
use concurrent_servers.Peer.Runs.{
  Run, IsApt, Handled, on_connected-Handled, on_ready_recv-Handled, on_ready_send-Handled, closed,
}
use concurrent_servers.Peer.Table.{
  Socket, Table, update, on_peer, peer_on_connected, peer_fail, on_socket, recv_call, send_call,
  opened, clip_recv, clip_send, heard, told, peer_on_ready_recv, peer_on_ready_send,
}

-- `fd` is open, and the loop was last told `status` about it.
pub record Live (fd : ℕ) (status : FdStatus) (t : Table) : Type 0 where
  pub is_open : (t.sockets fd).is_open ≡ true
  pub peer : PeerState
  pub slot : get_elem? t.peers fd ≡ some peer
  pub run : Run (t.sockets fd).got (t.sockets fd).wire peer
  pub apt : IsApt peer status

-- Nothing but what belongs to `fd` has changed.
pub record Elsewhere (fd : ℕ) (t t' : Table) : Type 0 where
  pub sockets : (j : ℕ) → j ≢ fd → t'.sockets j ≡ t.sockets j
  pub peers : (j : ℕ) → j ≢ fd → get_elem? t'.peers j ≡ get_elem? t.peers j
  pub capacity : length t'.peers ≡ length t.peers

-- A call on `fd` succeeds, leaves it open, and touches nothing else.
pub record Served (fd : ℕ) (t : Table) (answer : Option (FdStatus × Table)) : Type 0 where
  pub status : FdStatus
  pub after : Table
  pub done : answer ≡ some (status, after)
  pub live : Live fd status after
  pub others : Elsewhere fd t after

pub Elsewhere-trans :
    (fd : ℕ) (t t' t'' : Table) → Elsewhere fd t t' → Elsewhere fd t' t'' → Elsewhere fd t t''
Elsewhere-trans fd t t' t'' a b = record {
  sockets = λ j ne. b.sockets j ne ∙ a.sockets j ne;
  peers = λ j ne. b.peers j ne ∙ a.peers j ne;
  capacity = b.capacity ∙ a.capacity;
}

pub update_self : (sockets : ℕ → Socket) (fd : ℕ) (s : Socket) → update sockets fd s fd ≡ s
update_self sockets fd s = rw (same fd) refl
  where
    same : (n : ℕ) → (n == n) ≡ true
    same n = ground arith

pub update-ne :
    (sockets : ℕ → Socket) (fd j : ℕ) (s : Socket) → j ≢ fd → update sockets fd s j ≡ sockets j
update-ne sockets fd j s ne = rw (differs j fd ne) refl
  where
    differs : (m n : ℕ) → m ≢ n → (m == n) ≡ false
    differs m n h = ground (arith, h)

-- The descriptor's socket after a call on it, the others' as they were.
pub update-Elsewhere :
    (fd : ℕ) (s : Socket) (t : Table)
    → Elsewhere fd t (record t { sockets = update t.sockets fd s })
update-Elsewhere fd s t = record {
  sockets = λ j ne. update-ne t.sockets fd j s ne;
  peers = λ j ne. refl;
  capacity = refl;
}

-- An operation on `peers[fd]` whose result is known.
pub on_peer-Served :
    (op : PeerState → Option (FdStatus × PeerState)) (fd : ℕ) (t : Table) (p : PeerState)
    → get_elem? t.peers fd ≡ some p
    → (t.sockets fd).is_open ≡ true
    → Handled (t.sockets fd).got (t.sockets fd).wire (op p)
    → Served fd t (on_peer op t fd)
unfolding on_peer
on_peer-Served op fd t p at live h = record {
  status = h.status;
  after = record t { peers = set t.peers fd h.peer };
  done = rw (at, ◌>>=◌) (rw (h.done, ◌>>=◌) refl);
  live = record {
    is_open = live;
    peer = h.peer;
    slot = get_elem?-set_self t.peers fd h.peer (get_elem?-lt t.peers fd at);
    run = h.run;
    apt = h.apt;
  };
  others = record {
    sockets = λ j ne. refl;
    peers = λ j ne. get_elem?-set_ne t.peers fd j h.peer (λ e. ne (sym e));
    capacity = length-set t.peers fd h.peer;
  };
}

-- A call on the socket of `fd`, and then an operation on `peers[fd]`.
pub on_socket-then_on_peer :
    (call : Socket → Socket) (op : PeerState → Option (FdStatus × PeerState)) (fd : ℕ) (t : Table)
    (p : PeerState)
    → get_elem? t.peers fd ≡ some p
    → (t.sockets fd).is_open ≡ true
    → (call (t.sockets fd)).is_open ≡ true
    → Handled (call (t.sockets fd)).got (call (t.sockets fd)).wire (op p)
    → Served fd t (on_socket call t fd >>= λ t'. on_peer op t' fd)
on_socket-then_on_peer call op fd t p at live still h =
    subst (λ answer. Served fd t (answer >>= λ t'. on_peer op t' fd)) (sym called)
      (record {
        status = r.status;
        after = r.after;
        done = r.done;
        live = r.live;
        others = Elsewhere-trans fd t t' r.after (update-Elsewhere fd s t) r.others;
      })
  where
    s : Socket
    s = call (t.sockets fd)

    t' : Table
    t' = record t { sockets = update t.sockets fd s }

    called : on_socket call t fd ≡ some t'
    called = ap (λ b. if b then some t' else none) live

    same : t'.sockets fd ≡ s
    same = update_self t.sockets fd s

    r : Served fd t' (on_peer op t' fd)
    r =
        on_peer-Served op fd t' p at (ap (λ x. x.is_open) same ∙ still)
          (subst (λ x. Handled x.got x.wire (op p)) (sym same) h)

module _ (fd : ℕ) (t : Table) {status : FdStatus} (l : Live fd status t) where
  abbrev socket : Socket
  socket = t.sockets fd

  -- peer_on_ready_recv on the descriptor of an open connection.
  pub peer_on_ready_recv-Served : (r : RecvResult) → Served fd t (peer_on_ready_recv r t fd)
  unfolding peer_on_ready_recv recv_call
  peer_on_ready_recv-Served r =
      rw (l.slot, ◌>>=◌) (go (recv_room l.peer == 0) refl (on_ready_recv-Handled l.peer l.run r))
    where
      op : PeerState → Option (FdStatus × PeerState)
      op = on_ready_recv (clip_recv (recv_room l.peer) r)

      go :
          (full : Bool)
          → (recv_room l.peer == 0) ≡ full
          → Handled (socket.got ++ heard r l.peer) socket.wire (op l.peer)
          → Served fd t (
              (if full then some t else recv_call (heard r l.peer) t fd) >>= λ t'. on_peer op t' fd)
      go true e h =
          on_peer-Served op fd t l.peer l.slot l.is_open
            (subst (λ g. Handled g socket.wire (op l.peer)) (rw e (append-nil socket.got)) h)
      go false e h =
          on_socket-then_on_peer (λ s. record s { got = s.got ++ heard r l.peer }) op fd t l.peer
            l.slot l.is_open l.is_open h

  -- peer_on_ready_send likewise.
  pub peer_on_ready_send-Served : (s : SendResult) → Served fd t (peer_on_ready_send s t fd)
  unfolding peer_on_ready_send send_call
  peer_on_ready_send-Served s =
      rw (l.slot, ◌>>=◌) (go ((pending l.peer).0 == 0) refl (on_ready_send-Handled l.peer l.run s))
    where
      op : PeerState → Option (FdStatus × PeerState)
      op q = some (on_ready_send (clip_send (pending l.peer).0 s) q)

      go :
          (none_left : Bool)
          → ((pending l.peer).0 == 0) ≡ none_left
          → Handled socket.got (socket.wire ++ told s l.peer) (op l.peer)
          → Served fd t (
              (if none_left then some t else send_call (told s l.peer) t fd) >>= λ t'.
              on_peer op t' fd)
      go true e h =
          on_peer-Served op fd t l.peer l.slot l.is_open
            (subst (λ w. Handled socket.got w (op l.peer)) (rw e (append-nil socket.wire)) h)
      go false e h =
          on_socket-then_on_peer (λ q. record q { wire = q.wire ++ told s l.peer }) op fd t l.peer
            l.slot l.is_open l.is_open h

  -- peer_fail on the descriptor of an open connection.
  pub peer_fail-Served : (reason : CloseReason) → Served fd t (peer_fail reason t fd)
  unfolding peer_fail
  peer_fail-Served reason =
      on_peer-Served (λ p. some (close_with p reason)) fd t l.peer l.slot l.is_open
        (closed l.peer l.run reason)

-- peer_on_connected on a descriptor that accept returned, within the table.
pub peer_on_connected-Served :
    (fd : ℕ) (t : Table)
    → fd < length t.peers
    → ((p : PeerState) → get_elem? t.peers fd ≡ some p → length p.sendbuf ≡ sendbuf_size)
    → Served fd (opened t fd) (peer_on_connected (opened t fd) fd)
unfolding peer_on_connected opened
peer_on_connected-Served fd t in_range sized =
    let (p, at) = get_elem?-some t.peers fd in_range in
    on_peer-Served on_connected fd (opened t fd) p at (ap (λ s. s.is_open) same) (
      subst (λ s. Handled s.got s.wire (on_connected p)) (sym same)
        (on_connected-Handled p (sized p at)))
  where
    same : (opened t fd).sockets fd ≡ record { is_open = true; got = []; wire = [] }
    same = update_self t.sockets fd (record { is_open = true; got = []; wire = [] })
