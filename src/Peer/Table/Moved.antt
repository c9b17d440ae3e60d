-- ===== src/Peer/Table/Moved.antt =====
-- The calls of src/peer_state.c for bytes that the kernel has moved before, as with io_uring.
use concurrent_servers.Prelude.{
  ℕ, ◌≤◌, ◌≡◌, ◌≢◌, take, List, refl, sym, ap, ◌∙◌, subst, true, [], ◌++◌, Option, none, some,
  if◌then◌else◌, length, get_elem?,
}
use concurrent_servers.Peer.{PeerState, FdStatus, recv_room, pending, consume, sent}
use concurrent_servers.Peer.Runs.{Run, Handled, consume-Handled, sent-Handled}
use concurrent_servers.Peer.Table.{
  Socket, Table, update, on_peer, peer_consume, peer_sent, on_socket, recv_call, send_call,
}
use concurrent_servers.Peer.Table.Live.{
  Elsewhere, Served, update_self, update-Elsewhere, on_peer-Served,
}

-- The calls that the loop of io_uring makes: the socket has moved the bytes before the parser is told.
module _ (fd : ℕ) (t : Table) (p : PeerState) (live : (t.sockets fd).is_open ≡ true)
    (slot : get_elem? t.peers fd ≡ some p)
    (run : Run (t.sockets fd).got (t.sockets fd).wire p) where
  abbrev moved : Socket → Table
  moved s = record t { sockets = update t.sockets fd s }

  open_call : (call : Socket → Socket) → on_socket call t fd ≡ some (moved (call (t.sockets fd)))
  open_call call = ap (λ b. if b then some (moved (call (t.sockets fd))) else none) live

  -- After the call, an operation whose result is known.
  moved-Served :
      (op : PeerState → Option (FdStatus × PeerState)) (s : Socket)
      → s.is_open ≡ true
      → Handled s.got s.wire (op p)
      → Served fd (moved s) (on_peer op (moved s) fd)
  moved-Served op s still h =
      on_peer-Served op fd (moved s) p slot (ap (λ x. x.is_open) same ∙ still)
        (subst (λ x. Handled x.got x.wire (op p)) (sym same) h)
    where
      same : (moved s).sockets fd ≡ s
      same = update_self t.sockets fd s

  pub peer_consume-Served :
      (bytes : List ℕ)
      → bytes ≢ []
      → length bytes ≤ recv_room p
      → (t' : Table) × (recv_call bytes t fd ≡ some t')
        × Served fd t' (peer_consume bytes t' fd)
        × Elsewhere fd t t'
        × (t'.peers ≡ t.peers)
  unfolding recv_call peer_consume
  peer_consume-Served bytes some_bytes fits = (
    moved (record (t.sockets fd) { got = (t.sockets fd).got ++ bytes }),
    open_call (λ s. record s { got = s.got ++ bytes }),
    moved-Served (λ q. consume q bytes)
        (record (t.sockets fd) { got = (t.sockets fd).got ++ bytes }) live
        (consume-Handled p run bytes some_bytes fits),
    update-Elsewhere fd (record (t.sockets fd) { got = (t.sockets fd).got ++ bytes }) t,
    refl,
  )

  pub peer_sent-Served :
      (n : ℕ)
      → n ≤ (pending p).0
      → (t' : Table) × (send_call (take n (pending p).1) t fd ≡ some t')
        × Served fd t' (peer_sent n t' fd)
        × Elsewhere fd t t'
        × (t'.peers ≡ t.peers)
  unfolding send_call peer_sent
  peer_sent-Served n le = (
    moved (record (t.sockets fd) { wire = (t.sockets fd).wire ++ take n (pending p).1 }),
    open_call (λ s. record s { wire = s.wire ++ take n (pending p).1 }),
    moved-Served (λ q. some (sent q n))
        (record (t.sockets fd) { wire = (t.sockets fd).wire ++ take n (pending p).1 }) live
        (sent-Handled p run n le),
    update-Elsewhere fd
        (record (t.sockets fd) { wire = (t.sockets fd).wire ++ take n (pending p).1 }) t,
    refl,
  )
