-- ===== src/Uring/Life.antt =====
-- src/uring_server.c: completions in any order, from the start on.
use concurrent_servers.Prelude.{
  ℕ, ◌<◌, ◌^◌, ◌≡◌, ◌≢◌, refl, sym, ap, ◌∙◌, subst, inl, inr, Bool, true, false, [], ◌∷◌, ◌++◌,
  Option, none, some, arith, ◌==◌, if◌then◌else◌, Bool-cases, length, get_elem?, get_elem?-lt, pos,
  ltb, ◌%◌, ◌-◌, append-nil,
}
use concurrent_servers.Exec.{done, Ends, completed, gave_up}
use concurrent_servers.Peer.{PeerState, pending}
use concurrent_servers.Peer.Table.{Socket}
use concurrent_servers.Uring.{Uring, Sqe, iobuf_size}
use concurrent_servers.Uring.UserData.{op_accept, op_recv, op_send}
use concurrent_servers.Uring.Mine.{mine, mine-append, mine-own, mine-others}
use concurrent_servers.Uring.Arming.{
  recv_sqe, send_sqe, accept_sqe, Armed, receiving, transmitting, unarmed, Ringing, Loose,
  Armed-elsewhere, submit-cases,
}
use concurrent_servers.Exec.{accepted}
use concurrent_servers.Uring.{
  Kernel, on_peer_completion, without, submitted, complete, queue_accept,
}
use concurrent_servers.Uring.UserData.{unpack_op, unpack_fd, unpack_op-pack}
use concurrent_servers.Uring.Mine.{is_for, mine-without, mine-without_own, none_mine}
use concurrent_servers.Uring.Admitting.{on_accepted-Ends}
use concurrent_servers.Uring.Completing.{on_received-Ends, on_sent-Ends}

-- accept returns a descriptor that is not in use.
abbrev pub IsFreshFor : Kernel → Type 0
IsFreshFor k =
    (sockets : ℕ → Socket) (fd : ℕ) (nonblocking : Bool)
    → k.accepts sockets ≡ accepted fd nonblocking
    → (sockets fd).is_open ≡ false

submitted_at :
    (i : ℕ) (s : Uring) (x : Sqe) → submitted i s ≡ some x → get_elem? s.outstanding i ≡ some x
submitted_at i s x h = elim (Bool-cases (ltb i (length s.outstanding - s.unsubmitted))) [
  | inl out ↦ subst (λ b. (if b then get_elem? s.outstanding i else none) ≡ some x) out h
  | inr queued ↦
      let nothing =
        subst (λ b. (if b then get_elem? s.outstanding i else none) ≡ some x) queued h in
      cc
]

-- The operation of `fd` at `i` has completed.
completed-Loose :
    (fd i : ℕ) (x : Sqe) (s : Uring)
    → Ringing s
    → fd ≢ s.listener
    → get_elem? s.outstanding i ≡ some x
    → is_for fd x ≡ true
    → mine fd (without s.outstanding i) ≡ []
    → Loose fd (record s { outstanding = without s.outstanding i })
completed-Loose fd i x s h ne at own none_left = record {
  capacity = h.capacity;
  rows = h.rows;
  small = h.small;
  listening = h.listening;
  accepting =
      mine-without s.listener s.outstanding i x at (not_for s.listener (λ e. ne (sym e)))
      ∙ h.accepting;
  sized = h.sized;
  nothing_out = none_left;
  not_listener = ne;
  others = λ j other ne'.
      Armed-elsewhere s (record s { outstanding = without s.outstanding i }) j refl refl
        (mine-without j s.outstanding i x at (not_for j other)) refl (h.watch j ne');
}
  where
    not_for : (j : ℕ) → j ≢ fd → is_for j x ≡ false
    not_for j other = apart (x.user_data % 2 ^ 32) j own other
      where
        apart : (n j : ℕ) → (n == fd) ≡ true → j ≢ fd → (n == j) ≡ false
        apart n j own other = ground (arith, own, other)

module _ (k : Kernel) (s : Uring) (h : Ringing s) where
  -- A completion of a peer's descriptor is one of its only operation.
  peer_complete-Ends :
      (fd : ℕ) (x : Sqe)
      → fd ≢ s.listener
      → get_elem? s.outstanding k.which ≡ some x
      → is_for fd x ≡ true
      → Ends Ringing (k.flushes ≡ false) (
          on_peer_completion k
            (unpack_op x.user_data)
            (unpack_fd x.user_data)
            x.len
            (record s { outstanding = without s.outstanding k.which }))
  unfolding on_peer_completion
  peer_complete-Ends fd x ne at own = go (h.watch fd ne)
    where
      s' : Uring
      s' = record s { outstanding = without s.outstanding k.which }

      small : {p : PeerState} → get_elem? s.table.peers fd ≡ some p → fd < 2 ^ 31
      small slot = omega (arith, get_elem?-lt s.table.peers fd slot, h.capacity)

      go :
          Armed s fd
          → Ends Ringing
              (k.flushes ≡ false)
              (on_peer_completion k (unpack_op x.user_data) (unpack_fd x.user_data) x.len s')
      go (unarmed _ none_out) = absurd (none_mine fd s.outstanding k.which x at own none_out)
      go (receiving p live slot run room out) =
          let (is_it, none_left) =
            mine-without_own fd s.outstanding k.which x (recv_sqe fd iobuf_size) at own out in
          let (op, same) = unpack_op-pack op_recv (pos fd) (small slot) in
          subst
            (λ y.
              Ends Ringing (k.flushes ≡ false)
                (on_peer_completion k (unpack_op y.user_data) (unpack_fd y.user_data) y.len s'))
            (sym is_it)
            (rw (op, same)
              (on_received-Ends k.flushes fd s'
                (completed-Loose fd k.which x s h ne at own none_left) p live slot run k.recvs
                room))
      go (transmitting p live slot run some_left out copy) =
          let (is_it, none_left) =
            mine-without_own fd s.outstanding k.which x (send_sqe fd (pending p).0) at own out in
          let (op, same) = unpack_op-pack op_send (pos fd) (small slot) in
          subst
            (λ y.
              Ends Ringing (k.flushes ≡ false)
                (on_peer_completion k (unpack_op y.user_data) (unpack_fd y.user_data) y.len s'))
            (sym is_it)
            (rw (op, same)
              (on_sent-Ends k.flushes fd s' (completed-Loose fd k.which x s h ne at own none_left) p
                live slot run k.sends some_left copy))

module _ (k : Kernel) (s : Uring) (h : Ringing s) (fresh : IsFreshFor k) where
  -- The listener is armed again before the new connection is looked at.
  accept_complete-Ends :
      (x : Sqe)
      → get_elem? s.outstanding k.which ≡ some x
      → is_for s.listener x ≡ true
      → Ends Ringing (k.flushes ≡ false) (
          on_peer_completion k
            (unpack_op x.user_data)
            (unpack_fd x.user_data)
            x.len
            (record s { outstanding = without s.outstanding k.which }))
  unfolding on_peer_completion queue_accept
  accept_complete-Ends x at own =
      let (is_it, none_left) =
        mine-without_own s.listener s.outstanding k.which x (accept_sqe s.listener) at own
          h.accepting in
      let (op, same) = unpack_op-pack op_accept (pos s.listener) h.small in
      subst
        (λ y.
          Ends Ringing (k.flushes ≡ false)
            (on_peer_completion k (unpack_op y.user_data) (unpack_fd y.user_data) y.len s'))
        (sym is_it)
        (rw op (elim (submit-cases k.flushes (accept_sqe s.listener) s') [
          | inr (cannot, e) ↦ rw e (gave_up cannot)
          | inl (n, e) ↦ rw e (
              on_accepted-Ends k.flushes (k.accepts s.table.sockets) (again n)
                (again-Ringing n none_left) (λ fd b e'. fresh s.table.sockets fd b e'))
        ]))
    where
      s' : Uring
      s' = record s { outstanding = without s.outstanding k.which }

      again : ℕ → Uring
      again n = record s {
        outstanding = without s.outstanding k.which ++ (accept_sqe s.listener ∷ []);
        unsubmitted = n;
      }

      not_for : (j : ℕ) → j ≢ s.listener → is_for j x ≡ false
      not_for j other = apart (x.user_data % 2 ^ 32) j own other
        where
          apart : (n j : ℕ) → (n == s.listener) ≡ true → j ≢ s.listener → (n == j) ≡ false
          apart n j own other = ground (arith, own, other)

      again-Ringing :
          (n : ℕ) → mine s.listener (without s.outstanding k.which) ≡ [] → Ringing (again n)
      again-Ringing n none_left = record {
        capacity = h.capacity;
        rows = h.rows;
        small = h.small;
        listening = h.listening;
        accepting =
            mine-append s.listener (without s.outstanding k.which) (accept_sqe s.listener)
            ∙ ap (λ xs. xs ++ mine s.listener (accept_sqe s.listener ∷ [])) none_left
            ∙ mine-own op_accept s.listener 0 h.small;
        sized = h.sized;
        watch = λ j ne.
            Armed-elsewhere s (again n) j refl refl
              (mine-append j (without s.outstanding k.which) (accept_sqe s.listener)
                ∙ ap (λ xs. mine j (without s.outstanding k.which) ++ xs)
                    (mine-others op_accept s.listener 0 j h.small ne)
                ∙ append-nil (mine j (without s.outstanding k.which))
                ∙ mine-without j s.outstanding k.which x at (not_for j ne))
              refl (h.watch j ne);
      }

  pub complete-Ends : Ends Ringing (k.flushes ≡ false) (complete k s)
  unfolding complete
  complete-Ends = go (submitted k.which s) refl
    where
      go :
          (o : Option Sqe)
          → submitted k.which s ≡ o
          → Ends Ringing (k.flushes ≡ false) (elim o [
            | none ↦ done s
            | some sqe ↦
                on_peer_completion k
                  (unpack_op sqe.user_data)
                  (unpack_fd sqe.user_data)
                  sqe.len
                  (record s { outstanding = without s.outstanding k.which })
          ])
      go none at = completed s h
      go (some x) at = elim (Bool-cases (x.user_data % 2 ^ 32 == s.listener)) [
        | inl listens ↦ accept_complete-Ends x (submitted_at k.which s x at) listens
        | inr other ↦
            peer_complete-Ends k s h (x.user_data % 2 ^ 32) x (differs (x.user_data % 2 ^ 32) other)
              (submitted_at k.which s x at) (itself (x.user_data % 2 ^ 32))
      ]
        where
          differs : (n : ℕ) → (n == s.listener) ≡ false → n ≢ s.listener
          differs n e = ground (arith, e)

          itself : (n : ℕ) → (n == n) ≡ true
          itself n = ground arith
