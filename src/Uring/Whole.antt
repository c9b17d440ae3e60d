-- ===== src/Uring/Whole.antt =====
-- src/uring_server.c as a whole: its start, and any rounds of its loop.
use concurrent_servers.Prelude.{
  get_elem?-replicate, ℕ, ◌<◌, ◌^◌, ◌≡◌, refl, ap, ◌∙◌, inl, inr, ◌⊎◌, Bool, true, false, not, ◌||◌,
  List, [], ◌∷◌, arith, ◌==◌, if◌then◌else◌, Bool-cases, length, ltb, ltb→lt, All,
}
use concurrent_servers.Exec.{died, ◌⟫=◌, Ends, completed, gave_up, Ends-bind}
use concurrent_servers.Peer.{sendbuf_size}
use concurrent_servers.Uring.{Uring, maxfds, iobuf_size, submit}
use concurrent_servers.Uring.UserData.{op_accept}
use concurrent_servers.Uring.Mine.{mine-own, mine-others}
use concurrent_servers.Uring.Arming.{accept_sqe, unarmed, Ringing, Armed-elsewhere}
use concurrent_servers.Exec.{Ends-because}
use concurrent_servers.Uring.{Kernel, complete, queue_accept}
use concurrent_servers.Peer.Table.{peer_state_init, zeroed_peer}
use concurrent_servers.Uring.{
  completions, start, submit_all, WaitResult, wait_failed, posted, Round, drain, serve_round,
  serve_rounds,
}
use concurrent_servers.Sys.{Errno, is_eintr}
use concurrent_servers.Sockets.{Listen, Refused, listen_inet_socket, listen_inet_socket-Ends}
use concurrent_servers.Peer.Table.{zeroed_peer}
use concurrent_servers.Prelude.{replicate, length-replicate, none, some}
use concurrent_servers.Uring.Life.{IsFreshFor, complete-Ends}

pub data SomeStuck : List Kernel → Type 0 where
  stuck_now : {k : Kernel} {ks : List Kernel} → k.flushes ≡ false → SomeStuck (k ∷ ks)
  stuck_later : {k : Kernel} {ks : List Kernel} → SomeStuck ks → SomeStuck (k ∷ ks)

completions-Ends :
    (ks : List Kernel) (s : Uring)
    → Ringing s
    → All IsFreshFor ks
    → Ends Ringing (SomeStuck ks) (completions ks s)
unfolding completions
completions-Ends [] s h fresh = completed s h
completions-Ends (k ∷ ks) s h fresh =
    Ends-bind (complete k s) (completions ks) (Ends-because (complete-Ends k s h fresh.0) stuck_now)
      (λ s' h'. Ends-because (completions-Ends ks s' h' fresh.1) stuck_later)

-- Why a round ends the process.
pub data Halts : List Round → Type 0 where
  wait_dies :
      {r : Round} {rs : List Round} (e : Errno)
      → r.waits ≡ wait_failed e
      → is_eintr e ≡ false
      → Halts (r ∷ rs)
  stuck_in :
      {r : Round} {rs : List Round} (ks : List Kernel)
      → r.waits ≡ posted ks
      → SomeStuck ks
      → Halts (r ∷ rs)
  halts_later : {r : Round} {rs : List Round} → Halts rs → Halts (r ∷ rs)

abbrev pub IsFreshIn : WaitResult → Type 0
IsFreshIn (wait_failed e) = Unit
IsFreshIn (posted ks) = All IsFreshFor ks

abbrev pub IsFreshRound : Round → Type 0
IsFreshRound r = IsFreshIn r.waits

submit_all-Ringing : (taken : Bool) (s : Uring) → Ringing s → Ringing (submit_all taken s)
unfolding submit_all
submit_all-Ringing false s h = h
submit_all-Ringing true s h = record {
  capacity = h.capacity;
  rows = h.rows;
  small = h.small;
  listening = h.listening;
  accepting = h.accepting;
  sized = h.sized;
  watch = λ fd ne.
      Armed-elsewhere s (record s { unsubmitted = 0 }) fd refl refl refl refl (h.watch fd ne);
}

drain-Ends :
    (r : Round) (rs : List Round) (w : WaitResult) (s : Uring)
    → r.waits ≡ w
    → Ringing s
    → IsFreshIn w
    → Ends Ringing (Halts (r ∷ rs)) (drain w s)
unfolding drain
drain-Ends r rs (wait_failed e) s is h fresh = elim (Bool-cases (is_eintr e)) [
  | inl again ↦ rw again (completed s h)
  | inr over ↦ rw over (gave_up (wait_dies e is over))
]
drain-Ends r rs (posted ks) s is h fresh =
    Ends-because (completions-Ends ks s h fresh) (stuck_in ks is)

serve_rounds-Ends :
    (rs : List Round) (s : Uring)
    → Ringing s
    → All IsFreshRound rs
    → Ends Ringing (Halts rs) (serve_rounds rs s)
unfolding serve_rounds serve_round
serve_rounds-Ends [] s h fresh = completed s h
serve_rounds-Ends (r ∷ rs) s h fresh =
    Ends-bind (drain r.waits (submit_all r.taken s)) (serve_rounds rs)
      (drain-Ends r rs r.waits (submit_all r.taken s) refl (submit_all-Ringing r.taken s h) fresh.0)
      (λ s' h'. Ends-because (serve_rounds-Ends rs s' h' fresh.1) halts_later)

-- What ends the start: a queue of less than 8 slots, no memory for the table or for the rows, no ring,
-- or no listening socket.
pub data Unready (has_memory has_rows has_ring : Bool) (depth : ℕ) (listen : Listen) : Type 0 where
  shallow : depth < 8 → Unready has_memory has_rows has_ring depth listen
  no_table : has_memory ≡ false → Unready has_memory has_rows has_ring depth listen
  no_rows : has_rows ≡ false → Unready has_memory has_rows has_ring depth listen
  no_ring : has_ring ≡ false → Unready has_memory has_rows has_ring depth listen
  no_listener : Refused listen → Unready has_memory has_rows has_ring depth listen

module _ (depth listener : ℕ) (small : listener < 2 ^ 31) where
  begun : Uring
  begun = record {
    table = record {
      peers = replicate maxfds zeroed_peer;
      sockets = λ fd. record { is_open = fd == listener; got = []; wire = [] };
    };
    listener = listener;
    iobufs = λ fd. replicate iobuf_size 0;
    outstanding = accept_sqe listener ∷ [];
    unsubmitted = 1;
    depth = depth;
  }

  begun-Ringing : Ringing begun
  unfolding begun
  begun-Ringing = record {
    capacity = length-replicate maxfds zeroed_peer;
    rows = λ fd. length-replicate {A = ℕ} iobuf_size 0;
    small = small;
    listening = ground arith;
    accepting = mine-own op_accept listener 0 small;
    sized = λ fd p at.
        ap (λ q. length q.sendbuf) (get_elem?-replicate maxfds fd zeroed_peer p at)
        ∙ length-replicate {A = ℕ} sendbuf_size 0;
    watch = λ fd ne. unarmed (ground (arith, ne)) (mine-others op_accept listener 0 fd small ne);
  }

  -- The queue has room for the first accept.
  queue_accept-Ringing :
      {Why : Type 0}
      → ltb depth 8 ≡ false
      → Ends Ringing Why (queue_accept false (record begun { outstanding = []; unsubmitted = 0 }))
  unfolding queue_accept submit begun
  queue_accept-Ringing e =
      let some_room : (0 == depth) ≡ false = ground (arith, e) in
      rw some_room (completed _ begun-Ringing)

start-Ringing :
    (has_memory has_rows has_ring : Bool) (depth : ℕ) (listen : Listen)
    → ((fd : ℕ) → listen.socket ≡ some fd → fd < 2 ^ 31)
    → Ends Ringing
        (Unready has_memory has_rows has_ring depth listen)
        (start has_memory has_rows has_ring depth listen)
unfolding start peer_state_init begun
start-Ringing has_memory has_rows has_ring depth listen small = elim (Bool-cases (ltb depth 8)) [
  | inl few ↦ rw few (gave_up (shallow (ltb→lt depth 8 few)))
  | inr enough ↦ rw enough (go has_memory has_rows has_ring enough)
]
  where
    go :
        (has_memory has_rows has_ring : Bool)
        → ltb depth 8 ≡ false
        → Ends Ringing
            (Unready has_memory has_rows has_ring depth listen)
            (elim (if has_memory then some (replicate maxfds zeroed_peer) else none) [
              | none ↦ died
              | some peers ↦
                  if not has_rows || not has_ring
                  then died
                  else (listen_inet_socket listen ⟫= λ listener. queue_accept false (record {
                    table = record {
                      peers = peers;
                      sockets = λ fd. record { is_open = fd == listener; got = []; wire = [] };
                    };
                    listener = listener;
                    iobufs = λ fd. replicate iobuf_size 0;
                    outstanding = [];
                    unsubmitted = 0;
                    depth = depth;
                  }))
            ])
    go false has_rows has_ring e = gave_up (no_table refl)
    go true false has_ring e = gave_up (no_rows refl)
    go true true false e = gave_up (no_ring refl)
    go true true true e =
        Ends-bind _ _ (Ends-because (listen_inet_socket-Ends listen) no_listener)
          (λ listener h. queue_accept-Ringing depth listener (small listener h) e)

-- The io_uring server, from its start through any rounds of its loop with any completions in any
-- order: no access is out of bounds, no call is on a descriptor that is not open, and the process ends
-- only with a queue of less than 8 slots, for want of memory, of a ring or of a listening socket, with
-- a submission queue that cannot be flushed, or with a wait that fails and was not interrupted.
-- Throughout, every open connection has exactly one operation outstanding (so that nothing writes to its
-- row of `iobufs` meanwhile): a recv into a whole row with nothing left to send, or a send of a copy of
-- all that is pending; the listener has its accept outstanding; and what a peer has been sent follows
-- from what it has sent. The descriptor that socket gives is an int, and accept returns descriptors that
-- are not in use.
pub serve_rounds-Ringing :
    (has_memory has_rows has_ring : Bool) (depth : ℕ) (listen : Listen) (rs : List Round)
    → ((fd : ℕ) → listen.socket ≡ some fd → fd < 2 ^ 31)
    → All IsFreshRound rs
    → Ends Ringing
        (Unready has_memory has_rows has_ring depth listen ⊎ Halts rs)
        (start has_memory has_rows has_ring depth listen ⟫= serve_rounds rs)
serve_rounds-Ringing has_memory has_rows has_ring depth listen rs small fresh =
    Ends-bind (start has_memory has_rows has_ring depth listen) (serve_rounds rs)
      (Ends-because (start-Ringing has_memory has_rows has_ring depth listen small) inl)
      (λ s h. Ends-because (serve_rounds-Ends rs s h fresh) inr)
