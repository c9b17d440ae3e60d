-- ===== src/Uring/Admitting.antt =====
-- src/uring_server.c: what the completion of an accept does with the new descriptor.
use concurrent_servers.Prelude.{
  ℕ, ◌<◌, ◌≡◌, ◌≢◌, refl, sym, ap, ◌∙◌, subst, inl, inr, Bool, true, false, [], none, some, ◌>>=◌,
  arith, if◌then◌else◌, Bool-cases, length, ltb,
}
use concurrent_servers.Exec.{done, checked, Ends, completed}
use concurrent_servers.Peer.Table.{Socket, close, update}
use concurrent_servers.Peer.Table.Live.{update_self, update-ne}
use concurrent_servers.Uring.{Uring, maxfds}
use concurrent_servers.Uring.Mine.{mine}
use concurrent_servers.Uring.Arming.{
  Armed, receiving, transmitting, unarmed, Ringing, Loose, Armed-elsewhere, Ringing-of_Armed,
}
use concurrent_servers.Exec.{AcceptResult, accepted, accept_failed}
use concurrent_servers.Peer.Table.{opened, peer_fd_in_range, peer_on_connected}
use concurrent_servers.Peer.Table.Live.{peer_on_connected-Served}
use concurrent_servers.Uring.{call_and_arm, on_accepted}
use concurrent_servers.Uring.Completing.{call_and_arm-Ends}

-- A new descriptor, which is not in use.
module _ (fd : ℕ) (s : Uring) (h : Ringing s) (fresh : (s.table.sockets fd).is_open ≡ false) where
  unused : (j : ℕ) → (s.table.sockets j).is_open ≡ true → j ≢ fd
  unused j live e = clash (ap (λ i. (s.table.sockets i).is_open) e)
    where
      clash : (s.table.sockets j).is_open ≡ (s.table.sockets fd).is_open → ⊥
      clash e' = cc

  ne_listener : fd ≢ s.listener
  ne_listener e = unused s.listener h.listening (sym e)

  nothing_for : Armed s fd → mine fd s.outstanding ≡ []
  nothing_for (receiving p live _ _ _ _) = absurd (unused fd live refl)
  nothing_for (transmitting p live _ _ _ _ _) = absurd (unused fd live refl)
  nothing_for (unarmed _ out) = out

  -- The table's entry for a new descriptor has nothing outstanding.
  opened-Loose : Loose fd (record s { table = opened s.table fd })
  unfolding opened
  opened-Loose = record {
    capacity = h.capacity;
    rows = h.rows;
    small = h.small;
    listening =
        ap (λ x. x.is_open)
          (update-ne s.table.sockets fd s.listener (record { is_open = true; got = []; wire = [] })
            (λ e. ne_listener (sym e)))
        ∙ h.listening;
    accepting = h.accepting;
    sized = h.sized;
    nothing_out = nothing_for (h.watch fd ne_listener);
    not_listener = ne_listener;
    others = λ j other ne'.
        Armed-elsewhere s (record s { table = opened s.table fd }) j
          (update-ne s.table.sockets fd j (record { is_open = true; got = []; wire = [] }) other)
          refl refl refl (h.watch j ne');
  }

  abbrev reopened : ℕ → Socket
  reopened = update s.table.sockets fd (record { is_open = true; got = []; wire = [] })

  abbrev turned_away : Uring
  turned_away = record s {
    table = record (s.table) {
      sockets = update reopened fd (record (reopened fd) { is_open = false });
    };
  }

  -- A connection that the table has no room for is closed at once.
  rejected-Ringing :
      (checked (close (opened s.table fd) fd >>= λ t. some (record s { table = t }))
        ≡ done turned_away)
      × Ringing turned_away
  unfolding close opened
  rejected-Ringing = (
    ap
        (λ b.
          checked
            ((if b then some turned_away.table else none) >>= λ t. some (record s { table = t })))
        (ap (λ x. x.is_open)
          (update_self s.table.sockets fd (record { is_open = true; got = []; wire = [] }))),
    Ringing-of_Armed fd (record s { table = opened s.table fd }) turned_away opened-Loose refl
        h.rows h.capacity h.sized
        (λ j ne. update-ne reopened fd j (record (reopened fd) { is_open = false }) ne)
        (λ j ne. refl) (λ j ne. refl) (λ j ne. refl)
        (unarmed
          (ap (λ x. x.is_open) (update_self reopened fd (record (reopened fd) { is_open = false })))
          (nothing_for (h.watch fd ne_listener))),
  )

  -- A connection that there is room for is greeted.
  greeted-Ends :
      (flushes : Bool)
      → fd < maxfds
      → Ends Ringing
          (flushes ≡ false)
          (call_and_arm flushes fd (peer_on_connected (opened s.table fd) fd) s)
  unfolding call_and_arm
  greeted-Ends flushes in_range =
      call_and_arm-Ends flushes fd (record s { table = opened s.table fd }) opened-Loose
        (peer_on_connected-Served fd s.table (omega (arith, in_range, h.capacity)) (h.sized fd))

pub on_accepted-Ends :
    (flushes : Bool) (a : AcceptResult) (s : Uring)
    → Ringing s
    → ((fd : ℕ) (nonblocking : Bool)
        → a ≡ accepted fd nonblocking
        → (s.table.sockets fd).is_open ≡ false)
    → Ends Ringing (flushes ≡ false) (on_accepted flushes a s)
unfolding on_accepted peer_fd_in_range
on_accepted-Ends flushes (accept_failed e) s h fresh = completed s h
on_accepted-Ends flushes (accepted fd b) s h fresh =
    elim (Bool-cases (ltb fd (length s.table.peers))) [
      | inl within ↦
          rw within
            (greeted-Ends fd s h (fresh fd b refl) flushes (ground (arith, within, h.capacity)))
      | inr beyond ↦
          let (e, ringing) = rejected-Ringing fd s h (fresh fd b refl) in
          rw beyond (
            subst (Ends Ringing (flushes ≡ false)) (sym e)
              (completed (turned_away fd s h (fresh fd b refl)) ringing))
    ]
