-- ===== src/Epoll/Accepting.antt =====
-- What src/epoll_server.c does with a new connection.
use concurrent_servers.Prelude.{
  ℕ, ◌<◌, ◌≡◌, ◌≢◌, refl, sym, ap, ◌∙◌, subst, inl, inr, ◌⊎◌, Bool, true, false, List, [], ◌∷◌,
  none, some, ◌>>=◌, arith, ltb, if◌then◌else◌, Bool-cases, length, All,
}
use concurrent_servers.Sys.{eintr, Errno}
use concurrent_servers.Exec.{
  done, died, ◌⟫=◌, checked, AcceptResult, accepted, accept_failed, is_passing, EndsLoop,
  not_passing, Ends, completed, gave_up,
}
use concurrent_servers.Peer.Table.{
  Socket, close, opened, update, peer_fd_in_range, peer_on_connected,
}
use concurrent_servers.Peer.Table.Live.{
  update_self, update-ne, update-Elsewhere, Elsewhere-trans, peer_on_connected-Served,
}
use concurrent_servers.Epoll.{
  Epoll, maxfds, epoll_add, Event, wait_failed, reported, Kernel, admit, accept_peer,
}
use concurrent_servers.Epoll.Interest.{
  Entered, entered, left_out, Polling, Advance, Entered-elsewhere, everywhere, epoll_add-Advance,
}

-- No descriptor is reported twice in one answer.
abbrev pub Distinct : List Event → Type 0
Distinct [] = Unit
Distinct (e ∷ es) = All (λ e'. e'.fd ≢ e.fd) es × Distinct es

-- What epoll_wait and accept document: an answer has a descriptor at most once, and a new descriptor is
-- not in use.
pub record IsHonest (k : Kernel) : Type 0 where
  pub distinct : (es : List Event) → k.waits ≡ reported es → Distinct es
  pub fresh :
      (sockets : ℕ → Socket) (fd : ℕ) (nonblocking : Bool)
      → k.accepts sockets ≡ accepted fd nonblocking
      → (sockets fd).is_open ≡ false

-- A call failed that ends the process in a way that is no peer's doing.
pub data FatalCall (k : Kernel) : Type 0 where
  wait_fatal : (e : Errno) → k.waits ≡ wait_failed e → e ≢ eintr → FatalCall k
  accept_fatal :
      (sockets : ℕ → Socket) (e : Errno)
      → k.accepts sockets ≡ accept_failed e
      → EndsLoop e
      → FatalCall k
  fcntl_fatal :
      (sockets : ℕ → Socket) (fd : ℕ) → k.accepts sockets ≡ accepted fd false → FatalCall k
  watch_fatal : k.watches ≡ false → FatalCall k

-- An error is reported on the listener.
abbrev pub ErrorOn : ℕ → List Event → Type 0
ErrorOn listener [] = ⊥
ErrorOn listener (e ∷ es) = ((e.has_error ≡ true) × (e.fd ≡ listener)) ⊎ ErrorOn listener es

module _ (fd : ℕ) (s : Epoll) (polling : Polling s)
    (fresh : (s.table.sockets fd).is_open ≡ false) where
  not_fresh : (j : ℕ) → (s.table.sockets j).is_open ≡ true → j ≢ fd
  not_fresh j h e = clash (ap (λ i. (s.table.sockets i).is_open) e)
    where
      clash : (s.table.sockets j).is_open ≡ (s.table.sockets fd).is_open → ⊥
      clash h' = cc

  not_listener : fd ≢ s.listener
  not_listener e = not_fresh s.listener polling.listening (sym e)

  not-Entered : Entered s fd → s.interest fd ≡ none
  not-Entered (entered status l _) = absurd (not_fresh fd l.is_open refl)
  not-Entered (left_out _ out) = out

  abbrev reopened : ℕ → Socket
  reopened = update s.table.sockets fd (record { is_open = true; got = []; wire = [] })

  abbrev turned_away : Epoll
  turned_away = record s {
    table = record (s.table) {
      sockets = update reopened fd (record (reopened fd) { is_open = false });
    };
  }

  turned_away-sockets : (j : ℕ) → j ≢ fd → turned_away.table.sockets j ≡ s.table.sockets j
  turned_away-sockets j ne =
      update-ne reopened fd j (record (reopened fd) { is_open = false }) ne
      ∙ update-ne s.table.sockets fd j (record { is_open = true; got = []; wire = [] }) ne

  -- A connection that the table has no room for is closed at once.
  rejected-Advance :
      (checked (close (opened s.table fd) fd >>= λ t. some (record s { table = t }))
        ≡ done turned_away)
      × Advance s.listener s turned_away
  unfolding close opened
  rejected-Advance = (
    ap
        (λ b.
          checked
            ((if b then some turned_away.table else none) >>= λ t. some (record s { table = t })))
        (ap (λ x. x.is_open)
          (update_self s.table.sockets fd (record { is_open = true; got = []; wire = [] }))),
    record {
      polling = record {
        capacity = polling.capacity;
        listening =
            ap (λ x. x.is_open) (turned_away-sockets s.listener (λ e. not_listener (sym e)))
            ∙ polling.listening;
        awaited = polling.awaited;
        sized = polling.sized;
        watch =
            everywhere turned_away fd
              (left_out
                (ap (λ x. x.is_open)
                  (update_self reopened fd (record (reopened fd) { is_open = false })))
                (not-Entered (polling.watch fd not_listener)))
              (λ j other ne.
                Entered-elsewhere s turned_away j (turned_away-sockets j other) refl refl
                  (polling.watch j ne));
      };
      same_listener = refl;
      opens = λ j ne h. ap (λ x. x.is_open) (turned_away-sockets j (not_fresh j h)) ∙ h;
    },
  )

  -- A connection that there is room for is served from here on.
  admitted-Advance :
      fd < maxfds
      → (s' : Epoll) × ((checked (peer_on_connected (opened s.table fd) fd) ⟫= λ r.
            epoll_add true fd r.0 (record s { table = r.1 }))
          ≡ done s')
        × Advance s.listener s s'
  unfolding opened
  admitted-Advance in_range =
      let r =
        peer_on_connected-Served fd s.table (omega (arith, in_range, polling.capacity))
          (polling.sized fd) in
      let e =
        Elsewhere-trans fd s.table (opened s.table fd) r.after
          (update-Elsewhere fd (record { is_open = true; got = []; wire = [] }) s.table) r.others in
      let (adds, a) =
        epoll_add-Advance fd r.status s polling not_listener r.after r.live e
          (not-Entered (polling.watch fd not_listener)) in
      (
        _,
        rw r.done adds,
        record {
          polling = a.polling;
          same_listener = refl;
          opens = λ j _ h. a.opens j (not_fresh j h) h;
        },
      )

  -- Without memory for the entry the process ends.
  unwatched_lem :
      fd < maxfds
      → (checked (peer_on_connected (opened s.table fd) fd) ⟫= λ r.
          epoll_add false fd r.0 (record s { table = r.1 }))
        ≡ died
  unfolding epoll_add
  unwatched_lem in_range =
      let r =
        peer_on_connected-Served fd s.table (omega (arith, in_range, polling.capacity))
          (polling.sized fd) in
      rw (r.done, not-Entered (polling.watch fd not_listener)) refl

module _ (k : Kernel) (honest : IsHonest k) (s : Epoll) (polling : Polling s) where
  -- What accept comes to, whatever it returns.
  pub accept_peer-Ends :
      Ends (Advance s.listener s) (FatalCall k) (accept_peer k (k.accepts s.table.sockets) s)
  unfolding accept_peer admit peer_fd_in_range
  accept_peer-Ends = go (k.accepts s.table.sockets) refl
    where
      unchanged : Advance s.listener s s
      unchanged = record { polling = polling; same_listener = refl; opens = λ j ne h. h }

      room :
          (fd : ℕ) (nonblocking watches : Bool)
          → k.accepts s.table.sockets ≡ accepted fd nonblocking
          → k.watches ≡ watches
          → ltb fd (length s.table.peers) ≡ true
          → Ends (Advance s.listener s) (FatalCall k) (
              if nonblocking
              then (checked (peer_on_connected (opened s.table fd) fd) ⟫= λ r.
                  epoll_add watches fd r.0 (record s { table = r.1 }))
              else died)
      room fd false watches h w within = gave_up (fcntl_fatal s.table.sockets fd h)
      room fd true false h w within =
          rw
            (unwatched_lem fd s polling (honest.fresh s.table.sockets fd true h)
              (ground (arith, within, polling.capacity)))
            (gave_up (watch_fatal w))
      room fd true true h w within =
          let (s', e, a) =
            admitted-Advance fd s polling (honest.fresh s.table.sockets fd true h)
              (ground (arith, within, polling.capacity)) in
          rw e (completed s' a)

      go :
          (a : AcceptResult)
          → k.accepts s.table.sockets ≡ a
          → Ends (Advance s.listener s) (FatalCall k) (accept_peer k a s)
      go (accept_failed e) h = elim (Bool-cases (is_passing e)) [
        | inl passing ↦ rw passing (completed s unchanged)
        | inr fatal ↦ rw fatal (gave_up (accept_fatal s.table.sockets e h (not_passing e fatal)))
      ]
      go (accepted fd nonblocking) h = elim (Bool-cases (ltb fd (length s.table.peers))) [
        | inr beyond ↦
            let (e, a) =
              rejected-Advance fd s polling (honest.fresh s.table.sockets fd nonblocking h) in
            rw beyond (
              subst (Ends (Advance s.listener s) (FatalCall k)) (sym e) (
                completed (turned_away fd s polling (honest.fresh s.table.sockets fd nonblocking h))
                  a))
        | inl within ↦ rw within (room fd nonblocking k.watches h refl within)
      ]
