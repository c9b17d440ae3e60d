-- ===== src/Select/Accepting.antt =====
-- What src/select_server.c does with a new connection, and the verdicts on the others.
use concurrent_servers.Prelude.{
  ℕ, ◌≤◌, ◌<◌, ◌≡◌, ◌≢◌, refl, sym, ap, ◌∙◌, subst, inl, inr, Bool, true, false, not, ◌||◌, [],
  Option, none, some, ◌>>=◌, arith, ◌==◌, ltb, leb, if◌then◌else◌, Bool-cases, length,
}
use concurrent_servers.Sys.{eintr, Errno}
use concurrent_servers.Exec.{
  done, died, checked, AcceptResult, accepted, accept_failed, is_passing, EndsLoop, not_passing,
  Ends, completed, gave_up,
}
use concurrent_servers.Peer.{FdStatus}
use concurrent_servers.Peer.Table.{
  Table, Socket, close, opened, update, peer_fd_in_range, peer_on_connected,
}
use concurrent_servers.Peer.Table.Live.{
  Served, update_self, update-ne, update-Elsewhere, Elsewhere-trans, peer_on_connected-Served,
}
use concurrent_servers.Select.{
  Select, apply_status, maxfds, fd_setsize, Kernel, select_failed, admit, accept_peer,
}
use concurrent_servers.Select.Watch.{
  Watched-elsewhere, Watched, watched, free, Serving, Applied, apply_status-Applied,
}

-- From `s` to `s'`, no descriptor was closed but `fd`.
pub record Progress (fd : ℕ) (s s' : Select) : Type 0 where
  pub serving : Serving s'
  pub same_listener : s'.listener ≡ s.listener
  pub opens :
      (j : ℕ) → j ≢ fd → (s.table.sockets j).is_open ≡ true → (s'.table.sockets j).is_open ≡ true

-- accept returns a descriptor that is not in use.
abbrev pub IsFresh : Kernel → Type 0
IsFresh k =
    (sockets : ℕ → Socket) (fd : ℕ) (nonblocking : Bool)
    → k.accepts sockets ≡ accepted fd nonblocking
    → (sockets fd).is_open ≡ false

-- What ends the process: select, accept or fcntl failed in a way that is no peer's doing.
pub data Fatal (k : Kernel) : Type 0 where
  select_fatal : (e : Errno) → k.selects ≡ select_failed e → e ≢ eintr → Fatal k
  accept_fatal :
      (sockets : ℕ → Socket) (e : Errno)
      → k.accepts sockets ≡ accept_failed e
      → EndsLoop e
      → Fatal k
  fcntl_fatal : (sockets : ℕ → Socket) (fd : ℕ) → k.accepts sockets ≡ accepted fd false → Fatal k

-- The verdict on an open connection is applied.
pub verdict-Applied :
    (fd : ℕ) (s : Select) {answer : Option (FdStatus × Table)}
    → Serving s
    → fd ≢ s.listener
    → fd ≤ s.fdset_max
    → (r : Served fd s.table answer)
    → Applied fd r.status s (apply_status fd r.status (record s { table = r.after }))
verdict-Applied fd s serving ne le r =
    apply_status-Applied fd r.status s r.after s.fdset_max serving ne r.live r.others le
      (omega arith) serving.high

pub Applied-Progress :
    (fd : ℕ) {status : FdStatus} (s : Select) {answer : Option Select}
    → (a : Applied fd status s answer) → Progress fd s a.after
Applied-Progress fd s a = record {
  serving = a.serving;
  same_listener = a.same_listener;
  opens = λ j ne h. ap (λ x. x.is_open) (a.others j ne) ∙ h;
}

module _ (fd : ℕ) (s : Select) (serving : Serving s)
    (fresh : (s.table.sockets fd).is_open ≡ false) where
  not_listener : fd ≢ s.listener
  not_listener e = clash (ap (λ j. (s.table.sockets j).is_open) e) serving.listening
    where
      clash :
          (s.table.sockets fd).is_open ≡ (s.table.sockets s.listener).is_open
          → (s.table.sockets s.listener).is_open ≡ true
          → ⊥
      clash h h' = cc

  not_fresh : (j : ℕ) → (s.table.sockets j).is_open ≡ true → j ≢ fd
  not_fresh j h e = clash (ap (λ i. (s.table.sockets i).is_open) e)
    where
      clash : (s.table.sockets j).is_open ≡ (s.table.sockets fd).is_open → ⊥
      clash h' = cc

  abbrev reopened : ℕ → Socket
  reopened = update s.table.sockets fd (record { is_open = true; got = []; wire = [] })

  abbrev turned_away : Select
  turned_away = record s {
    table = record (s.table) {
      sockets = update reopened fd (record (reopened fd) { is_open = false });
    };
  }

  turned_away-sockets : (j : ℕ) → j ≢ fd → turned_away.table.sockets j ≡ s.table.sockets j
  turned_away-sockets j ne =
      update-ne reopened fd j (record (reopened fd) { is_open = false }) ne
      ∙ update-ne s.table.sockets fd j (record { is_open = true; got = []; wire = [] }) ne

  turned_away_watch : (j : ℕ) → j ≢ s.listener → Watched turned_away j
  turned_away_watch j ne = elim (Bool-cases (j == fd)) [
    | inl same ↦
        subst (Watched turned_away) (sym (is_fd same)) (shut (serving.watch fd not_listener))
    | inr other ↦
        Watched-elsewhere s turned_away j (turned_away-sockets j (not_fd other)) refl refl refl
          (omega arith) (serving.watch j ne)
  ]
    where
      is_fd : (j == fd) ≡ true → j ≡ fd
      is_fd h = ground (arith, h)

      not_fd : (j == fd) ≡ false → j ≢ fd
      not_fd h = ground (arith, h)

      shut : Watched s fd → Watched turned_away fd
      shut (watched status l _ _ _) = absurd (not_fresh fd l.is_open refl)
      shut (free _ e e') =
          free
            (ap (λ x. x.is_open)
              (update_self reopened fd (record (reopened fd) { is_open = false })))
            e e'

  -- A connection that the table or the sets have no room for is closed at once.
  rejected-Progress :
      (checked (close (opened s.table fd) fd >>= λ t. some (record s { table = t }))
        ≡ done turned_away)
      × Progress s.listener s turned_away
  unfolding close opened
  rejected-Progress = (
    ap
        (λ b.
          checked
            ((if b then some turned_away.table else none) >>= λ t. some (record s { table = t })))
        still_open,
    record {
      serving = record {
        capacity = serving.capacity;
        reads = serving.reads;
        writes = serving.writes;
        listening =
            ap (λ x. x.is_open) (turned_away-sockets s.listener (λ e. not_listener (sym e)))
            ∙ serving.listening;
        awaited = serving.awaited;
        unwritten = serving.unwritten;
        low = serving.low;
        high = serving.high;
        sized = serving.sized;
        watch = turned_away_watch;
      };
      same_listener = refl;
      opens = λ j ne h. ap (λ x. x.is_open) (turned_away-sockets j (not_fresh j h)) ∙ h;
    },
  )
    where
      still_open : (reopened fd).is_open ≡ true
      still_open =
          ap (λ x. x.is_open)
            (update_self s.table.sockets fd (record { is_open = true; got = []; wire = [] }))

module _ (fd : ℕ) (s : Select) (serving : Serving s) (fresh : (s.table.sockets fd).is_open ≡ false)
    (in_range : fd < maxfds) (small : fd < fd_setsize) where
  abbrev new_max : ℕ
  new_max = if ltb s.fdset_max fd then fd else s.fdset_max

  -- A connection that there is room for is served from here on.
  admitted-Progress :
      (s' : Select) × ((peer_on_connected (opened s.table fd) fd >>= λ r.
      apply_status fd r.0 (record s { table = r.1; fdset_max = new_max }))
        ≡ some s')
      × Progress s.listener s s'
  unfolding opened
  admitted-Progress =
      let r =
        peer_on_connected-Served fd s.table (omega (arith, in_range, serving.capacity))
          (serving.sized fd) in
      let e =
        Elsewhere-trans fd s.table (opened s.table fd) r.after
          (update-Elsewhere fd (record { is_open = true; got = []; wire = [] }) s.table) r.others in
      let a =
        apply_status-Applied fd r.status s r.after new_max serving (not_listener fd s serving fresh)
          r.live e (ground arith) (ground arith) (ground (arith, small, serving.high)) in
      (
        a.after,
        rw (r.done, ◌>>=◌) a.done,
        record {
          serving = a.serving;
          same_listener = a.same_listener;
          opens = λ j ne h. ap (λ x. x.is_open) (a.others j (not_fresh fd s serving fresh j h)) ∙ h;
        },
      )

-- What accept comes to, whatever it returns.
pub accept_peer-Ends :
    (k : Kernel) (s : Select)
    → Serving s
    → IsFresh k
    → Ends (Progress s.listener s) (Fatal k) (accept_peer (k.accepts s.table.sockets) s)
unfolding accept_peer admit peer_fd_in_range
accept_peer-Ends k s serving fresh = go (k.accepts s.table.sockets) refl
  where
    unchanged : Progress s.listener s s
    unchanged = record { serving = serving; same_listener = refl; opens = λ j ne h. h }

    go :
        (a : AcceptResult)
        → k.accepts s.table.sockets ≡ a
        → Ends (Progress s.listener s) (Fatal k) (accept_peer a s)
    go (accept_failed e) h = elim (Bool-cases (is_passing e)) [
      | inl passing ↦ rw passing (completed s unchanged)
      | inr fatal ↦ rw fatal (gave_up (accept_fatal s.table.sockets e h (not_passing e fatal)))
    ]
    go (accepted fd nonblocking) h =
        elim (Bool-cases (leb fd_setsize fd || not (ltb fd (length s.table.peers)))) [
          | inl beyond ↦
              let (e, p) =
                rejected-Progress fd s serving (fresh s.table.sockets fd nonblocking h) in
              rw beyond (
                subst (Ends (Progress s.listener s) (Fatal k)) (sym e)
                  (completed (turned_away fd s serving (fresh s.table.sockets fd nonblocking h)) p))
          | inr within ↦ rw within (room nonblocking h within)
        ]
      where
        room :
            (nonblocking : Bool)
            → k.accepts s.table.sockets ≡ accepted fd nonblocking
            → (leb fd_setsize fd || not (ltb fd (length s.table.peers))) ≡ false
            → Ends (Progress s.listener s) (Fatal k) (
                if nonblocking
                then checked (
                    peer_on_connected (opened s.table fd) fd >>= λ r.
                    apply_status fd r.0 (record s {
                      table = r.1;
                      fdset_max = if ltb s.fdset_max fd then fd else s.fdset_max;
                    }))
                else died)
        room false h within = gave_up (fcntl_fatal s.table.sockets fd h)
        room true h within =
            let (s', e, p) =
              admitted-Progress fd s serving (fresh s.table.sockets fd true h)
                (ground (arith, within, serving.capacity)) (ground (arith, within)) in
            rw e (completed s' p)
