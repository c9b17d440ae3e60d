-- ===== src/Epoll/Life.antt =====
-- src/epoll_server.c from its start on.
use concurrent_servers.Prelude.{
  get_elem?-replicate, ℕ, ◌≡◌, ◌≢◌, refl, ap, ◌∙◌, subst, inl, inr, ◌⊎◌, Bool, true, false, List,
  [], ◌∷◌, ◌++◌, none, some, arith, ◌==◌, if◌then◌else◌, Bool-cases, length, get_elem?, All,
  length-replicate, replicate, sym,
}
use concurrent_servers.Sys.{is_eintr}
use concurrent_servers.Sockets.{Refused, listen_inet_socket, listen_inet_socket-Ends}
use concurrent_servers.Exec.{
  not_eintr, done, died, ◌⟫=◌, Ends, completed, gave_up, Ends-bind, Ends-weaken, Ends-because,
}
use concurrent_servers.Framing.{outside, star, echo}
use concurrent_servers.Peer.{PeerState, fd_status_r, sendbuf_size}
use concurrent_servers.Peer.Stream.{staged}
use concurrent_servers.Peer.Runs.{Run-Follows}
use concurrent_servers.Peer.Table.{peer_state_init, zeroed_peer}
use concurrent_servers.Epoll.{
  Epoll, maxfds, Event, WaitResult, wait_failed, reported, Kernel, serve_events, in_set,
  serve_round, serve_rounds, start, Starting, unwatched, watch_listener, epoll_add, put,
}
use concurrent_servers.Epoll.Interest.{Entered, entered, left_out, Polling}
use concurrent_servers.Epoll.Accepting.{IsHonest, FatalCall, wait_fatal, ErrorOn}
use concurrent_servers.Epoll.Rounds.{serve_events-Ends, Distinct-in_set, Due-in_set, ErrorOn-in_set}

-- What ends the process in one round: a call on the listener or on the set, or an error reported on the
-- listener.
pub data FatalRound (listener : ℕ) (k : Kernel) : Type 0 where
  fatal_call : FatalCall k → FatalRound listener k
  listener_error :
      (es : List Event) → k.waits ≡ reported es → ErrorOn listener es → FatalRound listener k

abbrev PollingOn : ℕ → Epoll → Type 0
PollingOn listener s = Polling s × (s.listener ≡ listener)

-- One round, whatever epoll_wait, accept, recv and send come to.
serve_round-Ends :
    (k : Kernel) (s : Epoll)
    → IsHonest k
    → Polling s
    → Ends (PollingOn s.listener) (FatalRound s.listener k) (serve_round k s)
unfolding serve_round
serve_round-Ends k s honest polling = go k.waits refl
  where
    go :
        (w : WaitResult)
        → k.waits ≡ w
        → Ends (PollingOn s.listener) (FatalRound s.listener k) (elim w [
          | wait_failed e ↦ if is_eintr e then done s else died
          | reported es ↦ serve_events k (in_set s.interest es) s
        ])
    go (wait_failed e) h = elim (Bool-cases (is_eintr e)) [
      | inl again ↦ rw again (completed s (polling, refl))
      | inr fatal ↦ rw fatal (gave_up (fatal_call (wait_fatal e h (not_eintr e fatal))))
    ]
    go (reported es) h =
        Ends-because
          (serve_events-Ends k (in_set s.interest es) s honest polling
            (Distinct-in_set s.interest es (honest.distinct es h)) (Due-in_set s es polling))
          why
      where
        why : FatalCall k ⊎ ErrorOn s.listener (in_set s.interest es) → FatalRound s.listener k
        why (inl w) = fatal_call w
        why (inr w) = listener_error es h (ErrorOn-in_set s.listener s.interest es w)

pub data AnyFatal (listener : ℕ) : List Kernel → Type 0 where
  at_once : {k : Kernel} {ks : List Kernel} → FatalRound listener k → AnyFatal listener (k ∷ ks)
  later_on : {k : Kernel} {ks : List Kernel} → AnyFatal listener ks → AnyFatal listener (k ∷ ks)

serve_rounds-Ends :
    (listener : ℕ) (ks : List Kernel) (s : Epoll)
    → PollingOn listener s
    → All IsHonest ks
    → Ends (PollingOn listener) (AnyFatal listener ks) (serve_rounds ks s)
unfolding serve_rounds
serve_rounds-Ends listener [] s on honest = completed s on
serve_rounds-Ends listener (k ∷ ks) s on honest =
    Ends-bind (serve_round k s) (serve_rounds ks)
      (Ends-because (serve_round-Ends k s honest.0 on.0)
        (λ w. at_once (subst (λ j. FatalRound j k) on.1 w)))
      (λ s' on'.
        Ends-because (serve_rounds-Ends listener ks s' (on'.0, on'.1 ∙ on.1) honest.1) later_on)

-- What ends the start.
pub data Unstartable (c : Starting) : Type 0 where
  no_table : c.has_table ≡ false → Unstartable c
  no_listener : Refused c.listen → Unstartable c
  blocking : c.nonblocking ≡ false → Unstartable c
  no_epoll : c.creates ≡ false → Unstartable c
  not_watched : c.adds ≡ false → Unstartable c
  no_events : c.has_events ≡ false → Unstartable c

abbrev zeroed_table : List PeerState
zeroed_table = replicate maxfds zeroed_peer

-- The set has the listener alone.
watching-Polling :
    (listener : ℕ)
    → Polling (record (unwatched zeroed_table listener) {
      interest = put (λ fd. none) listener (some fd_status_r);
    })
unfolding unwatched
watching-Polling listener = record {
  capacity = length-replicate maxfds zeroed_peer;
  listening = ground arith;
  awaited = awaited_lem (ground arith);
  sized = λ fd p at.
      ap (λ q. length q.sendbuf) (get_elem?-replicate maxfds fd zeroed_peer p at)
      ∙ length-replicate {A = ℕ} sendbuf_size 0;
  watch = λ fd ne. left_out (ground (arith, ne)) (absent fd (ground (arith, ne)));
}
  where
    awaited_lem :
        (listener == listener) ≡ true
        → (if listener == listener then some fd_status_r else none) ≡ some fd_status_r
    awaited_lem h = rw h refl

    absent :
        (fd : ℕ)
        → (fd == listener) ≡ false
        → (if fd == listener then some fd_status_r else none) ≡ none
    absent fd h = rw h refl

watch_listener-Ends :
    (c : Starting) (listener : ℕ)
    → Ends (PollingOn listener) (Unstartable c) (watch_listener c zeroed_table listener)
unfolding watch_listener epoll_add unwatched
watch_listener-Ends c listener = go c.creates c.adds c.has_events refl refl refl
  where
    go :
        (x y z : Bool)
        → c.creates ≡ x
        → c.adds ≡ y
        → c.has_events ≡ z
        → Ends (PollingOn listener) (Unstartable c) (
            if x
            then (epoll_add y listener fd_status_r (unwatched zeroed_table listener) ⟫= λ s.
                if z then done s else died)
            else died)
    go false y z e f g = gave_up (no_epoll e)
    go true false z e f g = gave_up (not_watched f)
    go true true false e f g = gave_up (no_events g)
    go true true true e f g = completed _ (watching-Polling listener, refl)

-- The listener is the descriptor that socket has given.
abbrev Started : Starting → Epoll → Type 0
Started c s = (c.listen.socket ≡ some s.listener) × Polling s

start-Ends : (c : Starting) → Ends (Started c) (Unstartable c) (start c)
unfolding start peer_state_init
start-Ends c = go c.has_table c.nonblocking refl refl
  where
    go :
        (x y : Bool)
        → c.has_table ≡ x
        → c.nonblocking ≡ y
        → Ends (Started c) (Unstartable c) (elim (if x then some zeroed_table else none) [
          | none ↦ died
          | some peers ↦ listen_inet_socket c.listen ⟫= λ listener.
              if y then watch_listener c peers listener else died
        ])
    go false y e f = gave_up (no_table e)
    go true false e f =
        Ends-bind _ _ (Ends-because (listen_inet_socket-Ends c.listen) no_listener)
          (λ listener h. gave_up (blocking f))
    go true true e f =
        Ends-bind _ _ (Ends-because (listen_inet_socket-Ends c.listen) no_listener) (λ listener h.
          Ends-weaken (watch_listener-Ends c listener) (λ s on. (h ∙ ap some (sym on.1), on.0)))

-- The start failed, or a round on the listener that it opened.
pub data Stopped (c : Starting) (ks : List Kernel) : Type 0 where
  at_start : Unstartable c → Stopped c ks
  in_round : (listener : ℕ) → c.listen.socket ≡ some listener → AnyFatal listener ks → Stopped c ks

-- What the peer behind an open descriptor has been sent, with what is staged for it, is what its
-- own bytes call for.
abbrev pub AccountedFor : Epoll → Type 0
AccountedFor s =
    (fd : ℕ)
    → fd ≢ s.listener
    → (s.table.sockets fd).is_open ≡ true
    → (p : PeerState) × (get_elem? s.table.peers fd ≡ some p)
      × ((s.table.sockets fd).wire ++ staged p ≡ star ∷ echo outside (s.table.sockets fd).got)

Polling-AccountedFor : (s : Epoll) → Polling s → AccountedFor s
Polling-AccountedFor s polling fd ne live = go (polling.watch fd ne)
  where
    go :
        Entered s fd
        → (p : PeerState) × (get_elem? s.table.peers fd ≡ some p)
          × ((s.table.sockets fd).wire ++ staged p ≡ star ∷ echo outside (s.table.sockets fd).got)
    go (entered status l _) = (l.peer, l.slot, (Run-Follows l.peer l.run).account)
    go (left_out shut _) = absurd (clash shut)
      where
        clash : (s.table.sockets fd).is_open ≡ false → ⊥
        clash shut = cc

-- The epoll server, from its start through any number of rounds, never accesses the table out of
-- bounds, never calls recv, send or close on a descriptor that is not open, and never has epoll_ctl
-- fail for an entry that is missing or there already. It ends only at its start, for want of memory or a
-- failure of socket, setsockopt, bind, listen, fcntl, epoll_create1 or epoll_ctl for the listener, or in
-- a round, for an error on the listener, a failure of epoll_wait other than EINTR, of accept other than
-- EINTR, EAGAIN, EWOULDBLOCK and ECONNABORTED, or of fcntl, or want of memory in epoll_ctl for a new peer: no peer's own calls end it. And at every open descriptor, what its peer has
-- been sent, with what is staged for it, is '*' and the echo of the frames in all that the peer has sent.
-- accept returns descriptors that are not in use, and an answer of epoll_wait has each descriptor at
-- most once.
pub serve_rounds-AccountedFor :
    (c : Starting) (ks : List Kernel)
    → All IsHonest ks
    → Ends AccountedFor (Stopped c ks) (start c ⟫= serve_rounds ks)
serve_rounds-AccountedFor c ks honest =
    Ends-bind (start c) (serve_rounds ks) (Ends-because (start-Ends c) at_start) (λ s on.
      Ends-weaken
        (Ends-because (serve_rounds-Ends s.listener ks s (on.1, refl) honest)
          (in_round s.listener on.0))
        (λ s' on'. Polling-AccountedFor s' on'.0))
