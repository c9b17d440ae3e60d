-- ===== src/Select/Life.antt =====
-- src/select_server.c from its start on.
use concurrent_servers.Prelude.{
  get_elem?-replicate, ℕ, ◌≤◌, ◌<◌, ◌≡◌, ◌≢◌, refl, sym, ap, ◌∙◌, inl, inr, ◌⊎◌, Bool, true, false,
  List, [], ◌∷◌, ◌++◌, some, ◌>>=◌, arith, leb, Bool-cases, length, get_elem?, set, write_at,
  replicate, length-replicate, length-set, get_elem?-set_self, get_elem?-set_ne, All,
}
use concurrent_servers.Exec.{
  Exec, done, died, fault, ◌⟫=◌, Ends, completed, gave_up, Ends-bind, Ends-weaken, Ends-because,
}
use concurrent_servers.Sockets.{Listen, Refused, listen_inet_socket-Ends}
use concurrent_servers.Framing.{outside, star, echo}
use concurrent_servers.Peer.{PeerState, sendbuf_size}
use concurrent_servers.Peer.Stream.{staged}
use concurrent_servers.Peer.Runs.{Run-Follows}
use concurrent_servers.Peer.Table.{peer_state_init, zeroed_peer}
use concurrent_servers.Select.{
  Select, Kernel, maxfds, fd_setsize, watch_listener, start, serve_round, serve_rounds,
}
use concurrent_servers.Select.Watch.{Watched, watched, free, Serving}
use concurrent_servers.Select.Accepting.{IsFresh, Fatal}
use concurrent_servers.Select.Rounds.{serve_round-Ends}

pub data SomeFatal : List Kernel → Type 0 where
  here : {k : Kernel} {ks : List Kernel} → Fatal k → SomeFatal (k ∷ ks)
  there : {k : Kernel} {ks : List Kernel} → SomeFatal ks → SomeFatal (k ∷ ks)

-- However many rounds are made.
pub serve_rounds-Ends :
    (ks : List Kernel) (s : Select)
    → Serving s
    → All IsFresh ks
    → Ends Serving (SomeFatal ks) (serve_rounds ks s)
unfolding serve_rounds
serve_rounds-Ends [] s serving fresh = completed s serving
serve_rounds-Ends (k ∷ ks) s serving fresh =
    first (serve_round k s) (serve_round-Ends k s serving fresh.0)
      (λ s' serving'. serve_rounds-Ends ks s' serving' fresh.1)
  where
    later : (e : Exec Select) → Ends Serving (SomeFatal ks) e → Ends Serving (SomeFatal (k ∷ ks)) e
    later (done s'') (completed _ g) = completed s'' g
    later died (gave_up w) = gave_up (there w)
    later fault e = elim e [ ]

    first :
        (e : Exec Select)
        → Ends Serving (Fatal k) e
        → ((s' : Select) → Serving s' → Ends Serving (SomeFatal ks) (serve_rounds ks s'))
        → Ends Serving (SomeFatal (k ∷ ks)) (e ⟫= serve_rounds ks)
    first (done s') (completed _ serving') h = later (serve_rounds ks s') (h s' serving')
    first died (gave_up w) h = gave_up (here w)
    first fault e h = elim e [ ]

-- What ends the start: no memory for the table, no listening socket, a listener that cannot be made
-- non-blocking, or one beyond the sets.
pub data Unstartable (has_memory : Bool) (listen : Listen) (nonblocking : Bool) : Type 0 where
  no_memory : has_memory ≡ false → Unstartable has_memory listen nonblocking
  no_listener : Refused listen → Unstartable has_memory listen nonblocking
  blocking : nonblocking ≡ false → Unstartable has_memory listen nonblocking
  listener_beyond :
      (listener : ℕ)
      → listen.socket ≡ some listener
      → fd_setsize ≤ listener
      → Unstartable has_memory listen nonblocking

watch_listener-Ends :
    (listener : ℕ)
    → Ends Serving (fd_setsize ≤ listener) (watch_listener (replicate maxfds zeroed_peer) listener)
unfolding watch_listener
watch_listener-Ends listener = elim (Bool-cases (leb fd_setsize listener)) [
  | inl beyond ↦ rw beyond (gave_up (ground (arith, beyond)))
  | inr within ↦
      rw (within, stored within, ◌>>=◌)
        (completed _ (record {
          capacity = length-replicate maxfds zeroed_peer;
          reads =
              length-set (replicate fd_setsize false) listener true
              ∙ length-replicate fd_setsize false;
          writes = length-replicate fd_setsize false;
          listening = ground arith;
          awaited = get_elem?-set_self (replicate fd_setsize false) listener true (size within);
          unwritten = λ h. unset (get_elem?-replicate fd_setsize listener false true h);
          low = omega arith;
          high = ground (arith, within);
          sized = λ fd p at.
              ap (λ q. length q.sendbuf) (get_elem?-replicate maxfds fd zeroed_peer p at)
              ∙ length-replicate {A = ℕ} sendbuf_size 0;
          watch = λ fd ne.
              free (ground (arith, ne))
                (λ h. unset (
                  get_elem?-replicate fd_setsize fd false true (
                    sym (
                      get_elem?-set_ne (replicate fd_setsize false) listener fd true
                        (λ e. ne (sym e)))
                    ∙ h)))
                (λ h. unset (get_elem?-replicate fd_setsize fd false true h));
        }))
]
  where
    unset : true ≡ false → ⊥
    unset h = cc

    size : leb fd_setsize listener ≡ false → listener < length (replicate fd_setsize false)
    size within = ground (arith, within, length-replicate fd_setsize false)

    stored :
        leb fd_setsize listener ≡ false
        → write_at (replicate fd_setsize false) listener true
          ≡ some (set (replicate fd_setsize false) listener true)
    stored within = ground (arith, size within)

start-Ends :
    (has_memory : Bool) (listen : Listen) (nonblocking : Bool)
    → Ends Serving (Unstartable has_memory listen nonblocking) (start has_memory listen nonblocking)
unfolding start peer_state_init
start-Ends false listen nonblocking = gave_up (no_memory refl)
start-Ends true listen false =
    Ends-bind _ _ (Ends-because (listen_inet_socket-Ends listen) no_listener)
      (λ listener h. gave_up (blocking refl))
start-Ends true listen true =
    Ends-bind _ _ (Ends-because (listen_inet_socket-Ends listen) no_listener)
      (λ listener h. Ends-because (watch_listener-Ends listener) (listener_beyond listener h))

-- What the peer behind an open descriptor has been sent, with what is staged for it, is what its
-- own bytes call for.
abbrev pub Accounted : Select → Type 0
Accounted s =
    (fd : ℕ)
    → fd ≢ s.listener
    → (s.table.sockets fd).is_open ≡ true
    → (p : PeerState) × (get_elem? s.table.peers fd ≡ some p)
      × ((s.table.sockets fd).wire ++ staged p ≡ star ∷ echo outside (s.table.sockets fd).got)

Serving-Accounted : (s : Select) → Serving s → Accounted s
Serving-Accounted s serving fd ne live = go (serving.watch fd ne)
  where
    go :
        Watched s fd
        → (p : PeerState) × (get_elem? s.table.peers fd ≡ some p)
          × ((s.table.sockets fd).wire ++ staged p ≡ star ∷ echo outside (s.table.sockets fd).got)
    go (watched status l _ _ _) = (l.peer, l.slot, (Run-Follows l.peer l.run).account)
    go (free shut _ _) = absurd (clash shut)
      where
        clash : (s.table.sockets fd).is_open ≡ false → ⊥
        clash shut = cc

-- The select server, from its start through any number of rounds, never accesses an array out of
-- bounds and never calls recv, send or close on a descriptor that is not open. It ends only at its
-- start, for want of memory, a failure of socket, setsockopt, bind, listen or fcntl, or a listener
-- beyond FD_SETSIZE, or in a round, for a failure of select other than EINTR, of accept other than EINTR,
-- EAGAIN, EWOULDBLOCK and ECONNABORTED, or of fcntl: no peer ends it. And at
-- every open descriptor, what its peer has been sent, with what is staged for it, is '*' and the echo of
-- the frames in all that the peer has sent. accept returns descriptors that are not in use.
pub serve_rounds-Accounted :
    (has_memory : Bool) (listen : Listen) (nonblocking : Bool) (ks : List Kernel)
    → All IsFresh ks
    → Ends Accounted
        (Unstartable has_memory listen nonblocking ⊎ SomeFatal ks)
        (start has_memory listen nonblocking ⟫= serve_rounds ks)
serve_rounds-Accounted has_memory listen nonblocking ks fresh =
    Ends-bind (start has_memory listen nonblocking) (serve_rounds ks)
      (Ends-because (start-Ends has_memory listen nonblocking) inl)
      (λ s serving.
        Ends-weaken (Ends-because (serve_rounds-Ends ks s serving fresh) inr) Serving-Accounted)
