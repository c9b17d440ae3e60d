-- ===== src/Epoll/Tests.antt =====
-- Examples of src/epoll_server.c.
use concurrent_servers.Prelude.{
  ℕ, ◌≡◌, some, refl, subst, List, [], ◌∷◌, Bool, true, false, if◌then◌else◌,
}
use concurrent_servers.Sys.{received, wrote, eagain}
use concurrent_servers.Text.{codes}
use concurrent_servers.Exec.{◌⟫=◌, AcceptResult, accepted, accept_failed, Ends}
use concurrent_servers.Peer.Table.{Socket}
use concurrent_servers.Epoll.{Kernel, Event, reported, Starting, start, serve_rounds}
use concurrent_servers.Epoll.Accepting.{IsHonest, Distinct}
use concurrent_servers.Epoll.Life.{AccountedFor, Stopped, serve_rounds-AccountedFor}

-- Descriptor 5 is taken first; then no connection is waiting.
abbrev next_free : (ℕ → Socket) → AcceptResult
next_free sockets = if (sockets 5).is_open then accept_failed eagain else accepted 5 true

abbrev on_listener : Event
on_listener = record { fd = 3; has_error = false; is_readable = true; is_writable = false }

abbrev on_peer_5 : Event
on_peer_5 = record { fd = 5; has_error = false; is_readable = true; is_writable = true }

abbrev kernel : Kernel
kernel = record {
  waits = reported (on_listener ∷ on_peer_5 ∷ []);
  accepts = next_free;
  watches = true;
  recvs = λ fd. received (codes "^ab$");
  sends = λ fd. wrote 1;
}

kernel-IsHonest : IsHonest kernel
kernel-IsHonest = record {
  distinct = λ es e. subst Distinct (the_events e) two_apart;
  fresh = λ sockets fd nonblocking. free_one sockets fd nonblocking (sockets 5).is_open refl;
}
  where
    two_apart : Distinct (on_listener ∷ on_peer_5 ∷ [])
    two_apart = (((λ e. cc), tt), (tt, tt))

    the_events : {es es' : List Event} → reported es ≡ reported es' → es ≡ es'
    the_events e = cc

    free_one :
        (sockets : ℕ → Socket) (fd : ℕ) (nonblocking taken : Bool)
        → (sockets 5).is_open ≡ taken
        → (if taken then accept_failed eagain else accepted 5 true) ≡ accepted fd nonblocking
        → (sockets fd).is_open ≡ false
    free_one sockets fd nonblocking true h e = cc
    free_one sockets fd nonblocking false h e = subst (λ j. (sockets j).is_open ≡ false) (which e) h
      where
        which : accepted 5 true ≡ accepted fd nonblocking → 5 ≡ fd
        which e = cc

abbrev starting : Starting
starting = record {
  has_table = true;
  listen = record { socket = some 3; setsockopt = true; bind = true; listen = true };
  nonblocking = true;
  creates = true;
  adds = true;
  has_events = true;
}

serve_rounds-AccountedFor_example :
    Ends AccountedFor
      (Stopped starting (kernel ∷ kernel ∷ kernel ∷ []))
      (start starting ⟫= serve_rounds (kernel ∷ kernel ∷ kernel ∷ []))
serve_rounds-AccountedFor_example =
    serve_rounds-AccountedFor starting (kernel ∷ kernel ∷ kernel ∷ [])
      (kernel-IsHonest, (kernel-IsHonest, (kernel-IsHonest, tt)))
