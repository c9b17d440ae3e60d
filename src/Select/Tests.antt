-- ===== src/Select/Tests.antt =====
-- Examples of src/select_server.c.
use concurrent_servers.Prelude.{
  ℕ, ◌≡◌, some, ◌⊎◌, refl, subst, [], ◌∷◌, Bool, true, false, if◌then◌else◌,
}
use concurrent_servers.Sys.{received, wrote, eagain}
use concurrent_servers.Text.{codes}
use concurrent_servers.Exec.{◌⟫=◌, AcceptResult, accepted, accept_failed, Ends}
use concurrent_servers.Peer.Table.{Socket}
use concurrent_servers.Sockets.{Listen}
use concurrent_servers.Select.{Kernel, events, start, serve_rounds}
use concurrent_servers.Select.Accepting.{IsFresh}
use concurrent_servers.Select.Life.{Accounted, Unstartable, SomeFatal, serve_rounds-Accounted}

-- Descriptor 4 is taken first; then no connection is waiting.
abbrev next_free : (ℕ → Socket) → AcceptResult
next_free sockets = if (sockets 4).is_open then accept_failed eagain else accepted 4 true

abbrev kernel : Kernel
kernel = record {
  selects = events 2;
  readable = λ fd. true;
  writable = λ fd. true;
  accepts = next_free;
  recvs = λ fd. received (codes "^ab$");
  sends = λ fd. wrote 1;
}

kernel-IsFresh : IsFresh kernel
kernel-IsFresh sockets fd nonblocking = go (sockets 4).is_open refl
  where
    go :
        (taken : Bool)
        → (sockets 4).is_open ≡ taken
        → (if taken then accept_failed eagain else accepted 4 true) ≡ accepted fd nonblocking
        → (sockets fd).is_open ≡ false
    go true h e = cc
    go false h e = subst (λ j. (sockets j).is_open ≡ false) (which e) h
      where
        which : accepted 4 true ≡ accepted fd nonblocking → 4 ≡ fd
        which e = cc

abbrev listening : Listen
listening = record { socket = some 3; setsockopt = true; bind = true; listen = true }

serve_rounds-Accounted_example :
    Ends Accounted
      (Unstartable true listening true ⊎ SomeFatal (kernel ∷ kernel ∷ kernel ∷ []))
      (start true listening true ⟫= serve_rounds (kernel ∷ kernel ∷ kernel ∷ []))
serve_rounds-Accounted_example =
    serve_rounds-Accounted true listening true (kernel ∷ kernel ∷ kernel ∷ [])
      (kernel-IsFresh, (kernel-IsFresh, (kernel-IsFresh, tt)))
