-- ===== src/Uring/Tests.antt =====
-- Examples of src/uring_server.c.
use concurrent_servers.Prelude.{
  ℕ, ◌<◌, ◌^◌, ◌≡◌, ◌⊎◌, refl, subst, List, [], ◌∷◌, some, Bool, true, false, arith, if◌then◌else◌,
  negsuc,
}
use concurrent_servers.Sys.{received, wrote, eagain, eintr}
use concurrent_servers.Text.{codes}
use concurrent_servers.Exec.{◌⟫=◌, AcceptResult, accepted, accept_failed, Ends}
use concurrent_servers.Peer.Table.{Socket}
use concurrent_servers.Sockets.{Listen}
use concurrent_servers.Uring.{Kernel, start, Round, posted, wait_failed, serve_rounds}
use concurrent_servers.Uring.UserData.{op_recv, pack, unpack_op, unpack_fd, unpack_op-pack}
use concurrent_servers.Uring.Arming.{Ringing}
use concurrent_servers.Uring.Life.{IsFreshFor}
use concurrent_servers.Uring.Whole.{Unready, Halts, serve_rounds-Ringing}

unpack_op-pack_example :
    (unpack_op (pack op_recv (negsuc 0)) ≡ some op_recv)
    × (unpack_fd (pack op_recv (negsuc 0)) ≡ negsuc 0)
unpack_op-pack_example = unpack_op-pack op_recv (negsuc 0) (omega arith)

-- Descriptor 6 is taken first; then no connection is waiting.
abbrev next_free : (ℕ → Socket) → AcceptResult
next_free sockets = if (sockets 6).is_open then accept_failed eagain else accepted 6 true

abbrev kernel : Kernel
kernel = record {
  which = 0;
  flushes = true;
  accepts = next_free;
  recvs = received (codes "^ab$");
  sends = wrote 1;
}

kernel-IsFreshFor : IsFreshFor kernel
kernel-IsFreshFor sockets fd nonblocking = go (sockets 6).is_open refl
  where
    go :
        (taken : Bool)
        → (sockets 6).is_open ≡ taken
        → (if taken then accept_failed eagain else accepted 6 true) ≡ accepted fd nonblocking
        → (sockets fd).is_open ≡ false
    go true h e = cc
    go false h e = subst (λ j. (sockets j).is_open ≡ false) (which e) h
      where
        which : accepted 6 true ≡ accepted fd nonblocking → 6 ≡ fd
        which e = cc

-- The listener's completion; an interrupted wait; and the first of the connection's, while the queue is
-- left as it is.
abbrev some_rounds : List Round
some_rounds =
    record { taken = true; waits = posted (kernel ∷ []) }
    ∷ record { taken = true; waits = wait_failed eintr }
    ∷ record { taken = false; waits = posted (record kernel { which = 1 } ∷ []) }
    ∷ []

abbrev listening : Listen
listening = record { socket = some 3; setsockopt = true; bind = true; listen = true }

serve_rounds-Ringing_example :
    Ends Ringing
      (Unready true true true 256 listening ⊎ Halts some_rounds)
      (start true true true 256 listening ⟫= serve_rounds some_rounds)
serve_rounds-Ringing_example =
    serve_rounds-Ringing true true true 256 listening some_rounds
      (λ fd e. subst (λ j. j < 2 ^ 31) (the_number fd e) (omega arith))
      ((kernel-IsFreshFor, tt), (tt, ((kernel-IsFreshFor, tt), tt)))
  where
    the_number : (fd : ℕ) → some 3 ≡ some fd → 3 ≡ fd
    the_number fd e = cc
