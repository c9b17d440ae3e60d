-- ===== src/Peer/Runs.antt =====
-- The connections that can come about, and what each event does to them (src/peer_state.c).
use concurrent_servers.Prelude.{
  ℕ, ◌≤◌, ◌<◌, ◌≡◌, ◌≢◌, refl, ◌∙◌, subst, inl, inr, ◌⊎◌, Bool, true, false, ◌||◌, List, [], ◌∷◌,
  ◌++◌, Option, some, arith, ◌==◌, if◌then◌else◌, length, take, append-nil, lt→ltb, length-take,
}
use concurrent_servers.Sys.{
  RecvResult, received, recv_failed, SendResult, wrote, send_failed, is_eintr, is_again,
}
use concurrent_servers.Peer.{
  PeerState, FdStatus, CloseReason, consume, sendbuf_size, on_connected, recv_room, pending, sent,
  close_with, fd_status_r, fd_status_w, fd_status_rw, fd_status_norw, on_ready_recv, on_ready_send,
  after_recv, after_send, is_reset, is_reset_or_pipe, peer_closed, peer_reset, strerror,
}
use concurrent_servers.Peer.Table.{yields, takes, clip_recv, clip_send, heard, told}
use concurrent_servers.Peer.Consuming.{asking}
use concurrent_servers.Peer.Stream.{Follows, on_connected-Follows, recv_room-cases, consume-Follows}
use concurrent_servers.Peer.Sent.{sent-Follows, close_with-Follows, pending_length, sent-cases}

-- One operation on a connection, as the servers call them: the bytes are those that a recv yielded
-- into the room there was, and the count is what a send took of the bytes pending.
pub data Step : List ℕ → List ℕ → PeerState → List ℕ → List ℕ → PeerState → Type 0 where
  consuming :
      {got wire : List ℕ} {p p' : PeerState} {st : FdStatus} (bytes : List ℕ)
      → length bytes ≤ recv_room p
      → bytes ≢ []
      → consume p bytes ≡ some (st, p')
      → Step got wire p (got ++ bytes) wire p'
  sending :
      {got wire : List ℕ} {p : PeerState} (n : ℕ)
      → n ≤ (pending p).0
      → Step got wire p got (wire ++ take n (pending p).1) (sent p n).1
  closing :
      {got wire : List ℕ} {p : PeerState} (reason : CloseReason)
      → Step got wire p got wire (close_with p reason).1

-- The connections that can come about.
pub data Run : List ℕ → List ℕ → PeerState → Type 0 where
  accepted :
      {p' : PeerState} (p : PeerState) (st : FdStatus)
      → length p.sendbuf ≡ sendbuf_size
      → on_connected p ≡ some (st, p')
      → Run [] [] p'
  step :
      {got' wire' : List ℕ} {p' : PeerState} (got wire : List ℕ) (p : PeerState)
      → Run got wire p
      → Step got wire p got' wire' p'
      → Run got' wire' p'

-- A result that an operation is known to have is the one that it has.
the_peer :
    {answer : Option (FdStatus × PeerState)} {st st' : FdStatus} {p p' : PeerState}
    → answer ≡ some (st, p)
    → answer ≡ some (st', p')
    → p ≡ p'
the_peer e e' = cc

Step-Follows :
    {got wire : List ℕ} (p : PeerState) {got' wire' : List ℕ} (p' : PeerState)
    → Step got wire p got' wire' p'
    → Follows got wire p
    → Follows got' wire' p'
Step-Follows p p' (consuming {got} {wire} bytes fits some_bytes e) h =
    let (q, e', h', _) = consume-Follows p bytes h fits some_bytes in
    subst (Follows (got ++ bytes) wire) (the_peer e' e) h'
Step-Follows p _ (sending n le) h = sent-Follows p n h le
Step-Follows p _ (closing reason) h = close_with-Follows p reason h

-- Whatever has happened on a connection, its buffer is intact, the parser stands where the bytes
-- received take it, and what has been written to the peer, with what is staged, is the
-- acknowledgement followed by the echo of all that the peer has sent.
pub Run-Follows : {got wire : List ℕ} (p : PeerState) → Run got wire p → Follows got wire p
Run-Follows p' (accepted p st size e) =
    let (q, e', h, _) = on_connected-Follows p size in subst (Follows [] []) (the_peer e' e) h
Run-Follows p' (step got wire p run s) = Step-Follows p p' s (Run-Follows p run)

-- What the loop is told to wait for is something that can come: room for input, or output to write;
-- and a finished connection has a reason.
pub data IsApt (p : PeerState) : FdStatus → Type 0 where
  reading : recv_room p ≡ sendbuf_size → IsApt p fd_status_r
  writing : 0 < (pending p).0 → IsApt p fd_status_w
  either : recv_room p ≡ sendbuf_size → IsApt p fd_status_rw
  finished : (reason : CloseReason) → p.close_reason ≡ some reason → IsApt p fd_status_norw

-- What an event leaves of a connection: no access out of bounds, one of the connections that can
-- come about, and a status to wait on that fits it.
pub record Handled (got wire : List ℕ) (answer : Option (FdStatus × PeerState)) : Type 0 where
  pub status : FdStatus
  pub peer : PeerState
  pub done : answer ≡ some (status, peer)
  pub run : Run got wire peer
  pub apt : IsApt peer status

-- Without room there is output to write.
pub room_or_output :
    {got wire : List ℕ} (p : PeerState)
    → Follows got wire p
    → ((recv_room p ≡ 0) × (0 < (pending p).0))
      ⊎ ((recv_room p ≡ sendbuf_size) × ((pending p).0 ≡ 0))
room_or_output p h = elim (recv_room-cases p h.phase h.cursor) [
  | inl (full, lt) ↦ inl (full, omega (arith, lt, pending_length p h.bounded))
  | inr r ↦ inr (r.whole, omega (arith, r.at_front, r.drained, pending_length p h.bounded))
]

asking-IsApt :
    {got wire : List ℕ} (p : PeerState) → Follows got wire p → IsApt p (asking (pending p).0)
asking-IsApt p h = elim (room_or_output p h) [
  | inl (_, some_left) ↦ rw (lt→ltb 0 (pending p).0 some_left) (writing some_left)
  | inr (room, none_left) ↦ rw none_left (reading room)
]

-- peer_on_connected, on whatever was left of the descriptor's last peer.
pub on_connected-Handled :
    (p : PeerState) → length p.sendbuf ≡ sendbuf_size → Handled [] [] (on_connected p)
on_connected-Handled p size =
    let (q, e, h, lt) = on_connected-Follows p size in
    record {
      status = fd_status_w;
      peer = q;
      done = e;
      run = accepted p fd_status_w size e;
      apt = writing (omega (arith, lt, pending_length q h.bounded));
    }

some_byte : (b : ℕ) (bs : List ℕ) → b ∷ bs ≢ []
some_byte b bs e = cc

module _ {got wire : List ℕ} (p : PeerState) (run : Run got wire p) where
  follows : Follows got wire p
  follows = Run-Follows p run

  unchanged : (status : FdStatus) → IsApt p status → Handled got wire (some (status, p))
  unchanged status apt = record { status = status; peer = p; done = refl; run = run; apt = apt }

  pub closed : (reason : CloseReason) → Handled got wire (some (close_with p reason))
  unfolding close_with
  closed reason = record {
    status = fd_status_norw;
    peer = record p { close_reason = some reason };
    done = refl;
    run = step got wire p run (closing reason);
    apt = finished reason refl;
  }

  -- peer_consume, as the event loops call it.
  pub consume-Handled :
      (bytes : List ℕ)
      → bytes ≢ []
      → length bytes ≤ recv_room p
      → Handled (got ++ bytes) wire (consume p bytes)
  consume-Handled bytes some_bytes fits =
      let (q, e, h, z) = consume-Follows p bytes follows fits some_bytes in
      record {
        status = asking q.sendbuf_end;
        peer = q;
        done = e;
        run = step got wire p run (consuming bytes fits some_bytes e);
        apt =
            subst (λ n. IsApt q (asking n)) (pending_length q h.bounded ∙ omega (arith, z))
              (asking-IsApt q h);
      }

  -- peer_sent, as the event loops call it.
  pub sent-Handled :
      (n : ℕ) → n ≤ (pending p).0 → Handled got (wire ++ take n (pending p).1) (some (sent p n))
  sent-Handled n le =
      let h = sent-Follows p n follows le in
      record {
        status = (sent p n).0;
        peer = (sent p n).1;
        done = refl;
        run = step got wire p run (sending n le);
        apt = elim (sent-cases p n) [
          | inl (e, lt) ↦ rw e (writing (omega (arith, lt, pending_length (sent p n).1 h.bounded)))
          | inr (e, z, z') ↦ rw e (elim (room_or_output (sent p n).1 h) [
            | inl (_, some_left) ↦
                absurd (omega (arith, z, z', some_left, pending_length (sent p n).1 h.bounded))
            | inr (room, _) ↦ reading room
          ])
        ];
      }

  after_recv-Handled :
      (r : RecvResult)
      → length (yields r) ≤ recv_room p
      → recv_room p ≡ sendbuf_size
      → Handled (got ++ yields r) wire (after_recv r p)
  unfolding after_recv
  after_recv-Handled (received []) fits room = rw (append-nil got) (closed peer_closed)
  after_recv-Handled (received (b ∷ bs)) fits room = consume-Handled (b ∷ bs) (some_byte b bs) fits
  after_recv-Handled (recv_failed e) fits room =
      rw (append-nil got) (go (is_eintr e || is_again e) (is_reset e))
    where
      go :
          (again reset : Bool)
          → Handled got wire (
              some (
                if again
                then (fd_status_r, p)
                else if reset
                then close_with p peer_reset
                else close_with p (strerror e)))
      go true _ = unchanged fd_status_r (reading room)
      go false true = closed peer_reset
      go false false = closed (strerror e)

  clipped : (room : ℕ) (r : RecvResult) → length (yields (clip_recv room r)) ≤ room
  clipped room (received bytes) = omega (arith, length-take room bytes)
  clipped room (recv_failed e) = omega arith

  -- peer_on_ready_recv, whatever the kernel has to offer to recv.
  pub on_ready_recv-Handled :
      (r : RecvResult)
      → Handled (got ++ heard r p) wire (on_ready_recv (clip_recv (recv_room p) r) p)
  unfolding on_ready_recv
  on_ready_recv-Handled r = elim (room_or_output p follows) [
    | inl (full, some_left) ↦ rw (full, append-nil got) (unchanged fd_status_w (writing some_left))
    | inr (room, _) ↦ rw room (
        after_recv-Handled (clip_recv sendbuf_size r) (omega (arith, clipped sendbuf_size r, room))
          room)
  ]

  after_send-Handled :
      (s : SendResult)
      → takes s ≤ (pending p).0
      → 0 < (pending p).0
      → Handled got (wire ++ take (takes s) (pending p).1) (some (after_send s p))
  unfolding after_send
  after_send-Handled (wrote n) le some_left = sent-Handled n le
  after_send-Handled (send_failed e) le some_left =
      rw (append-nil wire) (go (is_eintr e || is_again e) (is_reset_or_pipe e))
    where
      go :
          (again reset : Bool)
          → Handled got wire (
              some (
                if again
                then (fd_status_w, p)
                else if reset
                then close_with p peer_reset
                else close_with p (strerror e)))
      go true _ = unchanged fd_status_w (writing some_left)
      go false true = closed peer_reset
      go false false = closed (strerror e)

  fitting : (len : ℕ) (s : SendResult) → takes (clip_send len s) ≤ len
  fitting len (wrote n) = omega arith
  fitting len (send_failed e) = omega arith

  -- peer_on_ready_send, whatever the kernel has to offer to send.
  pub on_ready_send-Handled :
      (s : SendResult)
      → Handled got (wire ++ told s p) (some (on_ready_send (clip_send (pending p).0 s) p))
  unfolding on_ready_send
  on_ready_send-Handled s = elim (room_or_output p follows) [
    | inl (_, some_left) ↦
        rw (positive some_left)
          (after_send-Handled (clip_send (pending p).0 s) (fitting (pending p).0 s) some_left)
    | inr (room, none_left) ↦ rw (none_left, append-nil wire) (unchanged fd_status_rw (either room))
  ]
    where
      positive : 0 < (pending p).0 → ((pending p).0 == 0) ≡ false
      positive h = ground (arith, h)
