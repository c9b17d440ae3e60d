-- ===== src/Peer/Answers.antt =====
-- When src/peer_state.c closes a connection, with which reason, and when it leaves it as it is.
use concurrent_servers.Prelude.{
  ℕ, zero, suc, ◌+◌, ◌-◌, ◌≤◌, ◌<◌, ◌≡◌, ◌≢◌, refl, sym, ap, inl, inr, ◌⊎◌, true, false, ◌||◌, List,
  [], ◌∷◌, ◌++◌, Option, some, arith, ◌==◌, ltb, if◌then◌else◌, Bool-cases, length, take, subst,
  length-take, min,
}
use concurrent_servers.Sys.{
  Errno, eintr, eagain, ewouldblock, econnreset, epipe, etimedout, econnaborted, emfile, enfile,
  enobufs, enomem, other, RecvResult, received, recv_failed, SendResult, wrote, send_failed,
  add_u64, is_eintr, is_again,
}
use concurrent_servers.Peer.{
  ProcessingState, initial_ack, wait_for_msg, in_msg, PeerState, FdStatus, CloseReason, peer_closed,
  peer_reset, strerror, fd_status_r, fd_status_w, fd_status_rw, fd_status_norw, is_initial_ack,
  consume, recv_room, pending, sent, close_with, after_recv, on_ready_recv, after_send,
  on_ready_send, is_reset, is_reset_or_pipe,
}
use concurrent_servers.Peer.Consuming.{asking}
use concurrent_servers.Peer.Stream.{Follows, consume-Follows}
use concurrent_servers.Peer.Sent.{pending_length}
use concurrent_servers.Peer.Table.{heard, told, clip_recv, clip_send}
use concurrent_servers.Peer.Runs.{
  Run, Run-Follows, Handled, on_ready_recv-Handled, on_ready_send-Handled,
}
use concurrent_servers.Peer.Keeping.{consume-keeps}

-- The errnos after which a call is made again later.
abbrev pub IsRetried : Errno → Type 0
IsRetried e = (e ≡ eintr) ⊎ ((e ≡ eagain) ⊎ (e ≡ ewouldblock))

-- The answer to a peer that is closed for a reason.
abbrev pub closes_for : PeerState → CloseReason → FdStatus × PeerState
closes_for p reason = (fd_status_norw, record p { close_reason = some reason })

-- What peer_on_ready_recv may answer, by what the kernel has to offer to recv.
pub data RecvAnswer (p : PeerState) : RecvResult → Option (FdStatus × PeerState) → Type 0 where
  -- there is output left: no recv, and nothing changes
  no_room : {r : RecvResult} → recv_room p ≡ 0 → RecvAnswer p r (some (fd_status_w, p))
  -- the bytes are taken in, and the connection stays
  took_in :
      (offered : List ℕ) (st : FdStatus) (q : PeerState)
      → 0 < recv_room p
      → offered ≢ []
      → consume p (take (recv_room p) offered) ≡ some (st, q)
      → (st ≡ fd_status_r) ⊎ (st ≡ fd_status_w)
      → q.close_reason ≡ p.close_reason
      → RecvAnswer p (received offered) (some (st, q))
  ended : 0 < recv_room p → RecvAnswer p (received []) (some (closes_for p peer_closed))
  -- nothing changes
  recv_again :
      (e : Errno)
      → 0 < recv_room p
      → IsRetried e
      → RecvAnswer p (recv_failed e) (some (fd_status_r, p))
  recv_reset :
      0 < recv_room p → RecvAnswer p (recv_failed econnreset) (some (closes_for p peer_reset))
  recv_lost :
      (e : Errno)
      → 0 < recv_room p
      → ¬ IsRetried e
      → e ≢ econnreset
      → RecvAnswer p (recv_failed e) (some (closes_for p (strerror e)))

-- What peer_on_ready_send may answer, by what the kernel has to offer to send.
pub data SendAnswer (p : PeerState) : SendResult → FdStatus × PeerState → Type 0 where
  -- there is no output: no send, and nothing changes
  no_output : {s : SendResult} → (pending p).0 ≡ 0 → SendAnswer p s (fd_status_rw, p)
  -- a part goes out, and the rest stays for later
  sent_part :
      (n : ℕ)
      → n < (pending p).0
      → SendAnswer p (wrote n) (fd_status_w, record p { sendptr = p.sendptr + n })
  sent_all :
      (n : ℕ) (state : ProcessingState)
      → 0 < (pending p).0
      → (pending p).0 ≤ n
      → state ≢ initial_ack
      → SendAnswer p
          (wrote n)
          (fd_status_r, record p { state = state; sendbuf_end = 0; sendptr = 0 })
  -- nothing changes
  send_again :
      (e : Errno) → 0 < (pending p).0 → IsRetried e → SendAnswer p (send_failed e) (fd_status_w, p)
  send_reset :
      (e : Errno)
      → 0 < (pending p).0
      → (e ≡ econnreset) ⊎ (e ≡ epipe)
      → SendAnswer p (send_failed e) (closes_for p peer_reset)
  send_lost :
      (e : Errno)
      → 0 < (pending p).0
      → ¬ IsRetried e
      → e ≢ econnreset
      → e ≢ epipe
      → SendAnswer p (send_failed e) (closes_for p (strerror e))

-- Whether an errno is one of those of which the code makes something special.
data Kind : Errno → Type 0 where
  retried : (e : Errno) → IsRetried e → (is_eintr e || is_again e) ≡ true → Kind e
  reset : Kind econnreset
  pipe : Kind epipe
  others :
      (e : Errno)
      → ¬ IsRetried e
      → e ≢ econnreset
      → e ≢ epipe
      → (is_eintr e || is_again e) ≡ false
      → is_reset e ≡ false
      → is_reset_or_pipe e ≡ false
      → Kind e

plainly : (e : Errno) → e ≢ eintr → e ≢ eagain → e ≢ ewouldblock → ¬ IsRetried e
plainly e a b c (inl h) = a h
plainly e a b c (inr (inl h)) = b h
plainly e a b c (inr (inr h)) = c h

kind : (e : Errno) → Kind e
kind eintr = retried eintr (inl refl) refl
kind eagain = retried eagain (inr (inl refl)) refl
kind ewouldblock = retried ewouldblock (inr (inr refl)) refl
kind econnreset = reset
kind epipe = pipe
kind etimedout =
    others _ (plainly _ (λ h. cc) (λ h. cc) (λ h. cc)) (λ h. cc) (λ h. cc) refl refl refl
kind econnaborted =
    others _ (plainly _ (λ h. cc) (λ h. cc) (λ h. cc)) (λ h. cc) (λ h. cc) refl refl refl
kind emfile = others _ (plainly _ (λ h. cc) (λ h. cc) (λ h. cc)) (λ h. cc) (λ h. cc) refl refl refl
kind enfile = others _ (plainly _ (λ h. cc) (λ h. cc) (λ h. cc)) (λ h. cc) (λ h. cc) refl refl refl
kind enobufs = others _ (plainly _ (λ h. cc) (λ h. cc) (λ h. cc)) (λ h. cc) (λ h. cc) refl refl refl
kind enomem = others _ (plainly _ (λ h. cc) (λ h. cc) (λ h. cc)) (λ h. cc) (λ h. cc) refl refl refl
kind (other n) =
    others _ (plainly _ (λ h. cc) (λ h. cc) (λ h. cc)) (λ h. cc) (λ h. cc) refl refl refl

suc_nonzero : (k : ℕ) → (suc k == 0) ≡ false
suc_nonzero k = ground arith

-- The acknowledgement has gone out.
beyond_ack :
    (state : ProcessingState) → (if is_initial_ack state then wait_for_msg else state) ≢ initial_ack
beyond_ack initial_ack e = cc
beyond_ack wait_for_msg e = cc
beyond_ack in_msg e = cc

asking-cases : (n : ℕ) → (asking n ≡ fd_status_r) ⊎ (asking n ≡ fd_status_w)
asking-cases n = elim (Bool-cases (ltb 0 n)) [ inl e ↦ inr (rw e refl) | inr e ↦ inl (rw e refl) ]

module _ {got wire : List ℕ} (p : PeerState) (run : Run got wire p) where
  consumes :
      (bytes offered : List ℕ)
      → 0 < recv_room p
      → bytes ≡ take (recv_room p) offered
      → bytes ≢ []
      → offered ≢ []
      → RecvAnswer p (received offered) (consume p bytes)
  consumes bytes offered some_room cut some_bytes some_offered =
      let fits : length bytes ≤ recv_room p =
        omega (arith, ap length cut, length-take (recv_room p) offered) in
      let (q, e, _, _) = consume-Follows p bytes (Run-Follows p run) fits some_bytes in
      subst (RecvAnswer p (received offered)) (sym e) (
        took_in offered (asking q.sendbuf_end) q some_room some_offered
          (subst (λ b. consume p b ≡ some (asking q.sendbuf_end, q)) cut e)
          (asking-cases q.sendbuf_end) (consume-keeps p bytes some_room fits e))

  after_recv-Answer :
      (r : RecvResult) (k : ℕ)
      → recv_room p ≡ suc k
      → RecvAnswer p r (after_recv (clip_recv (suc k) r) p)
  unfolding after_recv close_with
  after_recv-Answer (received []) k room = ended (omega (arith, room))
  after_recv-Answer (received (b ∷ bs)) k room =
      consumes (b ∷ take k bs) (b ∷ bs) (omega (arith, room)) (rw room refl) (λ e. cc) (λ e. cc)
  after_recv-Answer (recv_failed e) k room = go (kind e)
    where
      go :
          {e : Errno}
          → Kind e
          → RecvAnswer p (recv_failed e) (
              some (
                if is_eintr e || is_again e
                then (fd_status_r, p)
                else if is_reset e
                then closes_for p peer_reset
                else closes_for p (strerror e)))
      go (retried e again h) = rw h (recv_again e (omega (arith, room)) again)
      go reset = recv_reset (omega (arith, room))
      go pipe =
          recv_lost epipe (omega (arith, room)) (plainly _ (λ h. cc) (λ h. cc) (λ h. cc)) (λ h. cc)
      go (others e h i j a b c) = rw (a, b) (recv_lost e (omega (arith, room)) h i)

  on_ready_recv-Answer :
      (r : RecvResult) → RecvAnswer p r (on_ready_recv (clip_recv (recv_room p) r) p)
  unfolding on_ready_recv
  on_ready_recv-Answer r = go (recv_room p) refl
    where
      go :
          (room : ℕ)
          → recv_room p ≡ room
          → RecvAnswer p r
              (if room == 0 then some (fd_status_w, p) else after_recv (clip_recv room r) p)
      go zero e = no_room e
      go (suc k) e = rw (suc_nonzero k) (after_recv-Answer r k e)

  sent-Answer : (n : ℕ) → 0 < (pending p).0 → SendAnswer p (wrote n) (sent p (min n (pending p).0))
  unfolding sent
  sent-Answer n some_left =
      elim (Bool-cases (ltb (add_u64 p.sendptr (min n (pending p).0)) p.sendbuf_end)) [
        | inl more ↦ rw more (
            subst (λ k. SendAnswer p (wrote n) (fd_status_w, record p { sendptr = k }))
              {x = p.sendptr + n} {y = add_u64 p.sendptr (min n (pending p).0)}
              (ground (arith, more, length_lem, h.bounded))
              (sent_part n (ground (arith, more, length_lem, h.bounded))))
        | inr all ↦ rw all (
            sent_all n (if is_initial_ack p.state then wait_for_msg else p.state) some_left
              (ground (arith, all, length_lem, h.bounded)) (beyond_ack p.state))
      ]
    where
      h : Follows got wire p
      h = Run-Follows p run

      length_lem : (pending p).0 ≡ p.sendbuf_end - p.sendptr
      length_lem = pending_length p h.bounded

  after_send-Answer :
      (s : SendResult)
      → 0 < (pending p).0
      → SendAnswer p s (after_send (clip_send (pending p).0 s) p)
  unfolding after_send close_with
  after_send-Answer (wrote n) some_left = sent-Answer n some_left
  after_send-Answer (send_failed e) some_left = go (kind e)
    where
      go :
          {e : Errno}
          → Kind e
          → SendAnswer p (send_failed e) (
              if is_eintr e || is_again e
              then (fd_status_w, p)
              else if is_reset_or_pipe e
              then closes_for p peer_reset
              else closes_for p (strerror e))
      go (retried e again h) = rw h (send_again e some_left again)
      go reset = send_reset econnreset some_left (inl refl)
      go pipe = send_reset epipe some_left (inr refl)
      go (others e h i j a b c) = rw (a, c) (send_lost e some_left h i j)

  on_ready_send-Answer :
      (s : SendResult) → SendAnswer p s (on_ready_send (clip_send (pending p).0 s) p)
  unfolding on_ready_send
  on_ready_send-Answer s = elim (Bool-cases ((pending p).0 == 0)) [
    | inl none_left ↦ rw none_left (no_output (ground (arith, none_left)))
    | inr some_left ↦ rw some_left (after_send-Answer s (ground (arith, some_left)))
  ]

-- peer_on_ready_recv, on a peer of the table whose connection can come about, whatever the kernel has
-- to offer to recv. It stays within the buffer, adds what was received to the peer's account, and asks
-- for what can come. With output left it does not call recv, changes nothing and asks for writing; it
-- takes in at most as many bytes as there is room for, asks for reading or writing, and sets no reason
-- to close; EINTR, EAGAIN and EWOULDBLOCK change nothing; and it closes in three cases alone, each with
-- its reason: the end of the stream, ECONNRESET, and any other errno.
pub on_ready_recv-Answers :
    {got wire : List ℕ} (p : PeerState)
    → Run got wire p
    → (r : RecvResult)
    → Handled (got ++ heard r p) wire (on_ready_recv (clip_recv (recv_room p) r) p)
      × RecvAnswer p r (on_ready_recv (clip_recv (recv_room p) r) p)
on_ready_recv-Answers p run r = (on_ready_recv-Handled p run r, on_ready_recv-Answer p run r)

-- peer_on_ready_send, on a peer of the table whose connection can come about, whatever the kernel has
-- to offer to send. It stays within the buffer, adds what was sent to the peer's account, and asks for
-- what can come. Without output it does not call send, changes nothing and asks for reading and writing;
-- a part that goes out moves the pointer by its length and asks for writing; all of it empties the
-- buffer, ends the acknowledgement and asks for reading; EINTR, EAGAIN and EWOULDBLOCK change nothing;
-- and it closes in two cases alone, each with its reason: ECONNRESET or EPIPE, and any other errno.
pub on_ready_send-Answers :
    {got wire : List ℕ} (p : PeerState)
    → Run got wire p
    → (s : SendResult)
    → Handled got (wire ++ told s p) (some (on_ready_send (clip_send (pending p).0 s) p))
      × SendAnswer p s (on_ready_send (clip_send (pending p).0 s) p)
on_ready_send-Answers p run s = (on_ready_send-Handled p run s, on_ready_send-Answer p run s)
