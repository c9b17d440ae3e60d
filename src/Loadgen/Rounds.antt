-- ===== src/Loadgen/Rounds.antt =====
-- The loop of `conn_main` over the messages.
use concurrent_servers.Prelude.{
  ℕ, zero, suc, ◌+◌, ◌≤◌, ◌≡◌, refl, sym, ap, subst, inl, inr, List, [], arith, length, take, All,
  append-nil, length-append,
}
use concurrent_servers.Protocol.{SendStatus, all_sent, send_error, send_blocked, SendEnd}
use concurrent_servers.Protocol.Sending.{IsSsize, Sends, send_all-Sends}
use concurrent_servers.Loadgen.{
  max_payload, RecvEnd, recv_exact, send_all_fd, Frames, Ctx, ThreadEnd, after_recv, after_send,
  send_messages,
}
use concurrent_servers.Loadgen.Framed.{frame, length-frame, Framed}
use concurrent_servers.Loadgen.Receiving.{Receives, got_them, failed, waits, recv_exact-Receives}
use concurrent_servers.Loadgen.Messages.{frames, answer_bytes, Ran, answered, broke, stuck, onward}

module _ (n : ℕ) (a : Frames) (f : Framed n a) (room_e : n ≤ length a.expected)
    (small : n ≤ max_payload) where
  received_round :
      (m : ℕ) (got : List ℕ) (c : Ctx) (s : SendEnd) (r : RecvEnd)
      (later : List ℕ → Ctx → ThreadEnd × Ctx)
      → n ≤ length got
      → Sends c.sends (frame n) c.wire s
      → s.status ≡ all_sent
      → Receives c.recvs [] n n (length got) r
      → ((got' : List ℕ) (c' : Ctx)
          → n ≤ length got'
          → All IsSsize c'.sends
          → Ran m n c' (later got' c'))
      → Ran
          (suc m)
          n
          c
          (after_recv r.status n a.expected r (record c { sends = s.sends; wire = s.wire }) later)
  unfolding after_recv answer_bytes
  received_round m got c s r later room sent all (failed st short ended) goes =
      subst
        (λ t.
          Ran (suc m) n c
            (after_recv t n a.expected r (record c { sends = s.sends; wire = s.wire }) later))
        (sym st) (broke _ refl (inr (omega (arith, short))))
  received_round m got c s r later room sent all (waits st short open_end) goes =
      subst
        (λ t.
          Ran (suc m) n c
            (after_recv t n a.expected r (record c { sends = s.sends; wire = s.wire }) later))
        (sym st) (stuck _ (inr (omega (arith, short))))
  received_round m got c s r later room sent all (got_them st enough front rest fate size) goes =
      subst
        (λ t.
          Ran (suc m) n c
            (after_recv t n a.expected r (record c { sends = s.sends; wire = s.wire }) later))
        (sym st)
        (onward m n a f room_e c s sent all r enough front rest
          (goes r.buf _ (omega (arith, size, room)) sent.honest))

  sent_round :
      (m : ℕ) (got : List ℕ) (c : Ctx) (s : SendEnd) (later : List ℕ → Ctx → ThreadEnd × Ctx)
      → n ≤ length got
      → Sends c.sends (frame n) c.wire s
      → ((got' : List ℕ) (c' : Ctx)
          → n ≤ length got'
          → All IsSsize c'.sends
          → Ran m n c' (later got' c'))
      → (st : SendStatus) → s.status ≡ st
      → Ran (suc m) n c (after_send st n a.expected got s c later)
  unfolding after_send frames
  sent_round m got c s later room sent goes send_blocked e = stuck _ (
      inl (
        omega (
          arith,
          length-append (frame n) (frames m n),
          sent.starved (λ q. cc),
          sent.short (λ q. cc),
        )))
  sent_round m got c s later room sent goes (send_error x) e = broke _ refl (
      inl (
        omega (
          arith,
          length-append (frame n) (frames m n),
          sent.starved (λ q. cc),
          sent.short (λ q. cc),
        )))
  sent_round m got c s later room sent goes all_sent e =
      received_round m got c s (recv_exact c.recvs got n) later room sent e
        (recv_exact-Receives c.recvs got n (omega arith) room) goes

  pub send_messages-Ran :
      (m : ℕ) (got : List ℕ) (c : Ctx)
      → n ≤ length got
      → All IsSsize c.sends
      → Ran m n c (send_messages m n a got c)
  unfolding send_messages send_all_fd answer_bytes frames
  send_messages-Ran zero got c room honest =
      answered c (omega arith) refl (sym (append-nil c.wire)) (omega arith) (inl (refl, refl))
  send_messages-Ran (suc m) got c room honest =
      sent_round m got c (send_all_fd c.sends (take (n + 2) a.req) c.wire) (send_messages m n a)
        room
        (subst (λ xs. Sends c.sends xs c.wire (send_all_fd c.sends (take (n + 2) a.req) c.wire))
          f.request
          (send_all-Sends c.sends (take (n + 2) a.req) c.wire honest
            (omega (arith, ap length f.request, length-frame n))))
        (λ got' c' room' honest'. send_messages-Ran m got' c' room' honest') _ refl
