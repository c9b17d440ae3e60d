-- ===== src/Loadgen/Verdict.antt =====
-- What the counters of a connection say of the server.
use concurrent_servers.Prelude.{
  ℕ, ◌+◌, ◌≤◌, ◌<◌, ◌≡◌, ◌≢◌, refl, sym, ap, ◌∙◌, subst, ◌⊎◌, inl, inr, List, [], ◌∷◌, ◌++◌, true,
  arith, Bool-cases, length, take, drop, All, take-add, ap₂, length-drop, Option, none, some,
}
use concurrent_servers.Sys.Streams.{stream}
use concurrent_servers.Framing.{outside, star, echo}
use concurrent_servers.Protocol.Sending.{IsSsize, progress}
use concurrent_servers.Loadgen.{
  max_payload, RecvEnd, recv_exact, make_frames, after_frames, close_behind, Frames, Ctx,
  same_bytes, ThreadEnd, returns, blocks, after_ack, conn_main,
}
use concurrent_servers.Loadgen.Framed.{make_frames-Framed, Framed-room}
use concurrent_servers.Loadgen.Rounds.{send_messages-Ran}
use concurrent_servers.Loadgen.Receiving.{Receives, got_them, failed, waits, recv_exact-Receives}
use concurrent_servers.Loadgen.Messages.{
  frames, answer_bytes, Wants, Ran, answered, broke, stuck, same_bytes→eq, same_bytes_self,
}

-- How the connection goes, for `m` messages of `n` bytes: there is none; or everything is answered; or
-- the server's first byte is not its acknowledgement, or the kernel gives too little, and errors are
-- counted; or a call is blocked. A thread that returns has closed its socket.
pub data Verdict (fd : Option ℕ) (m n : ℕ) (c : Ctx) : ThreadEnd × Ctx → Type 0 where
  not_connected :
      (c' : Ctx)
      → fd ≡ none
      → c'.completed ≡ c.completed
      → c'.errors ≡ m
      → c'.fd ≡ none
      → Verdict fd m n c (returns, c')
  all_answered :
      (c' : Ctx)
      → fd ≢ none
      → c'.fd ≡ none
      → c'.completed ≡ c.completed + m
      → c'.errors ≡ c.errors
      → c'.wire ≡ c.wire ++ frames m n
      → ((take (1 + answer_bytes m n) (stream c.recvs) ≡ star ∷ echo outside (frames m n))
          × (c'.mismatches ≡ c.mismatches))
        ⊎ ((take (1 + answer_bytes m n) (stream c.recvs) ≢ star ∷ echo outside (frames m n))
            × (c.mismatches < c'.mismatches))
      → Verdict fd m n c (returns, c')
  cut_off :
      (c' : Ctx)
      → c.errors < c'.errors
      → c'.fd ≡ none
      → ((progress c.sends < length (frames m n))
          ⊎ (length (stream c.recvs) < 1 + answer_bytes m n))
        ⊎ (take 1 (stream c.recvs) ≢ star ∷ [])
      → Verdict fd m n c (returns, c')
  still_blocked :
      (c' : Ctx)
      → (progress c.sends < length (frames m n)) ⊎ (length (stream c.recvs) < 1 + answer_bytes m n)
      → Verdict fd m n c (blocks, c')

-- The messages, once the acknowledgement has been taken off the stream.
module _ (fd m n : ℕ) (c : Ctx) (r : RecvEnd) (enough : 1 ≤ length (stream c.recvs))
    (ack : take 1 (stream c.recvs) ≡ star ∷ [])
    (rest : stream r.recvs ≡ drop 1 (stream c.recvs)) where
  abbrev acked : Ctx
  acked = record c { fd = some fd; recvs = r.recvs }

  whole :
      take (1 + answer_bytes m n) (stream c.recvs) ≡ star ∷ take (answer_bytes m n) (stream r.recvs)
  whole =
      sym (take-add 1 (answer_bytes m n) (stream c.recvs))
      ∙ ap₂ ◌++◌ ack (ap (take (answer_bytes m n)) (sym rest))

  wanting :
      Wants m n acked
      → (progress c.sends < length (frames m n)) ⊎ (length (stream c.recvs) < 1 + answer_bytes m n)
  wanting (inl slow) = inl slow
  wanting (inr short) =
      inr (omega (arith, short, ap length rest, length-drop 1 (stream c.recvs), enough))

  acked-Verdict : {e : ThreadEnd × Ctx} → Ran m n acked e → Verdict (some fd) m n c (close_behind e)
  unfolding close_behind
  acked-Verdict (answered c' completed errors wire long j) =
      all_answered _ (λ e. cc) refl completed errors wire
        (elim j [
          | inl (e, none_more) ↦ inl (whole ∙ ap (◌∷◌ star) e, none_more)
          | inr (ne, more) ↦ inr (λ e. ne (tails (sym whole ∙ e)), more)
        ])
    where
      tails : {xs ys : List ℕ} → star ∷ xs ≡ star ∷ ys → xs ≡ ys
      tails e = cc
  acked-Verdict (broke c' errors w) = cut_off _ (omega (arith, errors)) refl (inl (wanting w))
  acked-Verdict (stuck c' w) = still_blocked c' (wanting w)

-- By what the filling of the arrays comes to, on a connection that is there.
after_frames-Verdict :
    (fd m n : ℕ) (a : Frames) (got : List ℕ) (c : Ctx) (r : RecvEnd)
    → n ≤ max_payload
    → length a.req ≡ max_payload + 2
    → length a.expected ≡ max_payload
    → n ≤ length got
    → All IsSsize c.sends
    → 1 ≤ length (stream c.recvs)
    → take 1 (stream c.recvs) ≡ star ∷ []
    → stream r.recvs ≡ drop 1 (stream c.recvs)
    → Verdict
        (some fd)
        m
        n
        c
        (after_frames (make_frames n a) m n got (record c { fd = some fd; recvs = r.recvs }))
unfolding after_frames
after_frames-Verdict fd m n a got c r small req expected room honest enough ack rest =
    let (b, made, f) = make_frames-Framed n a small req expected in
    rw made (
      acked-Verdict fd m n c r enough ack rest (
        send_messages-Ran n b f (Framed-room n b f) small m got
          (record c { fd = some fd; recvs = r.recvs }) room honest))

-- A connection of the load generator passes, with all of its messages completed and neither an error
-- nor a mismatch counted, exactly when it is there and the server has sent its acknowledgement and the
-- framing's answer to all requests, however the bytes come in pieces; a wrong answer of the right length
-- is counted as a mismatch. It stops with an error or stays blocked only if there is no connection, the
-- first byte is not the acknowledgement, the stream is too short, or the kernel's sends make too little
-- progress. A thread that returns has closed its socket, and there is no access out of bounds. The
-- error counter starts at zero, there is a message, and the arrays have their sizes.
pub conn_main-Verdict :
    (fd : Option ℕ) (m n : ℕ) (a : Frames) (ack got : List ℕ) (c : Ctx)
    → 0 < m
    → n ≤ max_payload
    → length a.req ≡ max_payload + 2
    → length a.expected ≡ max_payload
    → length ack ≡ 1
    → length got ≡ max_payload
    → All IsSsize c.sends
    → c.errors ≡ 0
    → Verdict fd m n c (conn_main fd m n a ack got c)
unfolding conn_main after_ack
conn_main-Verdict none m n a ack got c some_message small req expected one room honest zero_errors =
    not_connected _ refl refl refl refl
conn_main-Verdict (some fd) m n a ack got c some_message small req expected one room honest
      zero_errors =
    go (recv_exact c.recvs ack 1)
      (recv_exact-Receives c.recvs ack 1 (omega arith) (omega (arith, one)))
  where
    go :
        (r : RecvEnd)
        → Receives c.recvs [] 1 1 (length ack) r
        → Verdict (some fd) m n c (after_ack r.status m n a got r (record c { fd = some fd }))
    go r (failed st short ended) =
        subst (λ t. Verdict (some fd) m n c (after_ack t m n a got r (record c { fd = some fd })))
          (sym st)
          (cut_off _ (omega (arith, zero_errors, some_message)) refl
            (inl (inr (omega (arith, short)))))
    go r (waits st short open_end) =
        subst (λ t. Verdict (some fd) m n c (after_ack t m n a got r (record c { fd = some fd })))
          (sym st) (still_blocked _ (inr (omega (arith, short))))
    go r (got_them st enough front rest fate size) =
        subst (λ t. Verdict (some fd) m n c (after_ack t m n a got r (record c { fd = some fd })))
          (sym st)
          (elim (Bool-cases (same_bytes (take 1 r.buf) (star ∷ []))) [
            | inl acks ↦ rw acks (
                after_frames-Verdict fd m n a got c r small req expected (omega (arith, room))
                  honest enough (sym front ∙ same_bytes→eq (take 1 r.buf) (star ∷ []) acks) rest)
            | inr other ↦ rw other (
                cut_off _ (omega (arith, zero_errors, some_message)) refl (
                  inr (λ e.
                    let same : same_bytes (take 1 r.buf) (star ∷ []) ≡ true =
                      rw (front ∙ e) (same_bytes_self (star ∷ [])) in
                    cc (same, other))))
          ])
