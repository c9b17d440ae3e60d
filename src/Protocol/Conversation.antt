-- ===== src/Protocol/Conversation.antt =====
-- The loop of `serve_connection` in src/protocol.c, from any of its states.
use concurrent_servers.Prelude.{
  ℕ, suc, ◌+◌, ◌≤◌, ◌<◌, ◌^◌, ◌≡◌, ◌≢◌, refl, sym, ap, ap₂, ◌∙◌, ◌⊎◌, inl, inr, List, [], ◌∷◌, ◌++◌,
  arith, ltb, if◌then◌else◌, Bool-cases, length, take, All, append-nil, append_assoc, length-append,
  length-take, take-append_left, take-append_right,
}
use concurrent_servers.Sys.{
  Errno, RecvResult, received, recv_failed, SendResult, ClockReading, is_eintr,
}
use concurrent_servers.Sys.Streams.{stream}
use concurrent_servers.Framing.{mode_after, echo, echo-append}
use concurrent_servers.Metrics.{metrics_now_ns, metrics_request_observed}
use concurrent_servers.Metrics.Buckets.{observe_all}
use concurrent_servers.Protocol.{
  serve_ok, SendStatus, all_sent, send_error, send_blocked, SendEnd, classify_errno, Scan, Conn,
  ServeStatus, returned, blocked_recv, blocked_send, send_reply, after_reply, finish_request,
  serve_request, serve_loop,
}
use concurrent_servers.Protocol.Sending.{IsSsize, Sends, progress, send_all-Sends}
use concurrent_servers.Protocol.Scanning.{scan_in_place}

-- The number of buffers that the bytes of a peer come in.
pub requests : List RecvResult → ℕ
requests [] = 0
requests (received [] ∷ recvs) = 0
requests (received (b ∷ bs) ∷ recvs) = suc (requests recvs)
requests (recv_failed e ∷ recvs) = if is_eintr e then requests recvs else 0

-- How the conversation ends if every byte can be sent.
unfoldable pub ending : List RecvResult → ServeStatus
ending [] = blocked_recv
ending (received [] ∷ recvs) = returned serve_ok
ending (received (b ∷ bs) ∷ recvs) = ending recvs
ending (recv_failed e ∷ recvs) = if is_eintr e then ending recvs else returned (classify_errno e)

abbrev pub IsShort : RecvResult → Type 0
IsShort (received bytes) = length bytes < 2 ^ 63
IsShort (recv_failed e) = Unit

-- From `c` on the peer was answered in full for `bytes`, which came in `n` buffers, and the
-- conversation ended with `end`. Every buffer was observed in the metrics once.
pub record Completed (end : ServeStatus) (bytes : List ℕ) (n : ℕ) (c : Conn)
    (answer : ServeStatus × Conn) : Type 0 where
  pub status : answer.0 ≡ end
  pub wire : answer.1.wire ≡ c.wire ++ echo c.state bytes
  pub durations : List ℕ
  pub one_each : length durations ≡ n
  pub observed : answer.1.metrics ≡ observe_all durations c.metrics

-- Only a proper prefix of `reply` could be sent, for want of progress in the kernel's results, and
-- the conversation ended with the failed or blocked call.
pub record Abandoned (sends : List SendResult) (reply wire : List ℕ) (answer : ServeStatus × Conn)
    : Type 0 where
  pub sent : ℕ
  pub partial : sent < length reply
  pub starved : progress sends ≤ sent
  pub prefix : answer.1.wire ≡ wire ++ take sent reply
  pub status : (answer.0 ≡ blocked_send) ⊎ ((e : Errno) × (answer.0 ≡ returned (classify_errno e)))

abbrev pub Served : ServeStatus → List ℕ → ℕ → Conn → ServeStatus × Conn → Type 0
Served end bytes n c answer =
    Completed end bytes n c answer ⊎ Abandoned c.sends (echo c.state bytes) c.wire answer

-- The reply to one buffer of bytes.
send_reply-Sends :
    (reply : List ℕ) (s : Scan) (c : Conn)
    → take s.nsend s.recvbuf ≡ reply
    → length s.recvbuf < 2 ^ 63
    → All IsSsize c.sends
    → Sends c.sends reply c.wire (send_reply s c)
unfolding send_reply
send_reply-Sends reply s c e small k = elim (Bool-cases (ltb 0 s.nsend)) [
  | inl some_reply ↦
      rw (some_reply, ← e)
        (send_all-Sends c.sends (take s.nsend s.recvbuf) c.wire k
          (omega (arith, length-take s.nsend s.recvbuf)))
  | inr no_reply ↦
      let nothing : s.nsend ≡ 0 = ground arith in
      let empty : reply ≡ [] = sym e ∙ ap (λ n. take n s.recvbuf) nothing in
      rw (no_reply, empty)
        (record {
          taken = 0;
          in_order = sym (append-nil c.wire);
          whole = λ _. sym (append-nil c.wire);
          short = λ ne. absurd (ne refl);
          no_retry = λ x h. cc;
          spent = λ _. omega arith;
          starved = λ ne. absurd (ne refl);
          honest = k;
        })
]

-- One round of the loop, from `c` on, with `bytes` received and `e` the end of the reply.
module _ (clock : ℕ → ClockReading) (started : ℕ) (end : ServeStatus) (bytes rest : List ℕ) (n : ℕ)
    (c : Conn) (ticks : ℕ) (continue : Conn → ServeStatus × Conn)
    (later : (c' : Conn) → All IsSsize c'.sends → Served end rest n c' (continue c')) where
  after : SendEnd → Conn
  after e = record c {
    state = mode_after c.state bytes;
    sends = e.sends;
    wire = e.wire;
    ticks = ticks;
  }

  reply_left_over :
      (e : SendEnd)
      → Sends c.sends (echo c.state bytes) c.wire e
      → e.status ≢ all_sent
      → (status : ServeStatus)
      → (status ≡ blocked_send) ⊎ ((x : Errno) × (status ≡ returned (classify_errno x)))
      → Served end (bytes ++ rest) (suc n) c (status, after e)
  unfolding after
  reply_left_over e s ne status why = inr (record {
    sent = s.taken;
    starved = s.starved ne;
    partial = omega (
      arith,
      s.short ne,
      ap length (echo-append c.state bytes rest),
      length-append (echo c.state bytes) (echo (mode_after c.state bytes) rest),
    );
    prefix =
        s.in_order
        ∙ ap (◌++◌ c.wire) (
            sym (
              ap (take s.taken) (echo-append c.state bytes rest)
              ∙ take-append_left s.taken (echo c.state bytes) (echo (mode_after c.state bytes) rest)
                  (omega (arith, s.short ne))));
    status = why;
  })

  continued :
      (c' : Conn) (answer : ServeStatus × Conn) (d : ℕ)
      → c'.state ≡ mode_after c.state bytes
      → c'.wire ≡ c.wire ++ echo c.state bytes
      → c'.metrics ≡ metrics_request_observed d c.metrics
      → progress c.sends ≤ progress c'.sends + length (echo c.state bytes)
      → Served end rest n c' answer
      → Served end (bytes ++ rest) (suc n) c answer
  unfolding observe_all
  continued c' answer d mode sent seen budget (inl done) = inl (record {
    status = done.status;
    wire =
        done.wire
        ∙ ap₂ (λ w m. w ++ echo m rest) sent mode
        ∙ append_assoc c.wire (echo c.state bytes) (echo (mode_after c.state bytes) rest)
        ∙ ap (◌++◌ c.wire) (sym (echo-append c.state bytes rest));
    durations = d ∷ done.durations;
    one_each = ap suc done.one_each;
    observed = done.observed ∙ ap (observe_all done.durations) seen;
  })
  continued c' answer d mode sent seen budget (inr left) = inr (record {
    sent = length (echo c.state bytes) + left.sent;
    starved = omega (arith, left.starved);
    partial = omega (
      arith,
      left.partial,
      ap (λ m. length (echo m rest)) mode,
      ap length (echo-append c.state bytes rest),
      length-append (echo c.state bytes) (echo (mode_after c.state bytes) rest),
    );
    prefix =
        left.prefix
        ∙ ap₂ (λ w m. w ++ take left.sent (echo m rest)) sent mode
        ∙ append_assoc c.wire (echo c.state bytes)
            (take left.sent (echo (mode_after c.state bytes) rest))
        ∙ ap (◌++◌ c.wire) (
            sym (
              ap (take (length (echo c.state bytes) + left.sent)) (echo-append c.state bytes rest)
              ∙ take-append_right left.sent (echo c.state bytes)
                  (echo (mode_after c.state bytes) rest)));
    status = left.status;
  })

  after_reply-Served :
      (e : SendEnd) (status : SendStatus)
      → e.status ≡ status
      → Sends c.sends (echo c.state bytes) c.wire e
      → Served end (bytes ++ rest) (suc n) c (after_reply clock started status (after e) continue)
  unfolding after_reply after
  after_reply-Served e all_sent h s =
      continued _ _ _ refl (s.whole h) refl (s.spent h) (later _ s.honest)
  after_reply-Served e (send_error x) h s =
      reply_left_over e s (λ all. cc) (returned (classify_errno x)) (inr (x, refl))
  after_reply-Served e send_blocked h s = reply_left_over e s (λ all. cc) blocked_send (inl refl)

serve_request-Served :
    (clock : ℕ → ClockReading) (end : ServeStatus) (bytes rest : List ℕ) (n : ℕ) (c : Conn)
    (continue : Conn → ServeStatus × Conn)
    → length bytes < 2 ^ 63
    → All IsSsize c.sends
    → ((c' : Conn) → All IsSsize c'.sends → Served end rest n c' (continue c'))
    → Served end (bytes ++ rest) (suc n) c (serve_request clock bytes c continue)
unfolding serve_request finish_request after
serve_request-Served clock end bytes rest n c continue small k later =
    let r = scan_in_place bytes c.state small in
    let c₁ : Conn = record c { ticks = c.ticks + 1 } in
    let sends = send_reply-Sends (echo c.state bytes) r.last c₁ r.echoed r.size k in
    let served =
      after_reply-Served clock (metrics_now_ns (clock c.ticks)) end bytes rest n c (c.ticks + 1)
        continue later (send_reply r.last c₁) (send_reply r.last c₁).status refl sends in
    rw (r.finished, finish_request) (rw r.mode served)

-- The conversation ends before another byte.
nothing-Served : (end : ServeStatus) (c : Conn) → Served end [] 0 c (end, c)
unfolding observe_all
nothing-Served end c = inl (record {
  status = refl;
  wire = sym (append-nil c.wire);
  durations = [];
  one_each = refl;
  observed = refl;
})

pub serve_loop-Served :
    (clock : ℕ → ClockReading) (recvs : List RecvResult) (c : Conn)
    → All IsShort recvs
    → All IsSsize c.sends
    → Served (ending recvs) (stream recvs) (requests recvs) c (serve_loop clock recvs c)
unfolding serve_loop stream requests ending observe_all
serve_loop-Served clock [] c h k = nothing-Served blocked_recv c
serve_loop-Served clock (received [] ∷ recvs) c h k = nothing-Served (returned serve_ok) c
serve_loop-Served clock (recv_failed e ∷ recvs) c h k = elim (Bool-cases (is_eintr e)) [
  | inl again ↦ rw again (serve_loop-Served clock recvs c h.1 k)
  | inr fatal ↦ rw fatal (nothing-Served (returned (classify_errno e)) c)
]
serve_loop-Served clock (received (b ∷ bs) ∷ recvs) c h k =
    serve_request-Served clock (ending recvs) (b ∷ bs) (stream recvs) (requests recvs) c
      (serve_loop clock recvs) h.0 k (λ c'. serve_loop-Served clock recvs c' h.1)
