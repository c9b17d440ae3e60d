-- ===== src/Protocol/Serving.antt =====
-- What a whole conversation of `serve_connection` in src/protocol.c puts on the wire, and how it ends.
use concurrent_servers.Prelude.{
  ℕ, zero, suc, ◌+◌, ◌≤◌, ◌<◌, ◌≡◌, refl, ap, ◌∙◌, ◌⊎◌, inl, inr, List, [], ◌∷◌, ◌++◌, arith,
  length, take, All,
}
use concurrent_servers.Sys.{RecvResult, SendResult, ClockReading}
use concurrent_servers.Sys.Streams.{stream}
use concurrent_servers.Framing.{outside, star, echo}
use concurrent_servers.Metrics.{Registry}
use concurrent_servers.Metrics.Buckets.{observe_all}
use concurrent_servers.Protocol.{
  SendStatus, all_sent, send_error, send_blocked, SendEnd, send_all, Conn, ServeStatus, after_ack,
  serve_connection,
}
use concurrent_servers.Protocol.Sending.{IsSsize, Sends, progress, send_all-Sends}
use concurrent_servers.Protocol.Conversation.{
  requests, ending, IsShort, Abandoned, Served, serve_loop-Served,
}

-- The answer that a stream deserves: the acknowledgement, then the echo of its frames.
abbrev pub full_reply : List RecvResult → List ℕ
full_reply recvs = star ∷ echo outside (stream recvs)

-- The peer was answered in full, and the conversation ended as its own side of it did.
pub record Answered (recvs : List RecvResult) (metrics : Registry) (answer : ServeStatus × Conn)
    : Type 0 where
  pub status : answer.0 ≡ ending recvs
  pub wire : answer.1.wire ≡ full_reply recvs
  pub durations : List ℕ
  pub one_each : length durations ≡ requests recvs
  pub observed : answer.1.metrics ≡ observe_all durations metrics

unsent : (n : ℕ) (more : List ℕ) → n < 1 → take n (star ∷ []) ≡ take n (star ∷ more)
unsent zero more h = refl
unsent (suc n) more h = absurd (omega arith)

abbrev acked : Registry → SendEnd → Conn
acked metrics e = record {
  state = outside;
  sends = e.sends;
  wire = e.wire;
  ticks = 0;
  metrics = metrics;
}

acked-Served :
    (recvs : List RecvResult) (sends : List SendResult) (metrics : Registry) (e : SendEnd)
    {answer : ServeStatus × Conn}
    → Sends sends (star ∷ []) [] e
    → e.wire ≡ star ∷ []
    → progress sends ≤ progress e.sends + 1
    → Served (ending recvs) (stream recvs) (requests recvs) (acked metrics e) answer
    → Answered recvs metrics answer ⊎ Abandoned sends (full_reply recvs) [] answer
acked-Served recvs sends metrics e s whole spent (inl done) = inl (record {
  status = done.status;
  wire = done.wire ∙ ap (λ w. w ++ echo outside (stream recvs)) whole;
  durations = done.durations;
  one_each = done.one_each;
  observed = done.observed;
})
acked-Served recvs sends metrics e s whole spent (inr left) = inr (record {
  sent = suc left.sent;
  partial = omega (arith, left.partial);
  starved = omega (arith, left.starved);
  prefix = left.prefix ∙ ap (λ w. w ++ take left.sent (echo outside (stream recvs))) whole;
  status = left.status;
})

after_ack-Served :
    (clock : ℕ → ClockReading) (recvs : List RecvResult) (sends : List SendResult)
    (metrics : Registry) (e : SendEnd) (status : SendStatus)
    → e.status ≡ status
    → Sends sends (star ∷ []) [] e
    → All IsShort recvs
    → let answer = after_ack clock recvs status (record {
      state = outside;
      sends = e.sends;
      wire = e.wire;
      ticks = 0;
      metrics = metrics;
    }) in
      Answered recvs metrics answer ⊎ Abandoned sends (full_reply recvs) [] answer
unfolding after_ack
after_ack-Served clock recvs sends metrics e all_sent h s short =
    acked-Served recvs sends metrics e s (s.whole h) (s.spent h)
      (serve_loop-Served clock recvs (acked metrics e) short s.honest)
after_ack-Served clock recvs sends metrics e (send_error x) h s short = inr (record {
  sent = s.taken;
  partial = omega (arith, s.short (λ q. cc));
  starved = s.starved (λ q. cc);
  prefix =
      s.in_order ∙ unsent s.taken (echo outside (stream recvs)) (omega (arith, s.short (λ q. cc)));
  status = inr (x, refl);
})
after_ack-Served clock recvs sends metrics e send_blocked h s short = inr (record {
  sent = s.taken;
  partial = omega (arith, s.short (λ q. cc));
  starved = s.starved (λ q. cc);
  prefix =
      s.in_order ∙ unsent s.taken (echo outside (stream recvs)) (omega (arith, s.short (λ q. cc)));
  status = inl refl;
})

-- Whatever the kernel does, `serve_connection` either answers the peer in full, with '*' and the
-- echo of the frames in all that the peer sent, observes each received buffer once in the metrics,
-- and ends as the peer's side of the connection did (closed, failed, or still silent); or it ends
-- with a failed or blocked send, and a proper prefix of that answer is on the wire. Results of recv
-- are shorter than 2 ^ 63 bytes, and those of send fit an ssize_t.
pub serve_connection-Served :
    (clock : ℕ → ClockReading) (recvs : List RecvResult) (sends : List SendResult)
    (metrics : Registry)
    → All IsShort recvs
    → All IsSsize sends
    → Answered recvs metrics (serve_connection clock recvs sends metrics)
      ⊎ Abandoned sends (full_reply recvs) [] (serve_connection clock recvs sends metrics)
unfolding serve_connection
serve_connection-Served clock recvs sends metrics short k =
    after_ack-Served clock recvs sends metrics (send_all sends (star ∷ []) [])
      (send_all sends (star ∷ []) []).status refl
      (send_all-Sends sends (star ∷ []) [] k (omega arith)) short

-- If the kernel takes a byte at least as often as the answer is long before a send fails, however
-- often it interrupts in between, then `serve_connection` answers the peer in full and ends as the
-- peer's side of the connection did.
pub serve_connection-Answered :
    (clock : ℕ → ClockReading) (recvs : List RecvResult) (sends : List SendResult)
    (metrics : Registry)
    → All IsShort recvs
    → All IsSsize sends
    → length (full_reply recvs) ≤ progress sends
    → Answered recvs metrics (serve_connection clock recvs sends metrics)
serve_connection-Answered clock recvs sends metrics short k enough =
    answered (serve_connection-Served clock recvs sends metrics short k)
  where
    answered :
        Answered recvs metrics (serve_connection clock recvs sends metrics)
          ⊎ Abandoned sends (full_reply recvs) [] (serve_connection clock recvs sends metrics)
        → Answered recvs metrics (serve_connection clock recvs sends metrics)
    answered (inl a) = a
    answered (inr left) = absurd (omega (arith, left.partial, left.starved))
