-- ===== src/MetricsServer/Responses.antt =====
-- What the endpoint answers.
use concurrent_servers.Prelude.{
  ℕ, ◌+◌, ◌-◌, ◌≤◌, ◌<◌, ◌^◌, ◌≡◌, ◌≢◌, refl, sym, ap, ◌∙◌, inl, inr, List, [], ◌++◌, some, true,
  false, arith, leb, Bool-cases, length, take, min, All, append_assoc, length-append,
  take-append_left, take-append_right, take_all, lt→ltb,
}
use concurrent_servers.Sys.{RecvResult, SendResult}
use concurrent_servers.Text.{codes, length-decimal}
use concurrent_servers.Metrics.{Registry, model_label}
use concurrent_servers.Metrics.Render.{metrics_render}
use concurrent_servers.Metrics.Render.Body.{body}
use concurrent_servers.Metrics.Render.Size.{length-body-le}
use concurrent_servers.Metrics.Render.Buffer.{Rendered, metrics_render-Rendered}
use concurrent_servers.Protocol.{SendStatus, all_sent, send_error, send_blocked, SendEnd}
use concurrent_servers.Protocol.Sending.{IsSsize, Sends, send_all-Sends}
use concurrent_servers.Sys.Streams.{stream, Fate, pending, closed, broken, fate}
use concurrent_servers.MetricsServer.{
  body_max, head_max, write_all, starts_with, ReadEnd, read_request, status_head, metrics_head,
  write_body, respond, send_status, send_rendered, send_metrics, Outcome, dropped, responded,
  waiting, route, serve, request_max,
}
use concurrent_servers.MetricsServer.Prefixes.{get_line, starts_with-read}
use concurrent_servers.MetricsServer.Requests.{
  BlankWithin, Reads, request, cut_off, nothing, waits, read_request-Reads,
}

-- The two responses.
pub exposition : Registry → List ℕ
exposition g = metrics_head (length (body g)) ++ body g

abbrev not_found_text : List ℕ
not_found_text = codes "not found\n"

pub not_found : List ℕ
not_found = status_head (codes "404 Not Found") not_found_text ++ not_found_text

write_all-Sends :
    (sends : List SendResult) (buf wire : List ℕ)
    → All IsSsize sends
    → length buf < 2 ^ 63
    → Sends sends buf wire (write_all sends buf wire)
unfolding write_all
write_all-Sends sends buf wire h small = send_all-Sends sends buf wire h small

-- Two writes one after the other are one of both texts.
module _ (sends : List SendResult) (head content wire : List ℕ) where
  both_written :
      (e f : SendEnd)
      → Sends sends head wire e
      → e.status ≡ all_sent
      → Sends e.sends content e.wire f
      → Sends sends (head ++ content) wire f
  both_written e f s done t = record {
    taken = length head + t.taken;
    in_order =
        t.in_order
        ∙ ap (λ w. w ++ take t.taken content) (s.whole done)
        ∙ append_assoc wire head (take t.taken content)
        ∙ ap (◌++◌ wire) (sym (take-append_right t.taken head content));
    whole =
        λ all. t.whole all ∙ ap (λ w. w ++ content) (s.whole done) ∙ append_assoc wire head content;
    short = λ ne. omega (arith, t.short ne, length-append head content);
    no_retry = t.no_retry;
    spent = λ all. omega (arith, t.spent all, s.spent done, length-append head content);
    starved = λ ne. omega (arith, t.starved ne, s.spent done);
    honest = t.honest;
  }

  head_cut :
      (e : SendEnd)
      → Sends sends head wire e
      → e.status ≢ all_sent
      → Sends sends (head ++ content) wire e
  head_cut e s ne = record {
    taken = s.taken;
    in_order =
        s.in_order
        ∙ ap (◌++◌ wire) (sym (take-append_left s.taken head content (omega (arith, s.short ne))));
    whole = λ all. absurd (ne all);
    short = λ _. omega (arith, s.short ne, length-append head content);
    no_retry = s.no_retry;
    spent = λ all. absurd (ne all);
    starved = s.starved;
    honest = s.honest;
  }

respond-Sends :
    (sends : List SendResult) (head content : List ℕ)
    → All IsSsize sends
    → 0 < length head
    → length head < head_max
    → length content < 2 ^ 63
    → Sends sends (head ++ content) [] (respond sends head content)
unfolding respond write_body
respond-Sends sends head content k some_head fits small =
    rw (lt→ltb 0 (length head) some_head, lt→ltb (length head) head_max fits) (go e.status refl)
  where
    e : SendEnd
    e = write_all sends head []

    s : Sends sends head [] e
    s = write_all-Sends sends head [] k (omega arith)

    go :
        (st : SendStatus)
        → e.status ≡ st
        → Sends sends (head ++ content) [] (write_body st e content)
    go all_sent q =
        both_written sends head content [] e _ s q
          (write_all-Sends e.sends content e.wire s.honest small)
    go (send_error x) q = head_cut sends head content [] e s (λ r. cc)
    go send_blocked q = head_cut sends head content [] e s (λ r. cc)

length-metrics_head : (n : ℕ) → (0 < length (metrics_head n)) × (length (metrics_head n) < head_max)
unfolding metrics_head
length-metrics_head n = omega (arith, length-append {0}, length-decimal n)

length-not_found_head :
    (0 < length (status_head (codes "404 Not Found") not_found_text))
    × (length (status_head (codes "404 Not Found") not_found_text) < head_max)
unfolding status_head
length-not_found_head = omega (arith, length-append {0}, length-decimal (length not_found_text))

module _ (sends : List SendResult) (k : All IsSsize sends) where
  not_found-Sends :
      Sends sends not_found [] (send_status sends (codes "404 Not Found") not_found_text)
  unfolding not_found send_status
  not_found-Sends =
      respond-Sends sends (status_head (codes "404 Not Found") not_found_text) not_found_text k
        length-not_found_head.0 length-not_found_head.1 (omega arith)

  -- The array is large enough for every registry, so that the branch for status 500 is not taken.
  send_metrics-Sends :
      (stack : List ℕ) (g : Registry)
      → body_max ≤ length stack
      → length (model_label g) ≤ 31
      → Sends sends (exposition g) [] (send_metrics sends stack g)
  unfolding send_metrics send_rendered exposition
  send_metrics-Sends stack g room label = rw (r.returned) (
      rw small (
        rw whole (
          respond-Sends sends (metrics_head (length (body g))) (body g) k
            (length-metrics_head (length (body g))).0 (length-metrics_head (length (body g))).1
            (omega (arith, fits)))))
    where
      r : Rendered g body_max (metrics_render (some stack) body_max g)
      r = (metrics_render-Rendered g stack body_max label room (omega arith)).0

      small : leb body_max (length (body g)) ≡ false
      small = ground (arith, length-body-le g label)

      fits : length (body g) ≤ body_max - 1
      fits = omega (arith, length-body-le g label)

      whole : take (length (body g)) r.out ≡ body g
      whole =
          ap (λ n. take n r.out) {x = length (body g)} {y = min (length (body g)) (body_max - 1)}
            (omega (arith, fits))
          ∙ r.front
          ∙ take_all (body_max - 1) (body g) fits

-- What `serve` comes to for a client that sends `all`.
pub data Responds (all : List ℕ) (end : Fate) (sends : List SendResult) (g : Registry)
    : Outcome → Type 0 where
  metrics :
      (e : SendEnd)
      → starts_with get_line all ≡ true
      → Sends sends (exposition g) [] e
      → Responds all end sends g (responded e)
  missing :
      (e : SendEnd)
      → all ≢ []
      → starts_with get_line all ≡ false
      → Sends sends not_found [] e
      → Responds all end sends g (responded e)
  no_bytes : all ≡ [] → end ≡ closed → Responds all end sends g dropped
  no_request_left :
      end ≡ broken
      → length all + 1 < request_max
      → ¬ BlankWithin (length all) all
      → Responds all end sends g dropped
  unfinished :
      end ≡ pending
      → length all + 1 < request_max
      → ¬ BlankWithin (length all) all
      → Responds all end sends g waiting

route-Responds :
    {recvs : List RecvResult} {all : List ℕ} {end : Fate} (r : ReadEnd) (sends : List SendResult)
    (stack : List ℕ) (g : Registry)
    → body_max ≤ length stack
    → length (model_label g) ≤ 31
    → All IsSsize sends
    → Reads request_max recvs all end r
    → Responds all end sends g (route r sends stack g)
unfolding route
route-Responds {recvs} {all} {end} _ sends stack g room label k
      (request n buf some_bytes h within front nul stop) =
    elim (Bool-cases (starts_with get_line all)) [
      | inl line ↦ rw (same ∙ line) (metrics _ line (send_metrics-Sends sends k stack g room label))
      | inr no_line ↦ rw (same ∙ no_line) (missing _ not_empty no_line (not_found-Sends sends k))
    ]
  where
    same : starts_with get_line buf ≡ starts_with get_line all
    same = starts_with-read recvs all buf end n front nul stop

    not_empty : all ≢ []
    not_empty e = omega (arith, some_bytes, within, ap length e)
route-Responds _ sends stack g room label k (cut_off e h plain) = no_request_left e h plain
route-Responds _ sends stack g room label k (nothing e c) = no_bytes e c
route-Responds _ sends stack g room label k (waits e h plain) = unfinished e h plain

-- The endpoint answers a client whose bytes start with "GET /metrics" with status 200 and the body of
-- the registry, any other client that sends something with status 404, each with the length of the
-- body in the head; what the kernel takes of the response is in order, and all of it if no send fails
-- or is blocked. It answers nothing only to a client that closes without a byte or whose connection
-- breaks before it has sent a blank line or filled the array of 2048 bytes; and it waits only for a
-- client that has done none of this, so that a client that has sent a blank line is answered though it
-- keeps the connection open. A blank line behind a NUL does not count. Nothing is accessed out of bounds,
-- and the branch for status 500 is not reached. The arrays have 2048 and 16384 bytes, the label at most
-- 31, and the results of send fit an ssize_t.
pub serve-Responds :
    (recvs : List RecvResult) (sends : List SendResult) (request_buf stack : List ℕ) (g : Registry)
    → request_max ≤ length request_buf
    → body_max ≤ length stack
    → length (model_label g) ≤ 31
    → All IsSsize sends
    → Responds (stream recvs) (fate recvs) sends g (serve recvs sends request_buf stack g)
unfolding serve
serve-Responds recvs sends request_buf stack g room stack_room label k =
    route-Responds (read_request recvs request_buf request_max) sends stack g stack_room label k
      (read_request-Reads recvs request_buf request_max (omega arith) (omega arith) room)
