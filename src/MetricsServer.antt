-- ===== src/MetricsServer.antt =====
-- src/metrics_server.c: the HTTP endpoint for the metrics. This file has the conversation with one
-- client; the children have the accept loop and the life of the server. A registry that other threads
-- update meanwhile is read at one moment.
pub mod BlankLine
pub mod Storing
pub mod Requests
mod Prefixes
pub mod Responses
pub mod Accepting
pub mod Life
pub mod Tests
use Prim.Native.String.{String}
use concurrent_servers.Prelude.{
  ℕ, zero, suc, ◌+◌, ◌-◌, List, [], ◌∷◌, ◌++◌, Option, none, some, Bool, true, false, ◌||◌, ◌&&◌,
  ◌==◌, ltb, leb, if◌then◌else◌, length, take, splice, write_at, c_string,
}
use concurrent_servers.Sys.{RecvResult, received, recv_failed, SendResult, add_u64, is_eintr}
use concurrent_servers.Text.{codes, decimal}
use concurrent_servers.Metrics.{Registry}
use concurrent_servers.Metrics.Render.{metrics_render}
use concurrent_servers.Protocol.{SendStatus, all_sent, send_error, send_blocked, SendEnd, send_all}

abbrev pub request_max : ℕ
request_max = 2048

abbrev pub body_max : ℕ
body_max = 16384

abbrev pub head_max : ℕ
head_max = 256

-- write_all has the loop of send_all in src/protocol.c.
pub write_all : List SendResult → List ℕ → List ℕ → SendEnd
write_all sends buf wire = send_all sends buf wire

-- strncmp(text, prefix, length of prefix) == 0.
abbrev pub starts_with : List ℕ → List ℕ → Bool
starts_with [] text = true
starts_with (p ∷ ps) [] = false
starts_with (p ∷ ps) (c ∷ cs) = p == c && starts_with ps cs

-- Whether `needle`, which is not empty, stands somewhere in the text.
abbrev pub contains : List ℕ → List ℕ → Bool
contains needle [] = false
contains needle (c ∷ cs) = starts_with needle (c ∷ cs) || contains needle cs

-- strstr(buf, "\r\n\r\n") != NULL || strstr(buf, "\n\n") != NULL
abbrev pub has_blank_line : List ℕ → Bool
has_blank_line text = contains (codes "\r\n\r\n") text || contains (codes "\n\n") text

-- How `read_request` ends: it returns 0 and leaves the array, it returns -1, it is blocked in recv,
-- or it has written out of bounds.
pub data ReadEnd : Type 0 where
  got_request : List ℕ → ReadEnd
  no_request read_blocked read_fault : ReadEnd

-- What follows the loop.
pub finish_read : List ℕ → ℕ → ReadEnd
finish_read buf len = elim (write_at buf len 0) [
  | none ↦ read_fault
  | some closed ↦ if ltb 0 len then got_request closed else no_request
]

-- buf[len] = '\0' and the search for a blank line; `more` is the next round of the loop.
pub check_request : Option (List ℕ) → (List ℕ → ReadEnd) → ReadEnd
check_request none more = read_fault
check_request (some buf) more = if has_blank_line (c_string buf) then got_request buf else more buf

-- A recv into `buf + len` that leaves the bytes there; no bytes are the end of the stream.
pub take_in : List ℕ → List ℕ → ℕ → (List ℕ → ReadEnd) → ReadEnd
take_in [] buf len more = finish_read buf len
take_in (b ∷ bs) buf len more =
    check_request (write_at (splice buf len (b ∷ bs)) (add_u64 len (length (b ∷ bs))) 0) more

-- The loop of `read_request`. recv leaves no more bytes than it is asked for.
pub read_from : List RecvResult → ℕ → List ℕ → ℕ → ReadEnd
read_from [] cap buf len = if ltb (add_u64 len 1) cap then read_blocked else finish_read buf len
read_from (recv_failed e ∷ recvs) cap buf len =
    let rest = read_from recvs cap buf len in
    if ltb (add_u64 len 1) cap then if is_eintr e then rest else no_request else finish_read buf len
read_from (received offered ∷ recvs) cap buf len =
    let bytes = take (cap - len - 1) offered in
    let next =
      take_in bytes buf len (λ buf'. read_from recvs cap buf' (add_u64 len (length bytes))) in
    if ltb (add_u64 len 1) cap then next else finish_read buf len

pub read_request : List RecvResult → List ℕ → ℕ → ReadEnd
read_request recvs buf cap = read_from recvs cap buf 0

-- The texts that the two snprintf calls make.
pub status_head : List ℕ → List ℕ → List ℕ
status_head status content =
    codes "HTTP/1.1 "
    ++ (status
        ++ (codes "\r\nContent-Type: text/plain; charset=utf-8\r\nContent-Length: "
            ++ (decimal (length content) ++ codes "\r\nConnection: close\r\n\r\n")))

pub metrics_head : ℕ → List ℕ
metrics_head body_len =
    codes
      "HTTP/1.1 200 OK\r\nContent-Type: text/plain; version=0.0.4; charset=utf-8\r\nContent-Length: "
    ++ (decimal body_len ++ codes "\r\nConnection: close\r\n\r\n")

-- The body goes out if the head could be written. `e` is how writing the head has ended.
pub write_body : SendStatus → SendEnd → List ℕ → SendEnd
write_body all_sent e content = write_all e.sends content e.wire
write_body (send_error x) e content = e
write_body send_blocked e content = e

-- if (n > 0 && (size_t)n < sizeof head && write_all(...) == 0) write_all(...): a head that does not
-- fit is not sent. `head` is what the format expands to.
pub respond : List SendResult → List ℕ → List ℕ → SendEnd
respond sends head content =
    if ltb 0 (length head) && ltb (length head) head_max
    then (let e = write_all sends head [] in write_body e.status e content)
    else record { status = all_sent; sends = sends; wire = [] }

pub send_status : List SendResult → List ℕ → List ℕ → SendEnd
send_status sends status content = respond sends (status_head status content) content

-- `rendered` is the answer of metrics_render on the array of BODY_MAX bytes.
pub send_rendered : List SendResult → ℕ × Option (List ℕ) → SendEnd
send_rendered sends (body_len, none) = respond sends (metrics_head body_len) []
send_rendered sends (body_len, some body) =
    if leb body_max body_len
    then send_status sends (codes "500 Internal Server Error") (codes "metrics buffer too small\n")
    else respond sends (metrics_head body_len) (take body_len body)

-- `stack` is what the array holds before.
pub send_metrics : List SendResult → List ℕ → Registry → SendEnd
send_metrics sends stack g = send_rendered sends (metrics_render (some stack) body_max g)

-- What `serve` has done when it returns; the caller then closes the descriptor.
pub data Outcome : Type 0 where
  -- nothing was sent
  dropped : Outcome
  -- a response was sent, as far as `SendEnd` says, and the descriptor shut down for writing
  responded : SendEnd → Outcome
  waiting faulted : Outcome

-- What `serve` does with a request.
pub route : ReadEnd → List SendResult → List ℕ → Registry → Outcome
route (got_request request) sends stack g =
    if starts_with (codes "GET /metrics") request
    then responded (send_metrics sends stack g)
    else responded (send_status sends (codes "404 Not Found") (codes "not found\n"))
route no_request sends stack g = dropped
route read_blocked sends stack g = waiting
route read_fault sends stack g = faulted

-- `request` and `stack` are what the two arrays hold before.
pub serve : List RecvResult → List SendResult → List ℕ → List ℕ → Registry → Outcome
serve recvs sends request stack g = route (read_request recvs request request_max) sends stack g
