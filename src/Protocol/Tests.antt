-- ===== src/Protocol/Tests.antt =====
-- Examples of src/protocol.c.
use concurrent_servers.Prelude.{ℕ, ◌+◌, ◌≡◌, ◌⊎◌, List, [], ◌∷◌, arith, All, length}
use concurrent_servers.Sys.{
  RecvResult, received, recv_failed, SendResult, wrote, send_failed, eintr, ClockReading, timespec,
}
use concurrent_servers.Sys.Streams.{stream}
use concurrent_servers.Framing.{outside}
use concurrent_servers.Text.{codes}
use concurrent_servers.Metrics.{zeroed}
use concurrent_servers.Protocol.{all_sent, send_all, scan, serve_connection}
use concurrent_servers.Protocol.Sending.{IsSsize, Sends, send_all-Sends, send_all-finishes}
use concurrent_servers.Protocol.Scanning.{Scanned, scan_in_place}
use concurrent_servers.Protocol.Conversation.{IsShort, Abandoned}
use concurrent_servers.Protocol.Serving.{
  full_reply, Answered, serve_connection-Served, serve_connection-Answered,
}

abbrev some_sends : List SendResult
some_sends =
    wrote 1 ∷ send_failed eintr ∷ wrote 1 ∷ wrote 2 ∷ wrote 1 ∷ wrote 1 ∷ wrote 1 ∷ wrote 1 ∷ []

some_sends-IsSsize : All IsSsize some_sends
some_sends-IsSsize = (
  omega arith,
  (
    tt,
    (omega arith, (omega arith, (omega arith, (omega arith, (omega arith, (omega arith, tt)))))),
  ),
)

-- A frame that is cut in two.
abbrev some_recvs : List RecvResult
some_recvs = received (codes "x^a") ∷ recv_failed eintr ∷ received (codes "b$^~") ∷ received [] ∷ []

some_recvs-IsShort : All IsShort some_recvs
some_recvs-IsShort = (omega arith, (tt, (omega arith, (omega arith, tt))))

abbrev clock : ℕ → ClockReading
clock t = timespec 0 (t + 5)

send_all-Sends_example : Sends some_sends (codes "abc") [] (send_all some_sends (codes "abc") [])
send_all-Sends_example = send_all-Sends some_sends (codes "abc") [] some_sends-IsSsize (omega arith)

send_all-finishes_example : (send_all some_sends (codes "abc") []).status ≡ all_sent
send_all-finishes_example =
    send_all-finishes some_sends (codes "abc") [] some_sends-IsSsize (omega arith) (omega arith)

scan_in_place_example : Scanned (codes "x^ab$^c") [] outside (
    scan
      (length (codes "x^ab$^c"))
      0
      (record { state = outside; nsend = 0; recvbuf = codes "x^ab$^c" }))
scan_in_place_example = scan_in_place (codes "x^ab$^c") outside (omega arith)

serve_connection-Served_example :
    Answered some_recvs zeroed (serve_connection clock some_recvs some_sends zeroed)
    ⊎ Abandoned some_sends
        (full_reply some_recvs)
        []
        (serve_connection clock some_recvs some_sends zeroed)
serve_connection-Served_example =
    serve_connection-Served clock some_recvs some_sends zeroed some_recvs-IsShort some_sends-IsSsize

serve_connection-Answered_example :
    Answered some_recvs zeroed (serve_connection clock some_recvs some_sends zeroed)
unfolding stream
serve_connection-Answered_example =
    serve_connection-Answered clock some_recvs some_sends zeroed some_recvs-IsShort
      some_sends-IsSsize (omega arith)
