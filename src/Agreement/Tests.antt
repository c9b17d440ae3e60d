-- ===== src/Agreement/Tests.antt =====
-- An example of the two kinds of server on the same bytes, cut in different places.
use concurrent_servers.Prelude.{◌+◌, ◌≡◌, refl, List, [], ◌∷◌, arith}
use concurrent_servers.Sys.{RecvResult, received, recv_failed, eintr, SendResult, wrote, timespec}
use concurrent_servers.Text.{codes}
use concurrent_servers.Metrics.{zeroed}
use concurrent_servers.Protocol.{serve_connection}
use concurrent_servers.Sys.Streams.{stream}
use concurrent_servers.Peer.Runs.{Run}
use concurrent_servers.Peer.{pending}
use concurrent_servers.Peer.Tests.{drained, drained-Run}
use concurrent_servers.Agreement.{serve_connection-Run}

abbrev recvs : List RecvResult
recvs = received (codes "x^a") ∷ recv_failed eintr ∷ received (codes "b$^c") ∷ received [] ∷ []

abbrev sends : List SendResult
sends = wrote 1 ∷ wrote 1 ∷ wrote 1 ∷ wrote 1 ∷ []

recvs-Run : Run (stream recvs) (codes "*bcd") drained
unfolding stream
recvs-Run = drained-Run

nothing_pending : (pending drained).0 ≡ 0
unfolding pending
nothing_pending = refl

serve_connection-Run_example :
    (serve_connection (λ t. timespec 0 (t + 5)) recvs sends zeroed).1.wire ≡ codes "*bcd"
unfolding stream
serve_connection-Run_example =
    serve_connection-Run (λ t. timespec 0 (t + 5)) recvs sends zeroed (codes "*bcd") drained
      (omega arith, (tt, (omega arith, (omega arith, tt))))
      (omega arith, (omega arith, (omega arith, (omega arith, tt)))) (omega arith) recvs-Run
      nothing_pending
