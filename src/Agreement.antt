-- ===== src/Agreement.antt =====
-- The blocking server (src/protocol.c) and the parser of the event-driven ones (src/peer_state.c)
-- answer a peer alike.
pub mod Tests
use concurrent_servers.Prelude.{
  ℕ, ◌≤◌, ◌≡◌, sym, ap, ◌∙◌, List, All, ◌++◌, length, append-nil, take,
}
use concurrent_servers.Sys.{RecvResult, SendResult, ClockReading}
use concurrent_servers.Metrics.{Registry}
use concurrent_servers.Protocol.{serve_connection}
use concurrent_servers.Protocol.Sending.{IsSsize, progress}
use concurrent_servers.Sys.Streams.{stream}
use concurrent_servers.Protocol.Conversation.{IsShort}
use concurrent_servers.Protocol.Serving.{full_reply, serve_connection-Answered}
use concurrent_servers.Peer.{PeerState, pending}
use concurrent_servers.Peer.Runs.{Run, Run-Follows}

-- On the same bytes of a peer, however they are cut into reads and writes on either side, the blocking
-- server and an event-driven one put the same bytes on the wire, once the kernel has let the blocking
-- server send its whole answer and the event-driven one has nothing pending. Results of recv are
-- shorter than 2 ^ 63 bytes, and those of send fit an ssize_t.
pub serve_connection-Run :
    (clock : ℕ → ClockReading) (recvs : List RecvResult) (sends : List SendResult)
    (metrics : Registry) (wire : List ℕ) (p : PeerState)
    → All IsShort recvs
    → All IsSsize sends
    → length (full_reply recvs) ≤ progress sends
    → Run (stream recvs) wire p
    → (pending p).0 ≡ 0
    → (serve_connection clock recvs sends metrics).1.wire ≡ wire
serve_connection-Run clock recvs sends metrics wire p short honest enough run drained =
    (serve_connection-Answered clock recvs sends metrics short honest enough).wire
    ∙ sym (Run-Follows p run).account
    ∙ ap (λ n. wire ++ take n (pending p).1) drained
    ∙ append-nil wire
