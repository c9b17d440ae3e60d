-- ===== src/Sys/Streams.antt =====
-- What a peer sends over a whole connection, from the results of recv.
use concurrent_servers.Prelude.{◌++◌, ℕ, List, [], ◌∷◌, if◌then◌else◌}
use concurrent_servers.Sys.{RecvResult, received, recv_failed, is_eintr}

-- The bytes that the peer sends before it closes or the connection fails.
unfoldable pub stream : List RecvResult → List ℕ
stream [] = []
stream (received [] ∷ recvs) = []
stream (received (b ∷ bs) ∷ recvs) = (b ∷ bs) ++ stream recvs
stream (recv_failed e ∷ recvs) = if is_eintr e then stream recvs else []

-- How the stream ends: not yet, by the peer's close, or by a failure.
pub data Fate : Type 0 where
  pending closed broken : Fate

unfoldable pub fate : List RecvResult → Fate
fate [] = pending
fate (received [] ∷ recvs) = closed
fate (received (b ∷ bs) ∷ recvs) = fate recvs
fate (recv_failed e ∷ recvs) = if is_eintr e then fate recvs else broken
