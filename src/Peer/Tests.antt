-- ===== src/Peer/Tests.antt =====
-- Examples of src/peer_state.c.
use concurrent_servers.Prelude.{
  ℕ, ◌≡◌, refl, List, [], ◌∷◌, ◌++◌, none, some, arith, replicate, length-replicate,
}
use concurrent_servers.Sys.{received, wrote}
use concurrent_servers.Framing.{star}
use concurrent_servers.Text.{codes}
use concurrent_servers.Peer.{
  initial_ack, wait_for_msg, in_msg, PeerState, fd_status_r, fd_status_w, peer_closed, close_with,
  on_connected, consume, consume_loop, consume_rest, consume_byte, recv_room, pending, sent,
  on_ready_recv, after_recv, on_ready_send,
}
use concurrent_servers.Peer.Stream.{Follows}
use concurrent_servers.Peer.Runs.{Run, accepted, step, consuming, sending, Run-Follows, Handled}
use concurrent_servers.Peer.Answers.{
  RecvAnswer, SendAnswer, on_ready_recv-Answers, on_ready_send-Answers,
}
use concurrent_servers.Peer.Table.{zeroed_peer, heard, told, clip_recv, clip_send}

abbrev zeros : List ℕ
zeros = replicate 1023 0

-- A new peer, and the peer once its acknowledgement has gone out.
abbrev greeted : PeerState
greeted = record {
  state = initial_ack;
  sendbuf = star ∷ zeros;
  sendbuf_end = 1;
  sendptr = 0;
  close_reason = none;
}

abbrev acknowledged : PeerState
acknowledged = record greeted { state = wait_for_msg; sendbuf_end = 0 }

greeted_lem : on_connected zeroed_peer ≡ some (fd_status_w, greeted)
unfolding on_connected
greeted_lem = refl

acknowledged_lem : sent greeted 1 ≡ (fd_status_r, acknowledged)
unfolding sent
acknowledged_lem = refl

-- After `^ab$^c`, with `bcd` to send and a frame still open.
abbrev stirred : PeerState
stirred = record acknowledged {
  state = in_msg;
  sendbuf = b'b' ∷ b'c' ∷ b'd' ∷ replicate 1021 0;
  sendbuf_end = 3;
}

stirred_lem : consume acknowledged (codes "x^ab$^c") ≡ some (fd_status_w, stirred)
unfolding consume consume_loop consume_rest consume_byte recv_room
stirred_lem = refl

greeted-Run : Run [] [] greeted
greeted-Run = accepted zeroed_peer fd_status_w (length-replicate {A = ℕ} 1024 0) greeted_lem

acknowledged-Run : Run [] (star ∷ []) acknowledged
unfolding sent pending
acknowledged-Run = step [] [] greeted greeted-Run (sending 1 (omega arith))

stirred-Run : Run (codes "x^ab$^c") (star ∷ []) stirred
unfolding recv_room
stirred-Run =
    step [] (star ∷ []) acknowledged acknowledged-Run
      (consuming (codes "x^ab$^c") (omega arith) (λ e. cc) stirred_lem)

Run-Follows_example : Follows (codes "x^ab$^c") (star ∷ []) stirred
Run-Follows_example = Run-Follows stirred stirred-Run

on_ready_recv-Answers_example :
    Handled
      ([] ++ heard (received (codes "x^ab$^c")) acknowledged)
      (star ∷ [])
      (on_ready_recv (clip_recv (recv_room acknowledged) (received (codes "x^ab$^c"))) acknowledged)
    × RecvAnswer acknowledged (received (codes "x^ab$^c")) (
        on_ready_recv
          (clip_recv (recv_room acknowledged) (received (codes "x^ab$^c")))
          acknowledged)
on_ready_recv-Answers_example =
    on_ready_recv-Answers acknowledged acknowledged-Run (received (codes "x^ab$^c"))

on_ready_send-Answers_example :
    Handled
      (codes "x^ab$^c")
      ((star ∷ []) ++ told (wrote 2) stirred)
      (some (on_ready_send (clip_send (pending stirred).0 (wrote 2)) stirred))
    × SendAnswer stirred (wrote 2) (on_ready_send (clip_send (pending stirred).0 (wrote 2)) stirred)
on_ready_send-Answers_example = on_ready_send-Answers stirred stirred-Run (wrote 2)

closed_by_peer :
    on_ready_recv (received []) acknowledged ≡ some (close_with acknowledged peer_closed)
unfolding on_ready_recv after_recv recv_room
closed_by_peer = refl

-- The peer once all of its output has gone out.
abbrev pub drained : PeerState
drained = record stirred { sendbuf_end = 0 }

pub drained-Run : Run (codes "x^ab$^c") (codes "*bcd") drained
unfolding sent pending
drained-Run = step (codes "x^ab$^c") (star ∷ []) stirred stirred-Run (sending 3 (omega arith))
