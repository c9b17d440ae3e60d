-- ===== src/UvServer/Tests.antt =====
-- Examples of src/uv_server.c.
use concurrent_servers.Prelude.{
  ℕ, ◌≡◌, refl, List, [], ◌∷◌, ◌++◌, some, Bool, true, false, arith, replicate, length-replicate,
}
use concurrent_servers.Exec.{Exec, done, died, fault, ◌⟫=◌}
use concurrent_servers.Text.{codes}
use concurrent_servers.Framing.{outside, star, mode_after, echo}
use concurrent_servers.UvServer.{
  wait_for_msg, PeerState, Loop, got, on_bytes, on_peer_read, consume, consume_byte, reply,
  write_sendbuf, on_wrote_buf, wrote, is_kill,
}
use concurrent_servers.UvServer.Consuming.{IsPeer, Replies, on_bytes-Replies}
use concurrent_servers.UvServer.Rounds.{Ready, Echoes, settle, round, rounds}
use concurrent_servers.UvServer.Resending.{Wrote, sent_twice}
use concurrent_servers.UvServer.Greeting.{greet, greet-Echoes}

abbrev fresh : PeerState
fresh = record {
  state = wait_for_msg;
  sendbuf = replicate 1024 0;
  sendbuf_end = 0;
  sent = star ∷ [];
  writing = 0;
}

fresh-IsPeer : IsPeer outside fresh
fresh-IsPeer = record { state = refl; room = length-replicate {A = ℕ} 1024 0; within = omega arith }

-- A buffer of 1024 bytes that is full but for one.
almost_full : on_bytes true wait_for_msg (codes "^ab$") (record fresh { sendbuf_end = 1023 }) ≡ died
unfolding on_bytes consume consume_byte
almost_full = refl

on_bytes-Replies_example :
    Replies
      (mode_after outside (codes "x^ab$y"))
      (echo outside (codes "x^ab$y"))
      fresh
      (on_bytes true fresh.state (codes "x^ab$y") fresh)
on_bytes-Replies_example = on_bytes-Replies (codes "x^ab$y") outside fresh fresh-IsPeer

abbrev empty_loop : Loop
empty_loop = record { clients = []; closing = []; stopped = false }

abbrev some_chunks : List (List ℕ)
some_chunks = codes "^ab" ∷ codes "c$^WXY$" ∷ codes "^d$" ∷ []

greet-Echoes_example :
    Echoes outside 0
      (star ∷ [])
      some_chunks
      (greet (replicate 1024 7) empty_loop ⟫= rounds 0 some_chunks)
greet-Echoes_example =
    greet-Echoes (replicate 1024 7) empty_loop some_chunks (length-replicate {A = ℕ} 1024 7) refl
      (omega arith)

abbrev one_client : Loop
one_client = record { clients = some fresh ∷ []; closing = []; stopped = false }

-- WXY in two reads does not stop the server, though it would in one.
abbrev did_stop : Exec Loop → Bool
did_stop (done l) = l.stopped
did_stop died = false
did_stop fault = false

stops_at_once : did_stop (round 0 (codes "^WXY") one_client) ≡ true
unfolding round on_peer_read on_bytes consume consume_byte reply write_sendbuf settle on_wrote_buf
    wrote is_kill
stops_at_once = refl

goes_on_in_two : did_stop (round 0 (codes "^WX") one_client ⟫= round 0 (codes "Y")) ≡ false
unfolding round on_peer_read on_bytes consume consume_byte reply write_sendbuf settle on_wrote_buf
    wrote is_kill
goes_on_in_two = refl

one_client-Ready : Ready outside 0 (star ∷ []) one_client
one_client-Ready = record {
  peer = fresh;
  here = refl;
  sound = fresh-IsPeer;
  empty = refl;
  idle = refl;
  log = refl;
  live = refl;
}

sent_twice_example :
    Wrote 0
      (((star ∷ []) ++ codes "bc") ++ (codes "bc" ++ codes "d"))
      (on_peer_read true 0 (got (codes "^ab")) one_client ⟫= on_peer_read true 0 (got (codes "c$")))
sent_twice_example =
    sent_twice 0 (codes "^ab") (codes "c$") outside (star ∷ []) one_client one_client-Ready
      (omega arith) (omega arith)
