-- ===== src/UvServer/Greeting.antt =====
-- src/uv_server.c: a whole conversation, from the connection on.
use concurrent_servers.Prelude.{
  ℕ, zero, ◌≡◌, refl, ◌∙◌, List, [], ◌∷◌, ◌++◌, some, true, false, arith, length, take, set, All,
  lt→ltb, length-set, take-set_next, get_elem?-append_length, get_elem?-set_self, get_elem?-lt,
}
use concurrent_servers.Exec.{Exec, done, ◌⟫=◌}
use concurrent_servers.Framing.{outside, star}
use concurrent_servers.UvServer.{
  sendbuf_size, initial_ack, wait_for_msg, PeerState, Loop, write_sendbuf, connected,
  on_peer_connected, on_wrote_init_ack,
}
use concurrent_servers.UvServer.Rounds.{Ready, Echoes, FitsBuffer, rounds, rounds-Echoes}

-- A connection comes in as the next handle, and the acknowledgement is written.
abbrev pub greet : List ℕ → Loop → Exec Loop
greet buf l = on_peer_connected (connected buf) l ⟫= on_wrote_init_ack true true (length l.clients)

module _ (buf : List ℕ) (l : Loop) (room : length buf ≡ sendbuf_size)
    (live : l.stopped ≡ false) where
  fresh : PeerState
  fresh = record {
    state = initial_ack;
    sendbuf = set buf 0 star;
    sendbuf_end = 1;
    sent = take 1 (set buf 0 star);
    writing = 1;
  }

  entered : Loop
  entered = record l { clients = l.clients ++ (some fresh ∷ []) }

  greeted : Loop
  greeted = record entered {
    clients =
        set entered.clients (length l.clients)
          (some (record fresh { state = wait_for_msg; sendbuf_end = 0; writing = 0 }));
  }

  greet-eq-greeted : greet buf l ≡ done greeted
  unfolding on_peer_connected on_wrote_init_ack write_sendbuf greeted entered fresh
  greet-eq-greeted =
      rw
        (
          lt→ltb 0 (length buf) (omega (arith, room)),
          get_elem?-append_length l.clients [] (some fresh),
        )
        refl

  greeted-Ready : Ready outside (length l.clients) (star ∷ []) greeted
  unfolding greeted entered fresh
  greeted-Ready = record {
    peer = record fresh { state = wait_for_msg; sendbuf_end = 0; writing = 0 };
    here =
        get_elem?-set_self (l.clients ++ (some fresh ∷ [])) (length l.clients) _
          (get_elem?-lt _ (length l.clients) (get_elem?-append_length l.clients [] (some fresh)));
    sound = record { state = refl; room = length-set buf 0 star ∙ room; within = omega arith };
    empty = refl;
    idle = refl;
    log = take-set_next zero buf star (omega (arith, room));
    live = live;
  }

-- From its connection on, a client is written the acknowledgement and then what the framing says for
-- all that it sends, however it comes in pieces, as long as no piece's own echo ends in "XYZ"; and the
-- server stops exactly behind the first piece whose own echo does. A piece is what one read brings: an
-- "XYZ" that is spread over the echoes of two pieces does not stop the server. libuv's calls succeed, it
-- completes every write before it reads from the client again, and no read brings more than 1024 bytes.
pub greet-Echoes :
    (buf : List ℕ) (l : Loop) (chunks : List (List ℕ))
    → length buf ≡ sendbuf_size
    → l.stopped ≡ false
    → All FitsBuffer chunks
    → Echoes outside
        (length l.clients)
        (star ∷ [])
        chunks
        (greet buf l ⟫= rounds (length l.clients) chunks)
greet-Echoes buf l chunks room live h = rw (greet-eq-greeted buf l room live) (
    rounds-Echoes (length l.clients) chunks outside (star ∷ []) (greeted buf l room live)
      (greeted-Ready buf l room live) h)
