-- ===== src/UvServer/Resending.antt =====
-- A conversation of src/uv_server.c in which libuv reads again before it completes a write.
use concurrent_servers.Prelude.{
  ℕ, ◌+◌, ◌≤◌, ◌<◌, ◌≡◌, refl, ap, ◌∙◌, List, [], ◌++◌, some, true, arith, length, take, get_elem?,
  get_elem?-set_self, get_elem?-lt, length-set,
}
use concurrent_servers.Exec.{Exec, done, ◌⟫=◌}
use concurrent_servers.Framing.{Mode, mode_after, echo}
use concurrent_servers.UvServer.{sendbuf_size, PeerState, Loop, with_peer, got, on_peer_read}
use concurrent_servers.UvServer.Consuming.{Replies, quiet, answers, overrun, on_bytes-Replies}
use concurrent_servers.UvServer.Rounds.{Ready, peer_of-with_peer}

-- The client is open in the end, and `sent` has been written to it.
abbrev pub Wrote : ℕ → List ℕ → Exec Loop → Type 0
Wrote client sent e =
    (l' : Loop) × (p : PeerState) × (e ≡ done l')
    × (get_elem? l'.clients client ≡ some (some p))
    × (p.sent ≡ sent)

second_read :
    (client : ℕ) (l : Loop) (m : Mode) (out held sent : List ℕ) (p : PeerState) {e : Exec PeerState}
    → client < length l.clients
    → Replies m out p e
    → 0 < p.sendbuf_end
    → p.sendbuf_end + length out ≤ sendbuf_size
    → take p.sendbuf_end p.sendbuf ≡ held
    → p.sent ≡ sent
    → Wrote client (sent ++ (held ++ out)) (e ⟫= λ p'. done (with_peer client p' l))
second_read client l m out held sent p h (quiet q _ _ empty _ _ _) pos fit front log =
    absurd (omega (arith, empty))
second_read client l m out held sent p h (overrun long) pos fit front log =
    absurd (omega (arith, long))
second_read client l m out held sent p h (answers q _ _ _ _ log' _) pos fit front log = (
  with_peer client q l,
  q,
  refl,
  get_elem?-set_self l.clients client (some q) h,
  log'
      ∙ ap (λ xs. xs ++ (take p.sendbuf_end p.sendbuf ++ out)) log
      ∙ ap (λ xs. sent ++ (xs ++ out)) front,
)

-- Two reads from a client without the callback of the first write between them: the second reply
-- starts with the bytes of the first, so that they go out twice. The first read is echoed with
-- something, and the two echoes together fit the buffer.
pub sent_twice :
    (client : ℕ) (xs ys : List ℕ) (m : Mode) (sent : List ℕ) (l : Loop)
    → Ready m client sent l
    → 0 < length (echo m xs)
    → length (echo m xs) + length (echo (mode_after m xs) ys) ≤ sendbuf_size
    → Wrote client
        ((sent ++ echo m xs) ++ (echo m xs ++ echo (mode_after m xs) ys))
        (on_peer_read true client (got xs) l ⟫= on_peer_read true client (got ys))
unfolding on_peer_read
sent_twice client xs ys m sent l r some_echo fit =
    rw r.here (go (on_bytes-Replies xs m r.peer r.sound))
  where
    range : client < length l.clients
    range = get_elem?-lt l.clients client r.here

    held : take r.peer.sendbuf_end r.peer.sendbuf ≡ []
    held = ap (λ k. take k r.peer.sendbuf) r.empty

    go :
        {e : Exec PeerState}
        → Replies (mode_after m xs) (echo m xs) r.peer e
        → Wrote client
            ((sent ++ echo m xs) ++ (echo m xs ++ echo (mode_after m xs) ys))
            ((e ⟫= λ p'. done (with_peer client p' l)) ⟫= on_peer_read true client (got ys))
    go (quiet p sound empty _ nothing log idle) = absurd (omega (arith, ap length nothing))
    go (overrun long) = absurd (omega (arith, long, r.empty))
    go (answers p sound pos longer front log writing) = rw (peer_of-with_peer client p l range) (
        second_read client (with_peer client p l) (mode_after (mode_after m xs) ys)
          (echo (mode_after m xs) ys) (echo m xs) (sent ++ echo m xs) p
          (omega (arith, range, length-set l.clients client (some p)))
          (on_bytes-Replies ys (mode_after m xs) p sound) pos (omega (arith, longer, r.empty))
          (front ∙ ap (λ zs. zs ++ echo m xs) held)
          (log
            ∙ ap (λ zs. zs ++ (take r.peer.sendbuf_end r.peer.sendbuf ++ echo m xs)) r.log
            ∙ ap (λ zs. sent ++ (zs ++ echo m xs)) held))
