-- ===== src/UvServer/Rounds.antt =====
-- A conversation of src/uv_server.c in which libuv completes every write before it reads again.
use concurrent_servers.Prelude.{
  ℕ, ◌-◌, ◌≤◌, ◌<◌, ◌≡◌, refl, sym, ap, ◌∙◌, subst, inl, inr, List, [], ◌∷◌, ◌++◌, some, true,
  false, ◌==◌, arith, if◌then◌else◌, Bool-cases, length, take, set, get_elem?, All, append_assoc,
  append-nil, get_elem?-set_self, get_elem?-lt, length-set,
}
use concurrent_servers.Exec.{Exec, done, ◌⟫=◌}
use concurrent_servers.Framing.{
  Mode, mode_after, echo, echo-append, mode_after-append, length-echo_le,
}
use concurrent_servers.UvServer.{
  sendbuf_size, PeerState, Loop, peer_of, with_peer, got, on_peer_read, is_kill, wrote,
  on_wrote_buf,
}
use concurrent_servers.UvServer.Consuming.{
  IsPeer, Replies, quiet, answers, overrun, on_bytes-Replies,
}
use concurrent_servers.UvServer.Killing.{EndsInXyz, kill_ends, is_kill-of_ends}

-- The callback of a write that is still to come.
unfoldable pub settle : ℕ → Loop → Exec Loop
settle client l =
    peer_of client l ⟫= λ p. if p.writing == 0 then done l else on_wrote_buf true client l

unfoldable pub round : ℕ → List ℕ → Loop → Exec Loop
round client bytes l = on_peer_read true client (got bytes) l ⟫= settle client

-- Until uv_stop ends the loop.
pub rounds : ℕ → List (List ℕ) → Loop → Exec Loop
rounds client [] l = done l
rounds client (bytes ∷ chunks) l =
    round client bytes l ⟫= λ l'. if l'.stopped then done l' else rounds client chunks l'

abbrev pub flatten : List (List ℕ) → List ℕ
flatten [] = []
flatten (xs ∷ xss) = xs ++ flatten xss

-- The client is open, no write is outstanding, and `sent` has been written to it.
pub record Ready (m : Mode) (client : ℕ) (sent : List ℕ) (l : Loop) : Type 0 where
  pub peer : PeerState
  pub here : get_elem? l.clients client ≡ some (some peer)
  pub sound : IsPeer m peer
  pub empty : peer.sendbuf_end ≡ 0
  pub idle : peer.writing ≡ 0
  pub log : peer.sent ≡ sent
  pub live : l.stopped ≡ false

-- No piece's own echo ends in "XYZ".
abbrev pub Spares : Mode → List (List ℕ) → Type 0
Spares m [] = Unit
Spares m (bytes ∷ chunks) = (¬ EndsInXyz (echo m bytes)) × Spares (mode_after m bytes) chunks

-- How the conversation goes on: no piece's echo ends in "XYZ" and everything is echoed, or the server
-- stops behind the first piece whose echo does.
pub data Echoes (m : Mode) (client : ℕ) (sent : List ℕ) (chunks : List (List ℕ))
    : Exec Loop → Type 0 where
  echoed :
      (l' : Loop)
      → Spares m chunks
      → Ready (mode_after m (flatten chunks)) client (sent ++ echo m (flatten chunks)) l'
      → Echoes m client sent chunks (done l')
  killed :
      (l' : Loop) (before : List (List ℕ)) (last : List ℕ) (after : List (List ℕ))
      → l'.stopped ≡ true
      → chunks ≡ before ++ (last ∷ after)
      → Spares m before
      → EndsInXyz (echo (mode_after m (flatten before)) last)
      → Echoes m client sent chunks (done l')

-- How one round goes.
data RoundEnds (m : Mode) (client : ℕ) (sent bytes : List ℕ) : Exec Loop → Type 0 where
  again :
      (l' : Loop)
      → ¬ EndsInXyz (echo m bytes)
      → Ready (mode_after m bytes) client (sent ++ echo m bytes) l'
      → RoundEnds m client sent bytes (done l')
  stops :
      (l' : Loop)
      → l'.stopped ≡ true
      → EndsInXyz (echo m bytes)
      → RoundEnds m client sent bytes (done l')

nothing_ends : ¬ EndsInXyz []
nothing_ends ([], e) = cc
nothing_ends (x ∷ front, e) = cc

pub peer_of-with_peer :
    (client : ℕ) (p : PeerState) (l : Loop)
    → client < length l.clients
    → peer_of client (with_peer client p l) ≡ done p
peer_of-with_peer client p l h = rw (get_elem?-set_self l.clients client (some p) h) refl

settle-quiet :
    (client : ℕ) (p : PeerState) (l : Loop)
    → peer_of client l ≡ done p
    → p.writing ≡ 0
    → settle client l ≡ done l
unfolding settle
settle-quiet client p l e none_left =
    rw e (ap (λ k. if k == 0 then done l else on_wrote_buf true client l) none_left)

settle-writing :
    (client : ℕ) (p : PeerState) (l : Loop)
    → peer_of client l ≡ done p
    → p.writing ≡ 1
    → settle client l ≡ done (wrote client p l)
unfolding settle on_wrote_buf
settle-writing client p l e one =
    rw e (ap (λ k. if k == 0 then done l else done (wrote client p l)) one)

module _ (m : Mode) (client : ℕ) (sent bytes : List ℕ) (l : Loop) (r : Ready m client sent l) where
  in_range : client < length l.clients
  in_range = get_elem?-lt l.clients client r.here

  no_output_held : take r.peer.sendbuf_end r.peer.sendbuf ≡ []
  no_output_held = ap (λ k. take k r.peer.sendbuf) r.empty

  quiet-RoundEnds :
      (p : PeerState)
      → IsPeer (mode_after m bytes) p
      → p.sendbuf_end ≡ 0
      → echo m bytes ≡ []
      → p.sent ≡ r.peer.sent
      → p.writing ≡ 0
      → RoundEnds m client sent bytes (done (with_peer client p l))
  quiet-RoundEnds p sound empty nothing log idle =
      again (with_peer client p l) (λ ends. nothing_ends (subst EndsInXyz nothing ends))
        (record {
          peer = p;
          here = get_elem?-set_self l.clients client (some p) in_range;
          sound = sound;
          empty = empty;
          idle = idle;
          log = log ∙ r.log ∙ sym (append-nil sent) ∙ ap (◌++◌ sent) (sym nothing);
          live = r.live;
        })

  wrote-RoundEnds :
      (p : PeerState)
      → IsPeer (mode_after m bytes) p
      → take p.sendbuf_end p.sendbuf ≡ echo m bytes
      → p.sent ≡ sent ++ echo m bytes
      → p.writing ≡ 1
      → RoundEnds m client sent bytes (done (wrote client p (with_peer client p l)))
  unfolding wrote
  wrote-RoundEnds p sound holds log one = elim (Bool-cases (is_kill p)) [
    | inl kill ↦ rw kill (stops _ refl (subst EndsInXyz holds (kill_ends p kill)))
    | inr live ↦ rw live (
        again _ (spared live) (record {
          peer = record p { sendbuf_end = 0; writing = p.writing - 1 };
          here =
              get_elem?-set_self (set l.clients client (some p)) client _
                (omega (arith, in_range, length-set l.clients client (some p)));
          sound = record { state = sound.state; room = sound.room; within = omega arith };
          empty = refl;
          idle = omega (arith, one);
          log = log;
          live = r.live;
        }))
  ]
    where
      spared : is_kill p ≡ false → ¬ EndsInXyz (echo m bytes)
      spared live ends =
          let kill : is_kill p ≡ true =
            is_kill-of_ends p (omega (arith, sound.within, sound.room))
              (subst EndsInXyz (sym holds) ends) in
          cc

  round-RoundEnds :
      length bytes ≤ sendbuf_size → RoundEnds m client sent bytes (round client bytes l)
  unfolding round on_peer_read
  round-RoundEnds short = rw r.here (go (on_bytes-Replies bytes m r.peer r.sound))
    where
      go :
          {e : Exec PeerState}
          → Replies (mode_after m bytes) (echo m bytes) r.peer e
          → RoundEnds m client sent bytes
              ((e ⟫= λ p'. done (with_peer client p' l)) ⟫= settle client)
      go (quiet p sound empty _ nothing log idle) =
          subst (RoundEnds m client sent bytes)
            (sym (
              settle-quiet client p (with_peer client p l) (peer_of-with_peer client p l in_range)
                (omega (arith, idle, r.idle))))
            (quiet-RoundEnds p sound empty nothing log (omega (arith, idle, r.idle)))
      go (answers p sound some_output longer front log writing) =
          subst (RoundEnds m client sent bytes)
            (sym (
              settle-writing client p (with_peer client p l) (peer_of-with_peer client p l in_range)
                (omega (arith, writing, r.idle))))
            (wrote-RoundEnds p sound (front ∙ ap (λ xs. xs ++ echo m bytes) no_output_held)
              (log
                ∙ ap (λ xs. xs ++ (take r.peer.sendbuf_end r.peer.sendbuf ++ echo m bytes)) r.log
                ∙ ap (λ xs. sent ++ (xs ++ echo m bytes)) no_output_held)
              (omega (arith, writing, r.idle)))
      go (overrun long) = absurd (omega (arith, long, r.empty, length-echo_le m bytes))

Echoes-cons :
    (m : Mode) (client : ℕ) (sent bytes : List ℕ) (chunks : List (List ℕ)) {e : Exec Loop}
    → ¬ EndsInXyz (echo m bytes)
    → Echoes (mode_after m bytes) client (sent ++ echo m bytes) chunks e
    → Echoes m client sent (bytes ∷ chunks) e
Echoes-cons m client sent bytes chunks spared (echoed l spares r) =
    echoed l (spared, spares)
      (subst (λ k. Ready k client (sent ++ echo m (bytes ++ flatten chunks)) l)
        (sym (mode_after-append m bytes (flatten chunks)))
        (subst (λ xs. Ready (mode_after (mode_after m bytes) (flatten chunks)) client xs l)
          (append_assoc sent (echo m bytes) (echo (mode_after m bytes) (flatten chunks))
            ∙ ap (◌++◌ sent) (sym (echo-append m bytes (flatten chunks))))
          r))
Echoes-cons m client sent bytes chunks spared (killed l before last after stopped e spares ends) =
    killed l (bytes ∷ before) last after stopped (ap (◌∷◌ bytes) e) (spared, spares)
      (subst (λ k. EndsInXyz (echo k last)) (sym (mode_after-append m bytes (flatten before))) ends)

abbrev pub FitsBuffer : List ℕ → Type 0
FitsBuffer bytes = length bytes ≤ sendbuf_size

-- While libuv completes every write before it reads from the client again, and no read brings more
-- than 1024 bytes, the client is echoed what the framing says for all that it has sent, unless the
-- server stops: exactly behind the first piece whose own echo ends in "XYZ".
pub rounds-Echoes :
    (client : ℕ) (chunks : List (List ℕ)) (m : Mode) (sent : List ℕ) (l : Loop)
    → Ready m client sent l
    → All FitsBuffer chunks
    → Echoes m client sent chunks (rounds client chunks l)
unfolding rounds
rounds-Echoes client [] m sent l r h =
    echoed l tt (subst (λ xs. Ready m client xs l) (sym (append-nil sent)) r)
rounds-Echoes client (bytes ∷ chunks) m sent l r h =
    go (round-RoundEnds m client sent bytes l r h.0)
      (λ l' r'. rounds-Echoes client chunks (mode_after m bytes) (sent ++ echo m bytes) l' r' h.1)
  where
    go :
        {e : Exec Loop}
        → RoundEnds m client sent bytes e
        → ((l' : Loop)
            → Ready (mode_after m bytes) client (sent ++ echo m bytes) l'
            → Echoes
                (mode_after m bytes)
                client
                (sent ++ echo m bytes)
                chunks
                (rounds client chunks l'))
        → Echoes m client sent
            (bytes ∷ chunks)
            (e ⟫= λ l'. if l'.stopped then done l' else rounds client chunks l')
    go (again l' spared r') later =
        subst (Echoes m client sent (bytes ∷ chunks))
          (sym (ap (λ b. if b then done l' else rounds client chunks l') r'.live))
          (Echoes-cons m client sent bytes chunks spared (later l' r'))
    go (stops l' stopped ends) later =
        subst (Echoes m client sent (bytes ∷ chunks))
          (sym (ap (λ b. if b then done l' else rounds client chunks l') stopped))
          (killed l' [] bytes chunks stopped refl tt ends)
