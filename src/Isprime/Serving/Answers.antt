-- ===== src/Isprime/Serving/Answers.antt =====
-- What a client is answered in either mode, and what becomes of work for a client that has gone.
use concurrent_servers.Prelude.{
  ℕ, suc, ◌+◌, ◌*◌, ◌≤◌, ◌<◌, ◌≡◌, refl, sym, ap, subst, ◌∙◌, List, [], ◌∷◌, ◌++◌, Option, none,
  some, Bool, true, false, arith, length, take, set, get_elem?, write_at, if◌then◌else◌, lt→ltb,
  length-set, take-set_next, append_assoc, append-nil, get_elem?-set_self, get_elem?-lt,
}
use concurrent_servers.Exec.{Exec, done, fault, ◌⟫=◌, checked}
use concurrent_servers.Text.{codes}
use concurrent_servers.Isprime.{isprime}
use concurrent_servers.Isprime.Primality.{
  IsPrime, Decides, prime, composite, square_max, isprime-Decides,
}
use concurrent_servers.Isprime.Serving.{
  PeerState, Loop, fill_sendbuf, set_peer_sendbuf, set_verdict, peer_of, with_peer, write_sendbuf,
  read_number, read_error, got, answer_request, on_peer_read, on_work_submitted, on_work_completed,
  on_client_closed, without,
}

pub data Verdict (n : ℕ) : List ℕ → Type 0 where
  says_prime : IsPrime n → Verdict n (codes "prime\n")
  says_composite : ¬ IsPrime n → Verdict n (codes "composite\n")

-- The buffer of `p` holds `text`.
record Filled (p : PeerState) (text : List ℕ) (e : Exec PeerState) : Type 0 where
  peer : PeerState
  filled : e ≡ done peer
  shows : take peer.sendbuf_end peer.sendbuf ≡ text

fill_sendbuf-Filled :
    (str : List ℕ) (i : ℕ) (p : PeerState)
    → i + length str ≤ length p.sendbuf
    → Filled p (take i p.sendbuf ++ str) (fill_sendbuf str i p)
unfolding fill_sendbuf
fill_sendbuf-Filled [] i p h = record {
  peer = record p { sendbuf_end = i };
  filled = refl;
  shows = sym (append-nil (take i p.sendbuf));
}
fill_sendbuf-Filled (c ∷ cs) i p h =
    let stored : write_at p.sendbuf i c ≡ some (set p.sendbuf i c) =
      rw (lt→ltb i (length p.sendbuf) (omega arith)) refl in
    let rest : Filled p' (take (i + 1) p'.sendbuf ++ cs) (fill_sendbuf cs (i + 1) p') =
      fill_sendbuf-Filled cs (i + 1) p' (omega (arith, length-set p.sendbuf i c)) in
    rw (stored, fill_sendbuf)
      (record {
        peer = rest.peer;
        filled = rest.filled;
        shows =
            rest.shows
            ∙ ap (λ xs. xs ++ cs)
                (ap (λ k. take k (set p.sendbuf i c)) {x = i + 1} {y = suc i} (omega arith)
                  ∙ take-set_next i p.sendbuf c (omega arith))
            ∙ append_assoc (take i p.sendbuf) (c ∷ []) cs;
      })
  where
    p' : PeerState
    p' = record p { sendbuf = set p.sendbuf i c }

record Judged (n : ℕ) (e : Exec PeerState) : Type 0 where
  peer : PeerState
  judged : e ≡ done peer
  verdict : Verdict n (take peer.sendbuf_end peer.sendbuf)

-- The fuel of the test is past the square root of `n`.
pub record Enough (n f : ℕ) : Type 0 where
  pub root : ℕ
  pub above_one : 1 < n
  pub below : n < square_max
  pub root_lem : root ≡ 3 + 2 * f
  pub past : n < root * root

set_verdict-Judged :
    (f : ℕ) (p : PeerState)
    → Enough p.number f
    → 16 ≤ length p.sendbuf
    → Judged p.number (set_verdict (suc f) p)
unfolding set_verdict set_peer_sendbuf
set_verdict-Judged f p h room =
    go (isprime (suc f) p.number)
      (isprime-Decides f p.number h.root h.above_one h.below h.root_lem h.past)
  where
    said :
        (text : List ℕ)
        → Verdict p.number text
        → length text ≤ 16
        → Judged p.number (set_peer_sendbuf text p)
    said text v short =
        let r = fill_sendbuf-Filled text 0 p (omega arith) in
        record {
          peer = r.peer;
          judged = r.filled;
          verdict = subst (Verdict p.number) (sym r.shows) v;
        }

    go :
        (o : Option Bool)
        → Decides p.number o
        → Judged p.number (
            checked o ⟫= λ is_prime.
            set_peer_sendbuf (if is_prime then codes "prime\n" else codes "composite\n") p)
    go _ (prime y) = said (codes "prime\n") (says_prime y) (omega arith)
    go _ (composite y) = said (codes "composite\n") (says_composite y) (omega arith)

-- The client gets the right answer to `n`, and nothing else is written.
pub record Answers (n client : ℕ) (l : Loop) (e : Exec Loop) : Type 0 where
  pub after : Loop
  pub ends : e ≡ done after
  pub text : List ℕ
  pub right : Verdict n text
  pub written : after.written ≡ l.written ++ ((client, text) ∷ [])

peer_of-with_peer :
    (client : ℕ) (p : PeerState) (l : Loop)
    → client < length l.clients
    → peer_of client (with_peer client p l) ≡ done p
peer_of-with_peer client p l h = rw (get_elem?-set_self l.clients client (some p) h) refl

-- `on_work_submitted` and then `on_work_completed`.
abbrev pub work : ℕ → ℕ → Loop → Exec Loop
work fuel client l = on_work_submitted fuel client l ⟫= on_work_completed true true client

module _ (f client : ℕ) (l : Loop) (p : PeerState) (bytes : List ℕ)
    (here : get_elem? l.clients client ≡ some (some p)) (room : 16 ≤ length p.sendbuf)
    (enough : Enough (read_number bytes 0) f) where
  asked : PeerState
  asked = record p { number = read_number bytes 0 }

  found : peer_of client l ≡ done p
  found = rw here refl

  judged : Judged (read_number bytes 0) (set_verdict (suc f) asked)
  unfolding asked
  judged = set_verdict-Judged f asked enough room

  block-Answers :
      Answers (read_number bytes 0) client l (on_peer_read true (suc f) true client (got bytes) l)
  unfolding on_peer_read answer_request write_sendbuf asked
  block-Answers =
      rw (found, judged.judged)
        (record {
          after = record (with_peer client judged.peer l) {
            written =
                l.written ++ ((client, take judged.peer.sendbuf_end judged.peer.sendbuf) ∷ []);
          };
          ends = refl;
          text = take judged.peer.sendbuf_end judged.peer.sendbuf;
          right = judged.verdict;
          written = refl;
        })

  queued : Loop
  queued = record l { works = l.works ++ (client ∷ []) }

  in_range : client < length l.clients
  in_range = get_elem?-lt l.clients client here

  work_done :
      work (suc f) client (with_peer client asked queued)
      ≡ done (record (with_peer client judged.peer (with_peer client asked queued)) {
        works = without client queued.works;
        written = l.written ++ ((client, take judged.peer.sendbuf_end judged.peer.sendbuf) ∷ []);
      })
  unfolding on_work_submitted on_work_completed write_sendbuf queued
  work_done =
      rw
        (
          peer_of-with_peer client asked queued in_range,
          judged.judged,
          peer_of-with_peer client judged.peer (with_peer client asked queued)
              (omega (arith, in_range, length-set l.clients client (some asked))),
        )
        refl

  queue-Answers :
      Answers
        (read_number bytes 0)
        client
        l
        (on_peer_read false (suc f) true client (got bytes) l ⟫= work (suc f) client)
  unfolding on_peer_read answer_request asked queued
  queue-Answers =
      rw (found, work_done)
        (record {
          after = record (with_peer client judged.peer (with_peer client asked queued)) {
            works = without client queued.works;
            written =
                l.written ++ ((client, take judged.peer.sendbuf_end judged.peer.sendbuf) ∷ []);
          };
          ends = refl;
          text = take judged.peer.sendbuf_end judged.peer.sendbuf;
          right = judged.verdict;
          written = refl;
        })

-- In both modes a client that sends a request is written the verdict on the number at its start, and
-- nothing else is written: at once in MODE=BLOCK, and otherwise once the work has been run and
-- completed, if no other callback for the client comes between. The calls of libuv succeed; the number
-- is above 1 and below (2 ^ 32 - 1) ^ 2, and the fuel is past its root.
pub on_peer_read-Answers :
    (f client : ℕ) (l : Loop) (p : PeerState) (bytes : List ℕ)
    → get_elem? l.clients client ≡ some (some p)
    → 16 ≤ length p.sendbuf
    → Enough (read_number bytes 0) f
    → Answers (read_number bytes 0) client l (on_peer_read true (suc f) true client (got bytes) l)
      × Answers
          (read_number bytes 0)
          client
          l
          (on_peer_read false (suc f) true client (got bytes) l ⟫= work (suc f) client)
on_peer_read-Answers f client l p bytes here room enough = (
  block-Answers f client l p bytes here room enough,
  queue-Answers f client l p bytes here room enough,
)

-- A client that closes its connection while its work is queued: the state of the peer is freed with the
-- handle, and the work, when it runs, goes through a pointer to it. So it is for every client and
-- request.
pub work_after_close :
    (fuel client : ℕ) (l : Loop) (p : PeerState) (bytes : List ℕ)
    → get_elem? l.clients client ≡ some (some p)
    → (on_peer_read false fuel true client (got bytes) l
        ⟫= on_peer_read false fuel true client read_error
        ⟫= on_client_closed client
        ⟫= on_work_submitted fuel client)
      ≡ fault
unfolding on_peer_read answer_request on_client_closed on_work_submitted
work_after_close fuel client l p bytes here = rw (here, freed) refl
  where
    asked' : PeerState
    asked' = record p { number = read_number bytes 0 }

    freed : get_elem? (set (set l.clients client (some asked')) client none) client ≡ some none
    freed = get_elem?-set_self (set l.clients client (some asked')) client none (
        omega
          (arith, length-set l.clients client (some asked'), get_elem?-lt l.clients client here))
