-- ===== src/Blocking/InTurn.antt =====
-- src/sequential_server.c: the clients are served one after the other.
use concurrent_servers.Prelude.{
  remove_head, ◌≡◌, ◌≢◌, refl, sym, ap, ◌∙◌, subst, ◌⊎◌, inl, inr, List, [], ◌∷◌, ◌++◌, Bool, true,
  false, Bool-cases, if◌then◌else◌, All, map, append_assoc, append-nil,
}
use concurrent_servers.Sys.{RecvResult, received, recv_failed, is_eintr}
use concurrent_servers.Protocol.{
  classify_errno, ServeResult, ServeStatus, returned, blocked_recv, blocked_send, fault,
}
use concurrent_servers.Protocol.Sending.{IsSsize}
use concurrent_servers.Protocol.Conversation.{IsShort, Abandoned, ending}
use concurrent_servers.Protocol.Serving.{Answered, full_reply, serve_connection-Served}
use concurrent_servers.Sys.{
  Errno, eintr, eagain, ewouldblock, econnreset, epipe, etimedout, econnaborted, emfile, enfile,
  enobufs, enomem, other,
}
use concurrent_servers.Blocking.{
  Client, Accept, incoming, accept_failed, is_retried, Visit, serve_client, Server, How, waits,
  dies, blocks, after_serve, on_client, serve_clients,
}

-- EINTR and ECONNABORTED are passed over, and no other failure of accept is.
abbrev pub passes : Errno → Bool
passes eintr = true
passes econnaborted = true
passes _ = false

is_retried-passes : (e : Errno) → is_retried e ≡ passes e
is_retried-passes eintr = refl
is_retried-passes eagain = refl
is_retried-passes ewouldblock = refl
is_retried-passes econnreset = refl
is_retried-passes epipe = refl
is_retried-passes etimedout = refl
is_retried-passes econnaborted = refl
is_retried-passes emfile = refl
is_retried-passes enfile = refl
is_retried-passes enobufs = refl
is_retried-passes enomem = refl
is_retried-passes (other n) = refl

-- The clients before the failure of accept that ends the process, and how the loop ends if it serves
-- them all.
abbrev pub clients : List Accept → List Client
clients [] = []
clients (incoming k ∷ accepts) = k ∷ clients accepts
clients (accept_failed e ∷ accepts) = if passes e then clients accepts else []

abbrev pub loop_end : List Accept → How
loop_end [] = waits
loop_end (incoming k ∷ accepts) = loop_end accepts
loop_end (accept_failed e ∷ accepts) = if passes e then loop_end accepts else dies

abbrev pub IsFit : Client → Type 0
IsFit k = All IsShort k.recvs × All IsSsize k.sends

-- The client was answered in full, or as far as the kernel let the server send.
abbrev pub Fair : Visit → Type 0
Fair v =
    Answered v.client.recvs v.before v.answer
    ⊎ Abandoned v.client.sends (full_reply v.client.recvs) [] v.answer

pub record Ended (v : Visit) : Type 0 where
  pub fair : Fair v
  pub result : ServeResult
  pub status : v.answer.0 ≡ returned result

pub record Stuck (v : Visit) : Type 0 where
  pub fair : Fair v
  pub status : (v.answer.0 ≡ blocked_recv) ⊎ (v.answer.0 ≡ blocked_send)

-- What the loop comes to for these clients, and if it serves them all, `last`.
pub data Turns (waiting : List Client) (last : How) (s : Server) : How × Server → Type 0 where
  all_served :
      (new : List Visit) (s' : Server)
      → map (λ v. v.client) new ≡ waiting
      → All Ended new
      → s'.visits ≡ s.visits ++ new
      → s'.open_fds ≡ s.open_fds
      → Turns waiting last s (last, s')
  one_blocks :
      (new : List Visit) (v : Visit) (left : List Client) (s' : Server)
      → waiting ≡ map (λ v. v.client) new ++ (v.client ∷ left)
      → All Ended new
      → Stuck v
      → s'.visits ≡ s.visits ++ (new ++ (v ∷ []))
      → s'.open_fds ≡ v.client.fd ∷ s.open_fds
      → Turns waiting last s (blocks, s')

-- A conversation never goes out of bounds.
ending-in : (recvs : List RecvResult) → ending recvs ≢ fault
unfolding ending
ending-in [] e = cc
ending-in (received [] ∷ recvs) e = cc
ending-in (received (b ∷ bs) ∷ recvs) e = ending-in recvs e
ending-in (recv_failed x ∷ recvs) e =
    let later = ending-in recvs in
    elim (Bool-cases (is_eintr x)) [
      | inl again ↦
          later
            (subst (λ b. (if b then ending recvs else returned (classify_errno x)) ≡ fault) again e)
      | inr over ↦
          let at_once =
            subst (λ b. (if b then ending recvs else returned (classify_errno x)) ≡ fault) over e in
          cc
    ]

Fair-in : (v : Visit) → Fair v → v.answer.0 ≢ fault
Fair-in v (inl answered) e = ending-in v.client.recvs (sym answered.status ∙ e)
Fair-in v (inr left) e = elim left.status [ inl b ↦ cc | inr (x, r) ↦ cc ]

prepend :
    {waiting : List Client} {last : How} {e : How × Server} (v : Visit) (s s' : Server)
    → Ended v
    → s'.visits ≡ s.visits ++ (v ∷ [])
    → s'.open_fds ≡ s.open_fds
    → Turns waiting last s' e
    → Turns (v.client ∷ waiting) last s e
prepend v s s' ended visits fds (all_served new s2 who all log opened) =
    all_served (v ∷ new) s2 (ap (◌∷◌ v.client) who) (ended, all)
      (log ∙ ap (λ l. l ++ new) visits ∙ append_assoc s.visits (v ∷ []) new) (opened ∙ fds)
prepend v s s' ended visits fds (one_blocks new w left s2 who all stuck log opened) =
    one_blocks (v ∷ new) w left s2 (ap (◌∷◌ v.client) who) (ended, all) stuck
      (log
        ∙ ap (λ l. l ++ (new ++ (w ∷ []))) visits
        ∙ append_assoc s.visits (v ∷ []) (new ++ (w ∷ [])))
      (opened ∙ ap (◌∷◌ w.client.fd) fds)

abbrev visit : Client → Server → Visit
visit k s = record { client = k; before = s.metrics; answer = serve_client k s.metrics }

abbrev visited : Client → Server → Server
visited k s = record {
  metrics = (serve_client k s.metrics).1.metrics;
  open_fds = k.fd ∷ s.open_fds;
  visits = s.visits ++ (visit k s ∷ []);
}

-- By how the conversation with `k` has ended.
after_serve-Turns :
    {waiting : List Client} {last : How} (k : Client) (s : Server)
    (continue : Server → How × Server)
    → Fair (visit k s)
    → ((s' : Server) → Turns waiting last s' (continue s'))
    → (status : ServeStatus) → (serve_client k s.metrics).0 ≡ status
    → Turns (k ∷ waiting) last s (after_serve status k.fd (visited k s) continue)
unfolding after_serve
after_serve-Turns {waiting} k s continue fair next (returned r) e =
    prepend (visit k s) s _ (record { fair = fair; result = r; status = e }) refl
      (remove_head k.fd s.open_fds) (next _)
after_serve-Turns {waiting} k s continue fair next blocked_recv e =
    one_blocks [] (visit k s) waiting (visited k s) refl tt (record { fair = fair; status = inl e })
      refl refl
after_serve-Turns {waiting} k s continue fair next blocked_send e =
    one_blocks [] (visit k s) waiting (visited k s) refl tt (record { fair = fair; status = inr e })
      refl refl
after_serve-Turns k s continue fair next fault e = absurd (Fair-in (visit k s) fair e)

-- The sequential server serves its clients in the order of accept, each to the end before the next, in
-- full unless the kernel ends the sending, and closes each of them; EINTR and
-- ECONNABORTED in accept change nothing. With all of them served it waits in accept or has died of
-- another failure of it. Only a client whose conversation blocks keeps it: all that came before are served, and nobody
-- behind is. The buffers are shorter than 2 ^ 63 bytes, and the sends fit an ssize_t.
pub serve_clients-Turns :
    (accepts : List Accept) (s : Server)
    → All IsFit (clients accepts)
    → Turns (clients accepts) (loop_end accepts) s (serve_clients accepts s)
unfolding serve_clients on_client
serve_clients-Turns [] s fit = all_served [] s refl tt (sym (append-nil s.visits)) refl
serve_clients-Turns (incoming k ∷ accepts) s fit =
    after_serve-Turns k s (serve_clients accepts)
      (serve_connection-Served k.clock k.recvs k.sends s.metrics fit.0.0 fit.0.1)
      (λ s'. serve_clients-Turns accepts s' fit.1) (serve_client k s.metrics).0 refl
serve_clients-Turns (accept_failed e ∷ accepts) s fit =
    subst
      (λ b.
        Turns (if passes e then clients accepts else [])
          (if passes e then loop_end accepts else dies) s
          (if b then serve_clients accepts s else (dies, s)))
      (sym (is_retried-passes e)) (passing (passes e) (λ f. serve_clients-Turns accepts s f) fit)
  where
    passing :
        (again : Bool)
        → (All IsFit (clients accepts)
            → Turns (clients accepts) (loop_end accepts) s (serve_clients accepts s))
        → All IsFit (if again then clients accepts else [])
        → Turns
            (if again then clients accepts else [])
            (if again then loop_end accepts else dies)
            s
            (if again then serve_clients accepts s else (dies, s))
    passing true later fit = later fit
    passing false later fit = all_served [] s refl tt (sym (append-nil s.visits)) refl
