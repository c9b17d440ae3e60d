-- ===== src/MetricsServer/Accepting.antt =====
-- src/metrics_server.c, `accept_loop`: one round of the loop takes one value of the flag, one answer of
-- poll, and one of accept where poll reports the listener readable.
use concurrent_servers.Prelude.{
  ℕ, List, [], ◌∷◌, ◌++◌, ◌≡◌, ◌≢◌, refl, sym, ap, ◌∙◌, ◌⊎◌, inl, inr, Bool, true, false, ◌||◌,
  if◌then◌else◌, All, append_assoc, Bool-cases,
}
use concurrent_servers.Sys.{Errno, eintr, econnaborted, emfile, RecvResult, SendResult, is_eintr}
use concurrent_servers.Exec.{is_aborted}
use concurrent_servers.Metrics.{Registry}
use concurrent_servers.MetricsServer.{Outcome, dropped, responded, waiting, faulted, serve}

-- What a client sends, what the kernel takes, what the arrays of `serve` and `send_metrics` hold, and
-- the registry.
pub record Client : Type 0 where
  pub recvs : List RecvResult
  pub sends : List SendResult
  pub request : List ℕ
  pub stack : List ℕ
  pub registry : Registry

pub data AcceptCall : Type 0 where
  took : ℕ → Client → AcceptCall
  refused : Errno → AcceptCall

pub data PollAnswer : Type 0 where
  poll_failed : Errno → PollAnswer
  timed_out : PollAnswer
  readable : AcceptCall → PollAnswer

pub record Round : Type 0 where
  pub running : Bool
  pub poll : PollAnswer

-- How the thread ends: it was told to stop, or a call has failed. `looping` is a loop that has used up
-- its rounds, `serving` one whose client keeps it waiting, and `faulty` an access out of bounds.
pub data LoopEnd : Type 0 where
  stopped looping : LoopEnd
  failed : Errno → LoopEnd
  serving faulty : LoopEnd

pub data Event : Type 0 where
  opened closed : ℕ → Event
  served : Outcome → Event

abbrev is_emfile : Errno → Bool
is_emfile emfile = true
is_emfile _ = false

-- The failures of accept that the loop passes over.
pub is_transient : Errno → Bool
is_transient e = is_eintr e || (is_aborted e || is_emfile e)

-- serve(fd), and close(fd) once it has returned. `rest` is the rest of the loop.
pub serve_and_close : ℕ → Outcome → LoopEnd × List Event → LoopEnd × List Event
serve_and_close fd waiting rest = (serving, opened fd ∷ [])
serve_and_close fd faulted rest = (faulty, opened fd ∷ [])
serve_and_close fd outcome rest = (rest.0, opened fd ∷ (served outcome ∷ (closed fd ∷ rest.1)))

pub on_accept : AcceptCall → LoopEnd × List Event → LoopEnd × List Event
on_accept (took fd c) rest =
    serve_and_close fd (serve c.recvs c.sends c.request c.stack c.registry) rest
on_accept (refused e) rest = if is_transient e then rest else (failed e, [])

pub on_poll : PollAnswer → LoopEnd × List Event → LoopEnd × List Event
on_poll (poll_failed e) rest = if is_eintr e then rest else (failed e, [])
on_poll timed_out rest = rest
on_poll (readable call) rest = on_accept call rest

pub accept_loop : List Round → LoopEnd × List Event
accept_loop [] = (looping, [])
accept_loop (r ∷ rounds) =
    let rest = on_poll r.poll (accept_loop rounds) in if r.running then rest else (stopped, [])

-- A round that the loop survives.
abbrev pub Passes : AcceptCall → Type 0
Passes (took fd c) =
    (serve c.recvs c.sends c.request c.stack c.registry ≢ waiting)
    × (serve c.recvs c.sends c.request c.stack c.registry ≢ faulted)
Passes (refused e) = (e ≡ eintr) ⊎ ((e ≡ econnaborted) ⊎ (e ≡ emfile))

abbrev pub Harmless : PollAnswer → Type 0
Harmless (poll_failed e) = e ≡ eintr
Harmless timed_out = Unit
Harmless (readable call) = Passes call

abbrev pub Fine : Round → Type 0
Fine r = (r.running ≡ true) × Harmless r.poll

-- What happens to the client of such a round.
abbrev pub visit : PollAnswer → List Event
visit (readable (took fd c)) =
    opened fd ∷ (served (serve c.recvs c.sends c.request c.stack c.registry) ∷ (closed fd ∷ []))
visit _ = []

abbrev pub visits : List Round → List Event
visits [] = []
visits (r ∷ rounds) = visit r.poll ++ visits rounds

on_poll-Harmless :
    (p : PollAnswer) (rest : LoopEnd × List Event)
    → Harmless p
    → on_poll p rest ≡ (rest.0, visit p ++ rest.1)
unfolding on_poll on_accept is_transient serve_and_close
on_poll-Harmless (poll_failed e) rest h = rw h refl
on_poll-Harmless timed_out rest h = refl
on_poll-Harmless (readable (refused e)) rest h = elim h [
  | inl e1 ↦ rw e1 refl
  | inr others ↦ elim others [ inl e2 ↦ rw e2 refl | inr e3 ↦ rw e3 refl ]
]
on_poll-Harmless (readable (took fd c)) rest h =
    go (serve c.recvs c.sends c.request c.stack c.registry) h
  where
    go :
        (o : Outcome)
        → (o ≢ waiting) × (o ≢ faulted)
        → serve_and_close fd o rest ≡ (rest.0, opened fd ∷ (served o ∷ (closed fd ∷ rest.1)))
    go waiting ne = absurd (ne.0 refl)
    go dropped ne = refl
    go (responded e) ne = refl
    go faulted ne = absurd (ne.1 refl)

abbrev pub stuck : Outcome → LoopEnd
stuck faulted = faulty
stuck _ = serving

-- How the loop ends in a round that is not fine, and what has happened in it by then.
abbrev pub poll_verdict : PollAnswer → LoopEnd × List Event
poll_verdict (poll_failed e) = (failed e, [])
poll_verdict timed_out = (looping, [])
poll_verdict (readable (refused e)) = (failed e, [])
poll_verdict (readable (took fd c)) =
    (stuck (serve c.recvs c.sends c.request c.stack c.registry), opened fd ∷ [])

abbrev pub verdict : Round → LoopEnd × List Event
verdict r = if r.running then poll_verdict r.poll else (stopped, [])

transient_cases :
    (e : Errno) → is_transient e ≡ true → (e ≡ eintr) ⊎ ((e ≡ econnaborted) ⊎ (e ≡ emfile))
unfolding is_transient
transient_cases eintr h = inl refl
transient_cases econnaborted h = inr (inl refl)
transient_cases emfile h = inr (inr refl)
transient_cases _ h = cc

eintr_case : (e : Errno) → is_eintr e ≡ true → e ≡ eintr
eintr_case eintr h = refl
eintr_case _ h = cc

on_poll-verdict :
    (p : PollAnswer) (rest : LoopEnd × List Event) → ¬ Harmless p → on_poll p rest ≡ poll_verdict p
unfolding on_poll on_accept serve_and_close
on_poll-verdict (poll_failed e) rest h = elim (Bool-cases (is_eintr e)) [
  | inl again ↦ absurd (h (eintr_case e again))
  | inr fatal ↦ rw fatal
]
on_poll-verdict timed_out rest h = absurd (h tt)
on_poll-verdict (readable (refused e)) rest h = elim (Bool-cases (is_transient e)) [
  | inl again ↦ absurd (h (transient_cases e again))
  | inr fatal ↦ rw fatal
]
on_poll-verdict (readable (took fd c)) rest h =
    go (serve c.recvs c.sends c.request c.stack c.registry) h
  where
    go :
        (o : Outcome)
        → ¬ ((o ≢ waiting) × (o ≢ faulted))
        → serve_and_close fd o rest ≡ (stuck o, opened fd ∷ [])
    go waiting ne = refl
    go faulted ne = refl
    go dropped ne = absurd (ne ((λ e. cc), (λ e. cc)))
    go (responded e) ne = absurd (ne ((λ e. cc), (λ e. cc)))

accept_loop-cons :
    (r : Round) (rounds : List Round)
    → Fine r
    → accept_loop (r ∷ rounds) ≡ ((accept_loop rounds).0, visit r.poll ++ (accept_loop rounds).1)
unfolding accept_loop
accept_loop-cons r rounds h = rw h.0 (on_poll-Harmless r.poll (accept_loop rounds) h.1)

cons_of :
    (r : Round) (rounds : List Round) (events : List Event) (l : LoopEnd × List Event)
    → Fine r
    → accept_loop rounds ≡ (l.0, events ++ l.1)
    → accept_loop (r ∷ rounds) ≡ (l.0, (visit r.poll ++ events) ++ l.1)
cons_of r rounds events l h e =
    accept_loop-cons r rounds h
    ∙ ap (λ m. (m.0, visit r.poll ++ m.1)) e
    ∙ ap (λ log. (l.0, log)) (sym (append_assoc (visit r.poll) events l.1))

-- The thread lives through every round in which it is not told to stop and each failing call is one
-- that it retries (an interrupted poll; an accept that is interrupted, aborted by the client, or
-- short of descriptors), and closes each client's descriptor before it takes the next client. In the
-- first other round it ends: because it was told to, or with the error that failed; or its client
-- keeps it waiting, or serving it has gone out of bounds. Nothing of the later rounds happens.
pub accept_loop-Fine :
    (before rest : List Round)
    → All Fine before
    → (accept_loop (before ++ rest) ≡ ((accept_loop rest).0, visits before ++ (accept_loop rest).1))
      × ((r : Round)
          → ¬ Fine r
          → accept_loop (before ++ (r ∷ rest)) ≡ ((verdict r).0, visits before ++ (verdict r).1))
unfolding accept_loop
accept_loop-Fine [] rest h = (
  refl,
  λ r bad. elim (Bool-cases r.running) [
    | inl go ↦ rw go (on_poll-verdict r.poll (accept_loop rest) (λ fine. bad (go, fine)))
    | inr told ↦ rw told
  ],
)
accept_loop-Fine (b ∷ before) rest h = (
  cons_of b (before ++ rest) (visits before) (accept_loop rest) h.0
      (accept_loop-Fine before rest h.1).0,
  λ r bad.
      cons_of b (before ++ (r ∷ rest)) (visits before) (verdict r) h.0
        ((accept_loop-Fine before rest h.1).1 r bad),
)
