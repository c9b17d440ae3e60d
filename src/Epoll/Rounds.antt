-- ===== src/Epoll/Rounds.antt =====
-- The events of one answer of epoll_wait in src/epoll_server.c: no access out of bounds, no call on a
-- closed descriptor, and the interest set and the connections stay as they should.
use concurrent_servers.Prelude.{
  ℕ, ◌≡◌, ◌≢◌, refl, sym, ◌∙◌, subst, inl, inr, ◌⊎◌, true, false, List, [], ◌∷◌, Option, none, some,
  arith, ◌==◌, Bool-cases, All,
}
use concurrent_servers.Exec.{
  ◌⟫=◌, checked, Ends, completed, gave_up, Ends-bind, Ends-weaken, Ends-because,
}
use concurrent_servers.Peer.{FdStatus}
use concurrent_servers.Peer.Table.{Table}
use concurrent_servers.Peer.Table.Live.{
  Live, Served, peer_on_ready_recv-Served, peer_on_ready_send-Served,
}
use concurrent_servers.Epoll.{
  Epoll, apply_status, Event, Kernel, serve_peer, serve_event, serve_events, in_set,
}
use concurrent_servers.Epoll.Interest.{
  Entered, entered, left_out, Polling, Advance, epoll_del_close-Advance, apply_status-Advance,
}
use concurrent_servers.Epoll.Accepting.{Distinct, IsHonest, FatalCall, ErrorOn, accept_peer-Ends}

module _ (k : Kernel) (honest : IsHonest k) (s : Epoll) (polling : Polling s) where
  unchanged : (fd : ℕ) → Advance fd s s
  unchanged fd = record { polling = polling; same_listener = refl; opens = λ j ne h. h }

  -- A descriptor that is open, and not the listener, is in the set.
  open_peer :
      (fd : ℕ)
      → Entered s fd
      → (s.table.sockets fd).is_open ≡ true
      → (status : FdStatus) × Live fd status s.table × (s.interest fd ≡ some status)
  open_peer fd (entered status l e) live = (status, l, e)
  open_peer fd (left_out shut _) live = absurd (clash shut)
    where
      clash : (s.table.sockets fd).is_open ≡ false → ⊥
      clash shut = cc

  -- The verdict of a handler on an open connection.
  judged-Ends :
      (fd : ℕ) {answer : Option (FdStatus × Table)} (status : FdStatus)
      → fd ≢ s.listener
      → s.interest fd ≡ some status
      → Served fd s.table answer
      → Ends
          (Advance fd s)
          (FatalCall k)
          (checked answer ⟫= λ r. apply_status fd r.0 (record s { table = r.1 }))
  judged-Ends fd status ne entry r =
      let (s', e, a) =
        apply_status-Advance fd r.status s polling ne r.after r.live r.others status entry in
      rw r.done (rw e (completed s' a))

  serve_event-Ends :
      (e : Event)
      → (e.fd ≢ s.listener → (s.table.sockets e.fd).is_open ≡ true)
      → Ends
          (Advance e.fd s)
          (FatalCall k ⊎ ((e.has_error ≡ true) × (e.fd ≡ s.listener)))
          (serve_event k e s)
  unfolding serve_event serve_peer
  serve_event-Ends e live = elim (Bool-cases e.has_error) [
    | inl failed ↦ rw failed (elim (Bool-cases (e.fd == s.listener)) [
      | inl is_listener ↦ rw is_listener (gave_up (inr (refl, is_the is_listener)))
      | inr other ↦
          let ne = differs other in
          let (status, l, _) = open_peer e.fd (polling.watch e.fd ne) (live ne) in
          let (closes, a) =
            epoll_del_close-Advance e.fd s polling ne s.table
              (record { sockets = λ j _. refl; peers = λ j _. refl; capacity = refl }) polling.sized
              l.is_open in
          rw (other, closes) (completed _ a)
    ])
    | inr fine ↦ rw fine (elim (Bool-cases (e.fd == s.listener)) [
      | inl is_listener ↦ rw is_listener (
          Ends-weaken (Ends-because (accept_peer-Ends k honest s polling) inl)
            (λ s' a. subst (λ j. Advance j s s') (sym (is_the is_listener)) a))
      | inr other ↦ rw other (Ends-because (peer (differs other)) inl)
    ])
  ]
    where
      differs : (e.fd == s.listener) ≡ false → e.fd ≢ s.listener
      differs h = ground (arith, h)

      is_the : (e.fd == s.listener) ≡ true → e.fd ≡ s.listener
      is_the h = ground (arith, h)

      peer : e.fd ≢ s.listener → Ends (Advance e.fd s) (FatalCall k) (serve_peer k e s)
      peer ne =
          let (status, l, entry) = open_peer e.fd (polling.watch e.fd ne) (live ne) in
          elim (Bool-cases e.is_readable) [
            | inl readable ↦ rw readable (
                judged-Ends e.fd status ne entry
                  (peer_on_ready_recv-Served e.fd s.table l (k.recvs e.fd)))
            | inr not_readable ↦ rw not_readable (elim (Bool-cases e.is_writable) [
              | inl writable ↦ rw writable (
                  judged-Ends e.fd status ne entry
                    (peer_on_ready_send-Served e.fd s.table l (k.sends e.fd)))
              | inr neither ↦ rw neither (completed s (unchanged e.fd))
            ])
          ]

-- The descriptors of the events that are left are open.
abbrev pub Due : Epoll → List Event → Type 0
Due s es = All (λ e. e.fd ≢ s.listener → (s.table.sockets e.fd).is_open ≡ true) es

Due-Advance :
    (fd : ℕ) (s s' : Epoll) (es : List Event)
    → Advance fd s s'
    → All (λ e. e.fd ≢ fd) es
    → Due s es
    → Due s' es
Due-Advance fd s s' [] a others due = tt
Due-Advance fd s s' (e ∷ es) a others due = (
  λ ne. a.opens e.fd others.0 (due.0 (λ h. ne (h ∙ sym a.same_listener))),
  Due-Advance fd s s' es a others.1 due.1,
)

pub serve_events-Ends :
    (k : Kernel) (es : List Event) (s : Epoll)
    → IsHonest k
    → Polling s
    → Distinct es
    → Due s es
    → Ends
        (λ s'. Polling s' × (s'.listener ≡ s.listener))
        (FatalCall k ⊎ ErrorOn s.listener es)
        (serve_events k es s)
unfolding serve_events
serve_events-Ends k [] s honest polling distinct due = completed s (polling, refl)
serve_events-Ends k (e ∷ es) s honest polling distinct due =
    Ends-bind (serve_event k e s) (serve_events k es)
      (Ends-because (serve_event-Ends k honest s polling e due.0) first)
      (λ s' a.
        Ends-weaken
          (Ends-because
            (serve_events-Ends k es s' honest a.polling distinct.1
              (Due-Advance e.fd s s' es a distinct.0 due.1))
            (more s' a.same_listener))
          (λ s'' good. (good.0, good.1 ∙ a.same_listener)))
  where
    first :
        FatalCall k ⊎ ((e.has_error ≡ true) × (e.fd ≡ s.listener))
        → FatalCall k ⊎ ErrorOn s.listener (e ∷ es)
    first (inl w) = inl w
    first (inr w) = inr (inl w)

    more :
        (s' : Epoll)
        → s'.listener ≡ s.listener
        → FatalCall k ⊎ ErrorOn s'.listener es
        → FatalCall k ⊎ ErrorOn s.listener (e ∷ es)
    more s' same (inl w) = inl w
    more s' same (inr w) = inr (inr (subst (λ j. ErrorOn j es) same w))

All-in_set :
    (P : Event → Type 0) (interest : ℕ → Option FdStatus) (es : List Event)
    → All P es
    → All P (in_set interest es)
unfolding in_set
All-in_set P interest [] h = tt
All-in_set P interest (e ∷ es) h = go (interest e.fd) (All-in_set P interest es h.1)
  where
    go :
        (entry : Option FdStatus)
        → All P (in_set interest es)
        → All P (elim entry [ none ↦ in_set interest es | some _ ↦ e ∷ in_set interest es ])
    go none rest = rest
    go (some _) rest = (h.0, rest)

pub Distinct-in_set :
    (interest : ℕ → Option FdStatus) (es : List Event) → Distinct es → Distinct (in_set interest es)
unfolding in_set
Distinct-in_set interest [] h = tt
Distinct-in_set interest (e ∷ es) h =
    go (interest e.fd) (All-in_set (λ e'. e'.fd ≢ e.fd) interest es h.0)
      (Distinct-in_set interest es h.1)
  where
    go :
        (entry : Option FdStatus)
        → All (λ e'. e'.fd ≢ e.fd) (in_set interest es)
        → Distinct (in_set interest es)
        → Distinct (elim entry [ none ↦ in_set interest es | some _ ↦ e ∷ in_set interest es ])
    go none others rest = rest
    go (some _) others rest = (others, rest)

-- What epoll_wait reports is in the set, and so open.
pub Due-in_set : (s : Epoll) (es : List Event) → Polling s → Due s (in_set s.interest es)
unfolding in_set
Due-in_set s [] polling = tt
Due-in_set s (e ∷ es) polling = go (s.interest e.fd) refl (Due-in_set s es polling)
  where
    in_use :
        {status : FdStatus}
        → s.interest e.fd ≡ some status
        → Entered s e.fd
        → (s.table.sockets e.fd).is_open ≡ true
    in_use h (entered _ l _) = l.is_open
    in_use h (left_out _ out) = cc

    go :
        (entry : Option FdStatus)
        → s.interest e.fd ≡ entry
        → Due s (in_set s.interest es)
        → Due s (elim entry [ none ↦ in_set s.interest es | some _ ↦ e ∷ in_set s.interest es ])
    go none h rest = rest
    go (some status) h rest = (λ ne. in_use h (polling.watch e.fd ne), rest)

pub ErrorOn-in_set :
    (listener : ℕ) (interest : ℕ → Option FdStatus) (es : List Event)
    → ErrorOn listener (in_set interest es)
    → ErrorOn listener es
unfolding in_set
ErrorOn-in_set listener interest [] h = h
ErrorOn-in_set listener interest (e ∷ es) h =
    go (interest e.fd) h (ErrorOn-in_set listener interest es)
  where
    go :
        (entry : Option FdStatus)
        → ErrorOn listener
            (elim entry [ none ↦ in_set interest es | some _ ↦ e ∷ in_set interest es ])
        → (ErrorOn listener (in_set interest es) → ErrorOn listener es)
        → ErrorOn listener (e ∷ es)
    go none h rest = inr (rest h)
    go (some _) (inl here) rest = inl here
    go (some _) (inr there) rest = inr (rest there)
