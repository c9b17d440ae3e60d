-- ===== src/Select/Parts.antt =====
-- The two parts of the body of the `for` loop in src/select_server.c.
use concurrent_servers.Prelude.{
  ℕ, ◌-◌, ◌≤◌, ◌≡◌, ◌≢◌, refl, sym, ap, ◌∙◌, subst, inl, inr, Bool, true, false, some, ◌>>=◌, arith,
  ◌==◌, Bool-cases,
}
use concurrent_servers.Exec.{done, checked, Ends, completed, Ends-bind}
use concurrent_servers.Peer.{FdStatus}
use concurrent_servers.Peer.Table.{peer_on_ready_recv}
use concurrent_servers.Peer.Table.Live.{Live, peer_on_ready_recv-Served, peer_on_ready_send-Served}
use concurrent_servers.Select.{
  Select, apply_status, is_finished, Kernel, accept_peer, on_readable, on_writable, read_part,
  write_part,
}
use concurrent_servers.Select.Watch.{Watched, watched, free, Serving}
use concurrent_servers.Select.Accepting.{
  Progress, IsFresh, Fatal, verdict-Applied, Applied-Progress, accept_peer-Ends,
}

-- After the part of the body for a readable `fd`: it is open unless it is said to be closed.
abbrev pub Read : ℕ → Select → Bool × Select → Type 0
Read fd s (closed, s') =
    Progress fd s s'
    × (closed ≡ false → (s.table.sockets fd).is_open ≡ true → (s'.table.sockets fd).is_open ≡ true)

-- A descriptor that is open, and not the listener, is watched.
open_peer :
    (fd : ℕ) (s : Select)
    → Watched s fd
    → (s.table.sockets fd).is_open ≡ true
    → (status : FdStatus) × Live fd status s.table × (fd ≤ s.fdset_max)
open_peer fd s (watched status l _ _ le) live = (status, l, le)
open_peer fd s (free shut _ _) live = absurd (clash shut)
  where
    clash : (s.table.sockets fd).is_open ≡ false → ⊥
    clash shut = cc

module _ (k : Kernel) (fresh : IsFresh k) (fd : ℕ) (s : Select) (serving : Serving s) where
  on_readable-Ends :
      (fd ≢ s.listener → (s.table.sockets fd).is_open ≡ true)
      → Ends (Read fd s) (Fatal k) (on_readable k fd s)
  unfolding on_readable
  on_readable-Ends live = elim (Bool-cases (fd == s.listener)) [
    | inl is_listener ↦ rw is_listener (
        Ends-bind (accept_peer (k.accepts s.table.sockets) s) (λ s'. done (false, s'))
          (accept_peer-Ends k s serving fresh)
          (λ s' p. completed (false, s') (accepted_here (ground (arith, is_listener)) s' p)))
    | inr other ↦ rw other (peer (ground (arith, other)))
  ]
    where
      accepted_here :
          fd ≡ s.listener → (s' : Select) → Progress s.listener s s' → Read fd s (false, s')
      accepted_here e s' p = (
        subst (λ j. Progress j s s') (sym e) p,
        λ _ _.
            ap (λ j. (s'.table.sockets j).is_open) e
            ∙ ap (λ j. (s'.table.sockets j).is_open) (sym p.same_listener)
            ∙ p.serving.listening,
      )

      peer :
          fd ≢ s.listener
          → Ends (Read fd s) (Fatal k) (
              checked (
                peer_on_ready_recv (k.recvs fd) s.table fd >>= λ r.
                apply_status fd r.0 (record s { table = r.1 }) >>= λ s'.
                some (is_finished r.0, s')))
      peer ne =
          let (status, l, le) = open_peer fd s (serving.watch fd ne) (live ne) in
          let r = peer_on_ready_recv-Served fd s.table l (k.recvs fd) in
          let a = verdict-Applied fd s serving ne le r in
          rw (r.done, ◌>>=◌)
            (rw (a.done, ◌>>=◌)
              (completed (is_finished r.status, a.after)
                (Applied-Progress fd s a, λ h _. a.still h)))

  on_writable-Ends :
      fd ≢ s.listener
      → (s.table.sockets fd).is_open ≡ true
      → Ends (Progress fd s) (Fatal k) (on_writable k fd s)
  unfolding on_writable
  on_writable-Ends ne live =
      let (status, l, le) = open_peer fd s (serving.watch fd ne) live in
      let r = peer_on_ready_send-Served fd s.table l (k.sends fd) in
      let a = verdict-Applied fd s serving ne le r in
      rw (r.done, ◌>>=◌) (rw a.done (completed a.after (Applied-Progress fd s a)))

  Progress-refl : Progress fd s s
  Progress-refl = record { serving = serving; same_listener = refl; opens = λ j ne h. h }

  pub read_part-Ends :
      (is_readable : Bool) (nready : ℕ)
      → (is_readable ≡ true → fd ≢ s.listener → (s.table.sockets fd).is_open ≡ true)
      → Ends
          (λ (r : ℕ × Bool × Select). Read fd s (r.1, r.2))
          (Fatal k)
          (read_part k fd is_readable nready s)
  unfolding read_part
  read_part-Ends true nready live =
      Ends-bind (on_readable k fd s) (λ r. done (nready - 1, r.0, r.1))
        (on_readable-Ends (live refl)) (λ r h. completed (nready - 1, r.0, r.1) h)
  read_part-Ends false nready live = completed (nready, false, s) (Progress-refl, λ _ h. h)

  pub write_part-Ends :
      (is_writable : Bool) (nready : ℕ)
      → (is_writable ≡ true → (fd ≢ s.listener) × ((s.table.sockets fd).is_open ≡ true))
      → Ends
          (λ (r : ℕ × Select). Progress fd s r.1)
          (Fatal k)
          (write_part k fd is_writable nready s)
  unfolding write_part
  write_part-Ends true nready live =
      Ends-bind (on_writable k fd s) (λ s'. done (nready - 1, s'))
        (on_writable-Ends (live refl).0 (live refl).1) (λ s' h. completed (nready - 1, s') h)
  write_part-Ends false nready live = completed (nready, s) Progress-refl
