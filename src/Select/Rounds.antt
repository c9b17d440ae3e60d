-- ===== src/Select/Rounds.antt =====
-- The rounds of src/select_server.c: no access out of bounds, no call on a closed descriptor, and
-- the sets and the connections stay as they should.
use concurrent_servers.Prelude.{
  ℕ, zero, suc, ◌+◌, ◌≤◌, ◌<◌, ◌≡◌, ◌≢◌, refl, sym, ap, ◌∙◌, inl, inr, ◌⊎◌, Bool, true, false, ◌&&◌,
  List, [], ◌∷◌, some, arith, ltb, leb, if◌then◌else◌, Bool-cases, length, get_elem?,
  get_elem?-some,
}
use concurrent_servers.Sys.{is_eintr}
use concurrent_servers.Exec.{
  not_eintr, done, died, ◌⟫=◌, Ends, completed, gave_up, Ends-bind, Ends-weaken,
}
use concurrent_servers.Select.{
  Select, fd_setsize, Kernel, SelectResult, select_failed, events, read_part, write_part, serve_fd,
  serve_fds, kept, serve_round,
}
use concurrent_servers.Select.Watch.{Watched, watched, free, Serving}
use concurrent_servers.Select.Accepting.{Progress, IsFresh, Fatal, select_fatal}
use concurrent_servers.Select.Parts.{Read, read_part-Ends, write_part-Ends}

-- The copies of the sets that select has rewritten, for a loop that has come to `fd`: whatever is
-- still due in them is open, and the listener is not due for writing.
record Due (reads writes : List Bool) (fd : ℕ) (s : Select) : Type 0 where
  serving : Serving s
  reads_size : length reads ≡ fd_setsize
  writes_size : length writes ≡ fd_setsize
  not_written : get_elem? writes s.listener ≢ some true
  due :
      (j : ℕ)
      → fd ≤ j
      → j ≢ s.listener
      → (get_elem? reads j ≡ some true) ⊎ (get_elem? writes j ≡ some true)
      → (s.table.sockets j).is_open ≡ true

Progress-trans :
    (fd : ℕ) (s s' s'' : Select) → Progress fd s s' → Progress fd s' s'' → Progress fd s s''
Progress-trans fd s s' s'' a b = record {
  serving = b.serving;
  same_listener = b.same_listener ∙ a.same_listener;
  opens = λ j ne h. b.opens j ne (a.opens j ne h);
}

module _ (k : Kernel) (fresh : IsFresh k) (reads writes : List Bool) where
  Due-suc :
      (fd : ℕ) (s s' : Select)
      → Due reads writes fd s
      → Progress fd s s'
      → Due reads writes (suc fd) s'
  Due-suc fd s s' d p = record {
    serving = p.serving;
    reads_size = d.reads_size;
    writes_size = d.writes_size;
    not_written = λ h. d.not_written (ap (λ j. get_elem? writes j) (sym p.same_listener) ∙ h);
    due = λ j le ne h.
        p.opens j (λ e. absurd (omega (arith, le, e)))
          (d.due j (omega (arith, le)) (λ e. ne (e ∙ sym p.same_listener)) h);
  }

  serve_fd-Ends :
      (fd nready : ℕ) (s : Select)
      → Due reads writes fd s
      → fd < fd_setsize
      → Ends (λ (r : ℕ × Select). Progress fd s r.1) (Fatal k) (serve_fd k reads writes fd nready s)
  unfolding serve_fd
  serve_fd-Ends fd nready s d small =
      let (is_readable, at) = get_elem?-some reads fd (omega (arith, small, d.reads_size)) in
      let (is_writable, at') = get_elem?-some writes fd (omega (arith, small, d.writes_size)) in
      rw (at, at')
        (Ends-bind (read_part k fd is_readable nready s)
          (λ r.
            if r.1 then done (r.0, r.2) else (done is_writable ⟫= λ b. write_part k fd b r.0 r.2))
          (read_part-Ends k fresh fd s d.serving is_readable nready
            (λ e ne. d.due fd (omega arith) ne (inl (at ∙ ap some e))))
          (λ r h. then_write is_writable at' r.0 r.1 r.2 h))
    where
      then_write :
          (is_writable : Bool)
          → get_elem? writes fd ≡ some is_writable
          → (left : ℕ) (closed : Bool) (s' : Select) → Read fd s (closed, s')
          → Ends
              (λ (r : ℕ × Select). Progress fd s r.1)
              (Fatal k)
              (if closed then done (left, s') else write_part k fd is_writable left s')
      then_write is_writable at' left true s' (p, _) = completed (left, s') p
      then_write is_writable at' left false s' (p, still) =
          Ends-weaken (write_part-Ends k fresh fd s' p.serving is_writable left writable)
            (λ r q. Progress-trans fd s s' r.1 p q)
        where
          ne_listener : is_writable ≡ true → fd ≢ s.listener
          ne_listener e e' = d.not_written (ap (λ j. get_elem? writes j) (sym e') ∙ at' ∙ ap some e)

          writable :
              is_writable ≡ true → (fd ≢ s'.listener) × ((s'.table.sockets fd).is_open ≡ true)
          writable e = (
            λ e'. ne_listener e (e' ∙ p.same_listener),
            still refl (d.due fd (omega arith) (ne_listener e) (inr (at' ∙ ap some e))),
          )

  -- The loop comes to an end before its fuel does.
  serve_fds-Ends :
      (fuel fd nready : ℕ) (s : Select)
      → Due reads writes fd s
      → fd_setsize ≤ fuel + fd
      → Ends Serving (Fatal k) (serve_fds k reads writes fuel fd nready s)
  unfolding serve_fds
  serve_fds-Ends zero fd nready s d enough =
      rw (past s.fdset_max d.serving.high) (completed s d.serving)
    where
      past : (m : ℕ) → m < fd_setsize → (leb fd m && ltb 0 nready) ≡ false
      past m h = ground (arith, h, enough)
  serve_fds-Ends (suc fuel) fd nready s d enough =
      elim (Bool-cases (leb fd s.fdset_max && ltb 0 nready)) [
        | inr over ↦ rw over (completed s d.serving)
        | inl more ↦ rw more (
            Ends-bind (serve_fd k reads writes fd nready s)
              (λ r. serve_fds k reads writes fuel (suc fd) r.0 r.1)
              (serve_fd-Ends fd nready s d (ground (arith, more, d.serving.high)))
              (λ r p.
                serve_fds-Ends fuel (suc fd) r.0 r.1 (Due-suc fd s r.1 d p)
                  (omega (arith, enough))))
      ]

length-kept :
    (among : ℕ → Bool) (bits : List Bool) (fd : ℕ) → length (kept among bits fd) ≡ length bits
unfolding kept
length-kept among [] fd = refl
length-kept among (b ∷ bs) fd = ap suc (length-kept among bs (suc fd))

-- What select leaves set was set.
get_elem?-kept :
    (among : ℕ → Bool) (bits : List Bool) (fd j : ℕ)
    → get_elem? (kept among bits fd) j ≡ some true
    → get_elem? bits j ≡ some true
unfolding kept
get_elem?-kept among [] fd j h = h
get_elem?-kept among (true ∷ bs) fd zero h = refl
get_elem?-kept among (false ∷ bs) fd zero h = h
get_elem?-kept among (b ∷ bs) fd (suc j) h = get_elem?-kept among bs (suc fd) j h

-- One round, whatever select, accept, recv and send come to.
pub serve_round-Ends :
    (k : Kernel) (s : Select) → Serving s → IsFresh k → Ends Serving (Fatal k) (serve_round k s)
unfolding serve_round
serve_round-Ends k s serving fresh = go k.selects refl
  where
    go :
        (r : SelectResult)
        → k.selects ≡ r
        → Ends Serving (Fatal k) (elim r [
          | select_failed e ↦ if is_eintr e then done s else died
          | events nready ↦
              serve_fds k
                (kept k.readable s.readfds_master 0)
                (kept k.writable s.writefds_master 0)
                fd_setsize
                0
                nready
                s
        ])
    go (select_failed e) h = elim (Bool-cases (is_eintr e)) [
      | inl again ↦ rw again (completed s serving)
      | inr fatal ↦ rw fatal (gave_up (select_fatal e h (not_eintr e fatal)))
    ]
    go (events nready) h =
        serve_fds-Ends k fresh (kept k.readable s.readfds_master 0)
          (kept k.writable s.writefds_master 0) fd_setsize 0 nready s
          (record {
            serving = serving;
            reads_size = length-kept k.readable s.readfds_master 0 ∙ serving.reads;
            writes_size = length-kept k.writable s.writefds_master 0 ∙ serving.writes;
            not_written =
                λ e. serving.unwritten (get_elem?-kept k.writable s.writefds_master 0 s.listener e);
            due = λ j _ ne bit. set_open j (serving.watch j ne) bit;
          })
          (omega arith)
      where
        set_open :
            (j : ℕ)
            → Watched s j
            → (get_elem? (kept k.readable s.readfds_master 0) j ≡ some true)
              ⊎ (get_elem? (kept k.writable s.writefds_master 0) j ≡ some true)
            → (s.table.sockets j).is_open ≡ true
        set_open j (watched status l _ _ _) bit = l.is_open
        set_open j (free _ no_read no_write) (inl bit) =
            absurd (no_read (get_elem?-kept k.readable s.readfds_master 0 j bit))
        set_open j (free _ no_read no_write) (inr bit) =
            absurd (no_write (get_elem?-kept k.writable s.writefds_master 0 j bit))
