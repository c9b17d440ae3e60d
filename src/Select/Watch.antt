-- ===== src/Select/Watch.antt =====
-- What the master sets of src/select_server.c say of the descriptors, and that applying a verdict
-- keeps it so.
use concurrent_servers.Prelude.{
  ℕ, ◌≤◌, ◌<◌, ◌≡◌, ◌≢◌, refl, sym, ap, ◌∙◌, subst, inl, inr, Bool, true, false, not, ◌&&◌, List,
  Option, none, some, ◌>>=◌, arith, ◌==◌, if◌then◌else◌, Bool-cases, length, set, write_at,
  get_elem?, get_elem?-set_self, get_elem?-set_ne, length-set,
}
use concurrent_servers.Peer.{FdStatus}
use concurrent_servers.Peer.Table.{Table, close, update}
use concurrent_servers.Peer.Table.Live.{Live, Elsewhere, update_self, update-ne}
use concurrent_servers.Peer.Table.Sized.{IsSized, Elsewhere-IsSized, Live-elsewhere}
use concurrent_servers.Select.{Select, apply_status, is_finished, maxfds, fd_setsize}

-- A descriptor is that of an open connection, watched for what the parser last asked for; or it is
-- not open, and not watched.
pub data Watched (s : Select) (fd : ℕ) : Type 0 where
  watched :
      (status : FdStatus)
      → Live fd status s.table
      → get_elem? s.readfds_master fd ≡ some status.want_read
      → get_elem? s.writefds_master fd ≡ some status.want_write
      → fd ≤ s.fdset_max
      → Watched s fd
  free :
      (s.table.sockets fd).is_open ≡ false
      → get_elem? s.readfds_master fd ≢ some true
      → get_elem? s.writefds_master fd ≢ some true
      → Watched s fd

pub record Serving (s : Select) : Type 0 where
  pub capacity : length s.table.peers ≡ maxfds
  pub reads : length s.readfds_master ≡ fd_setsize
  pub writes : length s.writefds_master ≡ fd_setsize
  pub listening : (s.table.sockets s.listener).is_open ≡ true
  pub awaited : get_elem? s.readfds_master s.listener ≡ some true
  pub unwritten : get_elem? s.writefds_master s.listener ≢ some true
  pub low : s.listener ≤ s.fdset_max
  pub high : s.fdset_max < fd_setsize
  pub sized : IsSized s.table
  pub watch : (fd : ℕ) → fd ≢ s.listener → Watched s fd

-- A verdict on `fd` in state `s`, once it is applied.
pub record Applied (fd : ℕ) (status : FdStatus) (s : Select) (answer : Option Select) : Type 0 where
  pub after : Select
  pub done : answer ≡ some after
  pub serving : Serving after
  pub same_listener : after.listener ≡ s.listener
  pub others : (j : ℕ) → j ≢ fd → after.table.sockets j ≡ s.table.sockets j
  pub still : is_finished status ≡ false → (after.table.sockets fd).is_open ≡ true

pub Watched-elsewhere :
    (s s' : Select) (j : ℕ)
    → s'.table.sockets j ≡ s.table.sockets j
    → get_elem? s'.table.peers j ≡ get_elem? s.table.peers j
    → get_elem? s'.readfds_master j ≡ get_elem? s.readfds_master j
    → get_elem? s'.writefds_master j ≡ get_elem? s.writefds_master j
    → s.fdset_max ≤ s'.fdset_max
    → Watched s j
    → Watched s' j
Watched-elsewhere s s' j same same' r w m (watched status l e e' le) =
    watched status (Live-elsewhere s.table s'.table same same' l) (r ∙ e) (w ∙ e')
      (omega (arith, le, m))
Watched-elsewhere s s' j same same' r w m (free shut e e') =
    free (ap (λ x. x.is_open) same ∙ shut) (λ h. e (sym r ∙ h)) (λ h. e' (sym w ∙ h))

-- A finished connection is watched for neither.
neither : (r w : Bool) → (not r && not w) ≡ true → (r ≡ false) × (w ≡ false)
neither true w h = cc
neither false true h = cc
neither false false h = (refl, refl)

unset : {o : Option Bool} {b : Bool} → o ≡ some b → b ≡ false → o ≢ some true
unset e e' h = cc

-- `fd` had `status` as its verdict, on the way from `s` to a table `t` and a new `fdset_max`.
module _ (fd : ℕ) (status : FdStatus) (s : Select) (t : Table) (m : ℕ) (serving : Serving s)
    (ne : fd ≢ s.listener) (l : Live fd status t) (e : Elsewhere fd s.table t) (le : fd ≤ m)
    (up : s.fdset_max ≤ m) (high : m < fd_setsize) where
  abbrev reads : List Bool
  reads = set s.readfds_master fd status.want_read

  abbrev writes : List Bool
  writes = set s.writefds_master fd status.want_write

  abbrev judged : Table → Select
  judged t' = record s {
    table = t';
    readfds_master = reads;
    writefds_master = writes;
    fdset_max = m;
  }

  abbrev shut : Table
  shut = record t { sockets = update t.sockets fd (record (t.sockets fd) { is_open = false }) }

  abbrev settled : Bool → Table
  settled true = shut
  settled false = t

  applied_lem :
      apply_status fd status (record s { table = t; fdset_max = m })
      ≡ some (judged (settled (is_finished status)))
  unfolding apply_status close
  applied_lem =
      rw (stored s.readfds_master status.want_read serving.reads, ◌>>=◌)
        (rw (stored s.writefds_master status.want_write serving.writes, ◌>>=◌)
          (rw (table_lem (is_finished status)) refl))
    where
      stored :
          (xs : List Bool) (b : Bool)
          → length xs ≡ fd_setsize
          → write_at xs fd b ≡ some (set xs fd b)
      stored xs b size = ground (arith, size, le, high)

      table_lem :
          (finished : Bool) → (if finished then close t fd else some t) ≡ some (settled finished)
      table_lem true = ap (λ b. if b then some shut else none) l.is_open
      table_lem false = refl

  settled-sockets : (b : Bool) (j : ℕ) → j ≢ fd → (settled b).sockets j ≡ s.table.sockets j
  settled-sockets true j other =
      update-ne t.sockets fd j (record (t.sockets fd) { is_open = false }) other ∙ e.sockets j other
  settled-sockets false j other = e.sockets j other

  settled-peers : (b : Bool) → (settled b).peers ≡ t.peers
  settled-peers true = refl
  settled-peers false = refl

  bit : (xs : List Bool) (b : Bool) → length xs ≡ fd_setsize → get_elem? (set xs fd b) fd ≡ some b
  bit xs b size = get_elem?-set_self xs fd b (omega (arith, size, le, high))

  bit_elsewhere :
      (xs : List Bool) (b : Bool) (j : ℕ) → j ≢ fd → get_elem? (set xs fd b) j ≡ get_elem? xs j
  bit_elsewhere xs b j other = get_elem?-set_ne xs fd j b (λ h. other (sym h))

  judged_watch :
      (b : Bool)
      → is_finished status ≡ b
      → (j : ℕ) → j ≢ s.listener
      → Watched (judged (settled b)) j
  judged_watch b verdict j ne' = elim (Bool-cases (j == fd)) [
    | inl same ↦ subst (Watched (judged (settled b))) (sym (is_fd same)) (here b verdict)
    | inr other ↦
        Watched-elsewhere s (judged (settled b)) j (settled-sockets b j (not_fd other))
          (ap (λ ps. get_elem? ps j) (settled-peers b) ∙ e.peers j (not_fd other))
          (bit_elsewhere s.readfds_master status.want_read j (not_fd other))
          (bit_elsewhere s.writefds_master status.want_write j (not_fd other)) up
          (serving.watch j ne')
  ]
    where
      is_fd : (j == fd) ≡ true → j ≡ fd
      is_fd h = ground (arith, h)

      not_fd : (j == fd) ≡ false → j ≢ fd
      not_fd h = ground (arith, h)

      read_bit : get_elem? reads fd ≡ some status.want_read
      read_bit = bit s.readfds_master status.want_read serving.reads

      write_bit : get_elem? writes fd ≡ some status.want_write
      write_bit = bit s.writefds_master status.want_write serving.writes

      here : (b : Bool) → is_finished status ≡ b → Watched (judged (settled b)) fd
      here false verdict = watched status l read_bit write_bit le
      here true verdict =
          let (no_read, no_write) = neither status.want_read status.want_write verdict in
          free
            (ap (λ x. x.is_open)
              (update_self t.sockets fd (record (t.sockets fd) { is_open = false })))
            (unset read_bit no_read) (unset write_bit no_write)

  judged-Serving : (b : Bool) → is_finished status ≡ b → Serving (judged (settled b))
  judged-Serving b verdict = record {
    capacity = ap length (settled-peers b) ∙ e.capacity ∙ serving.capacity;
    reads = length-set s.readfds_master fd status.want_read ∙ serving.reads;
    writes = length-set s.writefds_master fd status.want_write ∙ serving.writes;
    listening =
        ap (λ x. x.is_open) (settled-sockets b s.listener (λ h. ne (sym h))) ∙ serving.listening;
    awaited =
        bit_elsewhere s.readfds_master status.want_read s.listener (λ h. ne (sym h))
        ∙ serving.awaited;
    unwritten = λ h. serving.unwritten (
        sym (bit_elsewhere s.writefds_master status.want_write s.listener (λ h'. ne (sym h'))) ∙ h);
    low = omega (arith, serving.low, up);
    high = high;
    sized = λ j p at.
        Elsewhere-IsSized fd s.table t serving.sized e l j p
          (ap (λ ps. get_elem? ps j) (sym (settled-peers b)) ∙ at);
    watch = judged_watch b verdict;
  }

  pub apply_status-Applied :
      Applied fd status s (apply_status fd status (record s { table = t; fdset_max = m }))
  apply_status-Applied = record {
    after = judged (settled (is_finished status));
    done = applied_lem;
    serving = judged-Serving (is_finished status) refl;
    same_listener = refl;
    others = settled-sockets (is_finished status);
    still = λ h. ap (λ b. ((settled b).sockets fd).is_open) h ∙ l.is_open;
  }
