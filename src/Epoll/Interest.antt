-- ===== src/Epoll/Interest.antt =====
-- What the interest set of src/epoll_server.c says of the descriptors, and that applying a verdict
-- keeps it so.
use concurrent_servers.Prelude.{
  ℕ, ◌≡◌, ◌≢◌, refl, sym, ap, ◌∙◌, subst, inl, inr, true, false, not, ◌&&◌, Option, none, some,
  ◌>>=◌, arith, ◌==◌, if◌then◌else◌, Bool-cases, length, get_elem?,
}
use concurrent_servers.Exec.{done, checked}
use concurrent_servers.Peer.{FdStatus, fd_status_r}
use concurrent_servers.Peer.Table.{Table, close, update}
use concurrent_servers.Peer.Table.Live.{Live, Elsewhere, update_self, update-ne}
use concurrent_servers.Peer.Table.Sized.{IsSized, Elsewhere-IsSized, Live-elsewhere}
use concurrent_servers.Epoll.{
  Epoll, maxfds, put, epoll_add, epoll_mod, epoll_del_close, apply_status,
}

-- A descriptor is that of an open connection, in the set for what the parser last asked for; or it is
-- not open, and not in the set.
pub data Entered (s : Epoll) (fd : ℕ) : Type 0 where
  entered :
      (status : FdStatus) → Live fd status s.table → s.interest fd ≡ some status → Entered s fd
  left_out : (s.table.sockets fd).is_open ≡ false → s.interest fd ≡ none → Entered s fd

pub record Polling (s : Epoll) : Type 0 where
  pub capacity : length s.table.peers ≡ maxfds
  pub listening : (s.table.sockets s.listener).is_open ≡ true
  pub awaited : s.interest s.listener ≡ some fd_status_r
  pub sized : IsSized s.table
  pub watch : (fd : ℕ) → fd ≢ s.listener → Entered s fd

-- From `s` to `s'`, no descriptor was closed but `fd`.
pub record Advance (fd : ℕ) (s s' : Epoll) : Type 0 where
  pub polling : Polling s'
  pub same_listener : s'.listener ≡ s.listener
  pub opens :
      (j : ℕ) → j ≢ fd → (s.table.sockets j).is_open ≡ true → (s'.table.sockets j).is_open ≡ true

pub put_self :
    (interest : ℕ → Option FdStatus) (fd : ℕ) (entry : Option FdStatus)
    → put interest fd entry fd ≡ entry
put_self interest fd entry = rw (same fd) refl
  where
    same : (n : ℕ) → (n == n) ≡ true
    same n = ground arith

pub put-ne :
    (interest : ℕ → Option FdStatus) (fd j : ℕ) (entry : Option FdStatus)
    → j ≢ fd
    → put interest fd entry j ≡ interest j
put-ne interest fd j entry ne = rw (differs j fd ne) refl
  where
    differs : (m n : ℕ) → m ≢ n → (m == n) ≡ false
    differs m n h = ground (arith, h)

pub Entered-elsewhere :
    (s s' : Epoll) (j : ℕ)
    → s'.table.sockets j ≡ s.table.sockets j
    → get_elem? s'.table.peers j ≡ get_elem? s.table.peers j
    → s'.interest j ≡ s.interest j
    → Entered s j
    → Entered s' j
Entered-elsewhere s s' j same same' i (entered status l e) =
    entered status (Live-elsewhere s.table s'.table same same' l) (i ∙ e)
Entered-elsewhere s s' j same same' i (left_out shut e) =
    left_out (ap (λ x. x.is_open) same ∙ shut) (i ∙ e)

-- What is known of each descriptor once `fd` is dealt with.
pub everywhere :
    (s' : Epoll) (fd : ℕ)
    → Entered s' fd
    → ((j : ℕ) → j ≢ fd → j ≢ s'.listener → Entered s' j)
    → (j : ℕ) → j ≢ s'.listener
    → Entered s' j
everywhere s' fd here there j ne = elim (Bool-cases (j == fd)) [
  | inl same ↦ subst (Entered s') (sym (is_fd same)) here
  | inr other ↦ there j (not_fd other) ne
]
  where
    is_fd : (j == fd) ≡ true → j ≡ fd
    is_fd h = ground (arith, h)

    not_fd : (j == fd) ≡ false → j ≢ fd
    not_fd h = ground (arith, h)

-- `fd` is taken out of the set and closed.
module _ (fd : ℕ) (s : Epoll) (polling : Polling s) (ne : fd ≢ s.listener) (t : Table)
    (e : Elsewhere fd s.table t) (sized : IsSized t) (live : (t.sockets fd).is_open ≡ true) where
  abbrev shut : Epoll
  shut = record s {
    table = record t { sockets = update t.sockets fd (record (t.sockets fd) { is_open = false }) };
    interest = put s.interest fd none;
  }

  shut-sockets : (j : ℕ) → j ≢ fd → shut.table.sockets j ≡ s.table.sockets j
  shut-sockets j other =
      update-ne t.sockets fd j (record (t.sockets fd) { is_open = false }) other ∙ e.sockets j other

  pub epoll_del_close-Advance :
      (epoll_del_close fd (record s { table = t }) ≡ done shut) × Advance fd s shut
  unfolding epoll_del_close close
  epoll_del_close-Advance = (
    ap
        (λ b. checked (
          (if b then some shut.table else none) >>= λ t'.
          some (record s { table = t'; interest = put s.interest fd none })))
        live,
    record {
      polling = record {
        capacity = e.capacity ∙ polling.capacity;
        listening =
            ap (λ x. x.is_open) (shut-sockets s.listener (λ h. ne (sym h))) ∙ polling.listening;
        awaited = put-ne s.interest fd s.listener none (λ h. ne (sym h)) ∙ polling.awaited;
        sized = sized;
        watch =
            everywhere shut fd
              (left_out
                (ap (λ x. x.is_open)
                  (update_self t.sockets fd (record (t.sockets fd) { is_open = false })))
                (put_self s.interest fd none))
              (λ j other ne'.
                Entered-elsewhere s shut j (shut-sockets j other) (e.peers j other)
                  (put-ne s.interest fd j none other) (polling.watch j ne'));
      };
      same_listener = refl;
      opens = λ j other h. ap (λ x. x.is_open) (shut-sockets j other) ∙ h;
    },
  )

-- `fd` had `status` as its verdict, on the way from `s` to a table `t`.
module _ (fd : ℕ) (status : FdStatus) (s : Epoll) (polling : Polling s) (ne : fd ≢ s.listener)
    (t : Table) (l : Live fd status t) (e : Elsewhere fd s.table t) where
  abbrev set_to : Epoll
  set_to = record s { table = t; interest = put s.interest fd (some status) }

  set_to-Advance : Advance fd s set_to
  set_to-Advance = record {
    polling = record {
      capacity = e.capacity ∙ polling.capacity;
      listening = ap (λ x. x.is_open) (e.sockets s.listener (λ h. ne (sym h))) ∙ polling.listening;
      awaited = put-ne s.interest fd s.listener (some status) (λ h. ne (sym h)) ∙ polling.awaited;
      sized = Elsewhere-IsSized fd s.table t polling.sized e l;
      watch =
          everywhere set_to fd (entered status l (put_self s.interest fd (some status)))
            (λ j other ne'.
              Entered-elsewhere s set_to j (e.sockets j other) (e.peers j other)
                (put-ne s.interest fd j (some status) other) (polling.watch j ne'));
    };
    same_listener = refl;
    opens = λ j other h. ap (λ x. x.is_open) (e.sockets j other) ∙ h;
  }

  pub epoll_add-Advance :
      s.interest fd ≡ none
      → (epoll_add true fd status (record s { table = t }) ≡ done set_to) × Advance fd s set_to
  unfolding epoll_add
  epoll_add-Advance out = (rw out refl, set_to-Advance)

  -- Of a descriptor in the set, the entry is replaced, or it is taken out and closed.
  pub apply_status-Advance :
      (before : FdStatus)
      → s.interest fd ≡ some before
      → (s' : Epoll) × (apply_status fd status (record s { table = t }) ≡ done s') × Advance fd s s'
  unfolding apply_status epoll_mod
  apply_status-Advance before entry =
      elim (Bool-cases (not status.want_read && not status.want_write)) [
        | inl finished ↦
            let (closes, a) =
              epoll_del_close-Advance fd s polling ne t e
                (Elsewhere-IsSized fd s.table t polling.sized e l) l.is_open in
            (
              shut fd s polling ne t e (Elsewhere-IsSized fd s.table t polling.sized e l) l.is_open,
              ap
                    (λ b.
                      if b
                      then epoll_del_close fd (record s { table = t })
                      else epoll_mod fd status (record s { table = t }))
                    finished
                  ∙ closes,
              a,
            )
        | inr goes_on ↦ (set_to, rw (goes_on, entry) refl, set_to-Advance)
      ]
