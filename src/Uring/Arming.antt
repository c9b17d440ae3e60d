-- ===== src/Uring/Arming.antt =====
-- Every open connection of src/uring_server.c has one operation outstanding: what arm_next submits.
use concurrent_servers.Prelude.{
  ℕ, ◌+◌, ◌<◌, ◌^◌, ◌≡◌, ◌≢◌, refl, sym, ap, ◌∙◌, subst, inl, inr, ◌⊎◌, Bool, true, false, [], ◌∷◌,
  ◌++◌, some, arith, ◌==◌, Bool-cases, length, take, get_elem?, pos,
}
use concurrent_servers.Exec.{done, died}
use concurrent_servers.Peer.{PeerState, sendbuf_size, recv_room, pending}
use concurrent_servers.Peer.Stream.{staged}
use concurrent_servers.Peer.Runs.{Run}
use concurrent_servers.Peer.Table.Sized.{IsSized}
use concurrent_servers.Uring.{Uring, Sqe, maxfds, iobuf_size, submit}
use concurrent_servers.Uring.UserData.{op_accept, op_recv, op_send, pack}
use concurrent_servers.Uring.Mine.{mine}

abbrev pub recv_sqe : ℕ → ℕ → Sqe
recv_sqe fd len = record { user_data = pack op_recv (pos fd); len = len }

abbrev pub send_sqe : ℕ → ℕ → Sqe
send_sqe fd len = record { user_data = pack op_send (pos fd); len = len }

abbrev pub accept_sqe : ℕ → Sqe
accept_sqe listener = record { user_data = pack op_accept (pos listener); len = 0 }

-- An open connection has just one operation outstanding: a recv into the whole row, with nothing left
-- to send, or a send of all that is pending, of which the row holds a copy. A descriptor that is not
-- open has none.
pub data Armed (s : Uring) (fd : ℕ) : Type 0 where
  receiving :
      (p : PeerState)
      → (s.table.sockets fd).is_open ≡ true
      → get_elem? s.table.peers fd ≡ some p
      → Run (s.table.sockets fd).got (s.table.sockets fd).wire p
      → recv_room p ≡ sendbuf_size
      → mine fd s.outstanding ≡ recv_sqe fd iobuf_size ∷ []
      → Armed s fd
  transmitting :
      (p : PeerState)
      → (s.table.sockets fd).is_open ≡ true
      → get_elem? s.table.peers fd ≡ some p
      → Run (s.table.sockets fd).got (s.table.sockets fd).wire p
      → 0 < (pending p).0
      → mine fd s.outstanding ≡ send_sqe fd (pending p).0 ∷ []
      → take (pending p).0 (s.iobufs fd) ≡ staged p
      → Armed s fd
  unarmed : (s.table.sockets fd).is_open ≡ false → mine fd s.outstanding ≡ [] → Armed s fd

pub record Ringing (s : Uring) : Type 0 where
  pub capacity : length s.table.peers ≡ maxfds
  pub rows : (fd : ℕ) → length (s.iobufs fd) ≡ iobuf_size
  pub small : s.listener < 2 ^ 31
  pub listening : (s.table.sockets s.listener).is_open ≡ true
  pub accepting : mine s.listener s.outstanding ≡ accept_sqe s.listener ∷ []
  pub sized : IsSized s.table
  pub watch : (fd : ℕ) → fd ≢ s.listener → Armed s fd

-- The connection on `fd` has nothing outstanding, as between the completion of its last operation and
-- the submission of the next; all else is as it should be.
pub record Loose (fd : ℕ) (s : Uring) : Type 0 where
  pub capacity : length s.table.peers ≡ maxfds
  pub rows : (j : ℕ) → length (s.iobufs j) ≡ iobuf_size
  pub small : s.listener < 2 ^ 31
  pub listening : (s.table.sockets s.listener).is_open ≡ true
  pub accepting : mine s.listener s.outstanding ≡ accept_sqe s.listener ∷ []
  pub sized : IsSized s.table
  pub nothing_out : mine fd s.outstanding ≡ []
  pub not_listener : fd ≢ s.listener
  pub others : (j : ℕ) → j ≢ fd → j ≢ s.listener → Armed s j

-- What does not touch what belongs to `j` leaves it armed.
pub Armed-elsewhere :
    (s s' : Uring) (j : ℕ)
    → s'.table.sockets j ≡ s.table.sockets j
    → get_elem? s'.table.peers j ≡ get_elem? s.table.peers j
    → mine j s'.outstanding ≡ mine j s.outstanding
    → s'.iobufs j ≡ s.iobufs j
    → Armed s j
    → Armed s' j
Armed-elsewhere s s' j same peers out row (receiving p live slot run room mine_is) =
    receiving p (ap (λ x. x.is_open) same ∙ live) (peers ∙ slot)
      (subst (λ x. Run x.got x.wire p) (sym same) run) room (out ∙ mine_is)
Armed-elsewhere s s' j same peers out row (transmitting p live slot run left mine_is copy) =
    transmitting p (ap (λ x. x.is_open) same ∙ live) (peers ∙ slot)
      (subst (λ x. Run x.got x.wire p) (sym same) run) left (out ∙ mine_is)
      (ap (take (pending p).0) row ∙ copy)
Armed-elsewhere s s' j same peers out row (unarmed shut mine_is) =
    unarmed (ap (λ x. x.is_open) same ∙ shut) (out ∙ mine_is)

-- Once `fd` is armed again, all is as it should be.
pub Ringing-of_Armed :
    (fd : ℕ) (s s' : Uring)
    → Loose fd s
    → s'.listener ≡ s.listener
    → ((j : ℕ) → length (s'.iobufs j) ≡ iobuf_size)
    → length s'.table.peers ≡ maxfds
    → IsSized s'.table
    → ((j : ℕ) → j ≢ fd → s'.table.sockets j ≡ s.table.sockets j)
    → ((j : ℕ) → j ≢ fd → get_elem? s'.table.peers j ≡ get_elem? s.table.peers j)
    → ((j : ℕ) → j ≢ fd → mine j s'.outstanding ≡ mine j s.outstanding)
    → ((j : ℕ) → j ≢ fd → s'.iobufs j ≡ s.iobufs j)
    → Armed s' fd
    → Ringing s'
Ringing-of_Armed fd s s' h ln rows capacity sized sockets peers out row armed = record {
  capacity = capacity;
  rows = rows;
  small = omega (arith, h.small, ln);
  listening =
      ap (λ j. (s'.table.sockets j).is_open) ln
      ∙ ap (λ x. x.is_open) (sockets s.listener (λ e. h.not_listener (sym e)))
      ∙ h.listening;
  accepting =
      ap (λ j. mine j s'.outstanding) ln
      ∙ out s.listener (λ e. h.not_listener (sym e))
      ∙ h.accepting
      ∙ ap (λ j. accept_sqe j ∷ []) (sym ln);
  sized = sized;
  watch = λ j ne. elim (Bool-cases (j == fd)) [
    | inl same ↦ subst (Armed s') (sym (is_fd j same)) armed
    | inr other ↦
        Armed-elsewhere s s' j (sockets j (not_fd j other)) (peers j (not_fd j other))
          (out j (not_fd j other)) (row j (not_fd j other))
          (h.others j (not_fd j other) (λ e. ne (e ∙ sym ln)))
  ];
}
  where
    is_fd : (j : ℕ) → (j == fd) ≡ true → j ≡ fd
    is_fd j h = ground (arith, h)

    not_fd : (j : ℕ) → (j == fd) ≡ false → j ≢ fd
    not_fd j h = ground (arith, h)

-- A submission ends the process only when the queue cannot be flushed.
pub submit-cases :
    (flushes : Bool) (sqe : Sqe) (s : Uring)
    → ((n : ℕ) × (submit flushes sqe s
          ≡ done (record s { outstanding = s.outstanding ++ (sqe ∷ []); unsubmitted = n })))
      ⊎ ((flushes ≡ false) × (submit flushes sqe s ≡ died))
unfolding submit
submit-cases flushes sqe s = elim (Bool-cases (s.unsubmitted == s.depth)) [
  | inr room ↦ inl (s.unsubmitted + 1, rw room refl)
  | inl full ↦ elim (Bool-cases flushes) [
    | inl can ↦ inl (1, rw (full, can) refl)
    | inr cannot ↦ inr (cannot, rw (full, cannot) refl)
  ]
]
