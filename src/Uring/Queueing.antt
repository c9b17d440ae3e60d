-- ===== src/Uring/Queueing.antt =====
-- The submissions of src/uring_server.c: each arms the connection that has nothing outstanding.
use concurrent_servers.Prelude.{
  ℕ, ◌≤◌, ◌<◌, ◌^◌, min, ◌≡◌, ◌≢◌, refl, sym, ap, ◌∙◌, subst, inl, inr, Bool, true, false, List, [],
  ◌∷◌, ◌++◌, none, some, ◌>>=◌, arith, ◌==◌, if◌then◌else◌, Bool-cases, length, take, splice,
  get_elem?, get_elem?-lt, pos, length-splice, take-splice_next, append-nil,
}
use concurrent_servers.Exec.{checked, Ends, completed, gave_up}
use concurrent_servers.Peer.{PeerState, FdStatus, sendbuf_size, recv_room, pending}
use concurrent_servers.Peer.Stream.{Follows, staged}
use concurrent_servers.Peer.Runs.{
  Run, Run-Follows, IsApt, reading, writing, either, finished, room_or_output,
}
use concurrent_servers.Peer.Table.{Table, close, update}
use concurrent_servers.Peer.Table.Live.{update_self, update-ne}
use concurrent_servers.Uring.{
  Uring, iobuf_size, put_row, queue_recv, copy_and_send, queue_send, arm_next,
}
use concurrent_servers.Uring.UserData.{UringOp, op_recv, op_send, pack}
use concurrent_servers.Peer.Sent.{pending_length, length-staged}
use concurrent_servers.Uring.Mine.{mine, mine-append, mine-own, mine-others}
use concurrent_servers.Uring.Arming.{
  recv_sqe, send_sqe, receiving, transmitting, unarmed, Ringing, Loose, Ringing-of_Armed,
  submit-cases,
}

pub put_row_self : (rows : ℕ → List ℕ) (fd : ℕ) (row : List ℕ) → put_row rows fd row fd ≡ row
put_row_self rows fd row = rw (same fd) refl
  where
    same : (n : ℕ) → (n == n) ≡ true
    same n = ground arith

pub put_row-ne :
    (rows : ℕ → List ℕ) (fd j : ℕ) (row : List ℕ) → j ≢ fd → put_row rows fd row j ≡ rows j
put_row-ne rows fd j row ne = rw (differs j fd ne) refl
  where
    differs : (m n : ℕ) → m ≢ n → (m == n) ≡ false
    differs m n h = ground (arith, h)

-- A row keeps its size when bytes are copied to its front.
pub put_row-size :
    (rows : ℕ → List ℕ) (fd : ℕ) (bytes : List ℕ)
    → ((j : ℕ) → length (rows j) ≡ iobuf_size)
    → (j : ℕ) → length (put_row rows fd (splice (rows fd) 0 bytes) j) ≡ iobuf_size
put_row-size rows fd bytes h j = elim (Bool-cases (j == fd)) [
  | inl same ↦ rw same (length-splice (rows fd) 0 bytes ∙ h fd)
  | inr other ↦ rw other (h j)
]

module _ (flushes : Bool) (fd : ℕ) (s : Uring) (h : Loose fd s) (p : PeerState)
    (live : (s.table.sockets fd).is_open ≡ true) (slot : get_elem? s.table.peers fd ≡ some p)
    (run : Run (s.table.sockets fd).got (s.table.sockets fd).wire p) where
  small : fd < 2 ^ 31
  small = omega (arith, get_elem?-lt s.table.peers fd slot, h.capacity)

  -- What is outstanding once `fd` has submitted an operation.
  own_only :
      (op : UringOp) (len : ℕ)
      → mine fd (s.outstanding ++ (record { user_data = pack op (pos fd); len = len } ∷ []))
        ≡ record { user_data = pack op (pos fd); len = len } ∷ []
  own_only op len =
      mine-append fd s.outstanding (record { user_data = pack op (pos fd); len = len })
      ∙ ap (λ xs. xs ++ mine fd (record { user_data = pack op (pos fd); len = len } ∷ []))
          h.nothing_out
      ∙ mine-own op fd len small

  not_others :
      (op : UringOp) (len j : ℕ)
      → j ≢ fd
      → mine j (s.outstanding ++ (record { user_data = pack op (pos fd); len = len } ∷ []))
        ≡ mine j s.outstanding
  not_others op len j ne =
      mine-append j s.outstanding (record { user_data = pack op (pos fd); len = len })
      ∙ ap (λ xs. mine j s.outstanding ++ xs) (mine-others op fd len j small ne)
      ∙ append-nil (mine j s.outstanding)

  pub queue_recv-Ends :
      recv_room p ≡ sendbuf_size → Ends Ringing (flushes ≡ false) (queue_recv flushes fd s)
  unfolding queue_recv
  queue_recv-Ends room =
      rw (slot, room)
        (elim (submit-cases flushes (recv_sqe fd iobuf_size) s) [
          | inr (cannot, e) ↦ rw e (gave_up cannot)
          | inl (n, e) ↦ rw e (
              completed (submitted n) (
                Ringing-of_Armed fd s (submitted n) h refl h.rows h.capacity h.sized (λ j ne. refl)
                  (λ j ne. refl) (not_others op_recv iobuf_size) (λ j ne. refl)
                  (receiving p live slot run room (own_only op_recv iobuf_size))))
        ])
    where
      submitted : ℕ → Uring
      submitted n = record s {
        outstanding = s.outstanding ++ (recv_sqe fd iobuf_size ∷ []);
        unsubmitted = n;
      }

  -- The row holds a copy of all that is pending.
  copied : take (pending p).0 (splice (s.iobufs fd) 0 (take (pending p).0 (pending p).1)) ≡ staged p
  copied =
      take-splice_next 0 (pending p).0 (s.iobufs fd) (take (pending p).0 (pending p).1)
        (omega (arith, all_there)) (omega (arith, h.rows fd, within))
    where
      f : Follows (s.table.sockets fd).got (s.table.sockets fd).wire p
      f = Run-Follows p run

      within : (pending p).0 ≤ iobuf_size
      within = omega (arith, pending_length p f.bounded, f.bounded)

      all_there : length (take (pending p).0 (pending p).1) ≡ (pending p).0
      all_there = length-staged p f.size f.bounded

  copy_and_send-Ends :
      0 < (pending p).0 → Ends Ringing (flushes ≡ false) (copy_and_send flushes fd (pending p) s)
  unfolding copy_and_send
  copy_and_send-Ends some_left =
      rw whole (elim (submit-cases flushes (send_sqe fd (pending p).0) copy) [
        | inr (cannot, e) ↦ rw e (gave_up cannot)
        | inl (n, e) ↦ rw e (
            completed (submitted n) (
              Ringing-of_Armed fd s (submitted n) h refl
                (put_row-size s.iobufs fd (take (pending p).0 (pending p).1) h.rows) h.capacity
                h.sized (λ j ne. refl) (λ j ne. refl) (not_others op_send (pending p).0)
                (λ j ne.
                  put_row-ne s.iobufs fd j
                    (splice (s.iobufs fd) 0 (take (pending p).0 (pending p).1)) ne)
                (transmitting p live slot run some_left (own_only op_send (pending p).0) (
                  ap (take (pending p).0) (
                    put_row_self s.iobufs fd
                      (splice (s.iobufs fd) 0 (take (pending p).0 (pending p).1)))
                  ∙ copied))))
      ])
    where
      f : Follows (s.table.sockets fd).got (s.table.sockets fd).wire p
      f = Run-Follows p run

      whole : min (pending p).0 iobuf_size ≡ (pending p).0
      whole = omega (arith, pending_length p f.bounded, f.bounded)

      copy : Uring
      copy = record s {
        iobufs = put_row s.iobufs fd (splice (s.iobufs fd) 0 (take (pending p).0 (pending p).1));
      }

      submitted : ℕ → Uring
      submitted n = record copy {
        outstanding = s.outstanding ++ (send_sqe fd (pending p).0 ∷ []);
        unsubmitted = n;
      }

  pub queue_send-Ends : Ends Ringing (flushes ≡ false) (queue_send flushes fd s)
  unfolding queue_send
  queue_send-Ends = elim (room_or_output p (Run-Follows p run)) [
    | inl (_, some_left) ↦ rw (slot, positive some_left) (copy_and_send-Ends some_left)
    | inr (room, none_left) ↦ rw (slot, none_left) (queue_recv-Ends room)
  ]
    where
      positive : 0 < (pending p).0 → ((pending p).0 == 0) ≡ false
      positive lt = ground (arith, lt)

  shut-Ends :
      Ends Ringing
        (flushes ≡ false)
        (checked (close s.table fd >>= λ t. some (record s { table = t })))
  unfolding close
  shut-Ends =
      subst (Ends Ringing (flushes ≡ false))
        (ap (λ b. checked ((if b then some shut else none) >>= λ t. some (record s { table = t })))
          (sym live))
        (completed (record s { table = shut })
          (Ringing-of_Armed fd s (record s { table = shut }) h refl h.rows h.capacity h.sized
            (λ j ne.
              update-ne s.table.sockets fd j (record (s.table.sockets fd) { is_open = false }) ne)
            (λ j ne. refl) (λ j ne. refl) (λ j ne. refl)
            (unarmed
              (ap (λ x. x.is_open)
                (update_self s.table.sockets fd (record (s.table.sockets fd) { is_open = false })))
              h.nothing_out)))
    where
      shut : Table
      shut = record (s.table) {
        sockets = update s.table.sockets fd (record (s.table.sockets fd) { is_open = false });
      }

  -- The parser's verdict leads to the next operation, or to the close.
  pub arm_next-Ends :
      (status : FdStatus)
      → IsApt p status
      → Ends Ringing (flushes ≡ false) (arm_next flushes fd status s)
  unfolding arm_next
  arm_next-Ends status (reading room) = queue_recv-Ends room
  arm_next-Ends status (writing _) = queue_send-Ends
  arm_next-Ends status (either _) = queue_send-Ends
  arm_next-Ends status (finished _ _) = shut-Ends
