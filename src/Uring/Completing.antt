-- ===== src/Uring/Completing.antt =====
-- What src/uring_server.c does with the completion of a peer's operation.
use concurrent_servers.Prelude.{
  ℕ, zero, suc, ◌≤◌, ◌<◌, min, ◌≡◌, ◌≢◌, refl, sym, ap, ◌∙◌, inl, inr, Bool, true, false, ◌||◌,
  List, [], ◌∷◌, Option, some, arith, Bool-cases, length, take, splice, get_elem?, take-splice_next,
  take-splice_next, length-take,
}
use concurrent_servers.Exec.{Ends}
use concurrent_servers.Peer.{PeerState, FdStatus, sendbuf_size, recv_room, pending}
use concurrent_servers.Peer.Stream.{staged}
use concurrent_servers.Peer.Runs.{Run, IsApt, reading, writing}
use concurrent_servers.Peer.Table.{Table}
use concurrent_servers.Peer.Table.Live.{Live, Elsewhere}
use concurrent_servers.Peer.Table.Sized.{IsSized, Elsewhere-IsSized}
use concurrent_servers.Uring.{Uring, iobuf_size, put_row}
use concurrent_servers.Uring.Arming.{Ringing, Loose, Armed-elsewhere}
use concurrent_servers.Sys.{
  RecvResult, received, recv_failed, SendResult, wrote, send_failed, is_eintr, is_again,
}
use concurrent_servers.Peer.{CloseReason, peer_closed, strerror}
use concurrent_servers.Peer.Table.{peer_fail, clip_recv, clip_send}
use concurrent_servers.Peer.Table.Moved.{peer_consume-Served, peer_sent-Served}
use concurrent_servers.Peer.Table.Live.{Served, peer_fail-Served}
use concurrent_servers.Uring.{call_and_arm, on_received, on_sent}
use concurrent_servers.Uring.Queueing.{
  put_row_self, put_row-ne, put_row-size, queue_recv-Ends, queue_send-Ends, arm_next-Ends,
}

take-take_of_le : (m n : ℕ) (xs : List ℕ) → m ≤ n → take m (take n xs) ≡ take m xs
take-take_of_le zero n xs le = refl
take-take_of_le (suc m) zero xs le = absurd (omega (arith, le))
take-take_of_le (suc m) (suc n) [] le = refl
take-take_of_le (suc m) (suc n) (x ∷ xs) le =
    ap (◌∷◌ x) (take-take_of_le m n xs (omega (arith, le)))

-- What the calls on `fd` do to the table leaves the connection loose.
Loose-Elsewhere :
    (fd : ℕ) (s : Uring) (t : Table) (rows : ℕ → List ℕ)
    → Loose fd s
    → Elsewhere fd s.table t
    → IsSized t
    → ((j : ℕ) → length (rows j) ≡ iobuf_size)
    → ((j : ℕ) → j ≢ fd → rows j ≡ s.iobufs j)
    → Loose fd (record s { table = t; iobufs = rows })
Loose-Elsewhere fd s t rows h e sized rows_size rows_same = record {
  capacity = e.capacity ∙ h.capacity;
  rows = rows_size;
  small = h.small;
  listening =
      ap (λ x. x.is_open) (e.sockets s.listener (λ i. h.not_listener (sym i))) ∙ h.listening;
  accepting = h.accepting;
  sized = sized;
  nothing_out = h.nothing_out;
  not_listener = h.not_listener;
  others = λ j ne ne'.
      Armed-elsewhere s (record s { table = t; iobufs = rows }) j (e.sockets j ne) (e.peers j ne)
        refl (rows_same j ne) (h.others j ne ne');
}

-- A call on the table of a loose connection, and the operation that its verdict leads to.
pub call_and_arm-Ends :
    (flushes : Bool) (fd : ℕ) (s : Uring) {answer : Option (FdStatus × Table)}
    → Loose fd s
    → Served fd s.table answer
    → Ends Ringing (flushes ≡ false) (call_and_arm flushes fd answer s)
unfolding call_and_arm
call_and_arm-Ends flushes fd s h r = rw r.done (
    arm_next-Ends flushes fd (record s { table = r.after })
      (Loose-Elsewhere fd s r.after s.iobufs h r.others
        (Elsewhere-IsSized fd s.table r.after h.sized r.others r.live) h.rows (λ j ne. refl))
      r.live.peer r.live.is_open r.live.slot r.live.run r.status r.live.apt)

module _ (flushes : Bool) (fd : ℕ) (s : Uring) (h : Loose fd s) (p : PeerState)
    (live : (s.table.sockets fd).is_open ≡ true) (slot : get_elem? s.table.peers fd ≡ some p)
    (run : Run (s.table.sockets fd).got (s.table.sockets fd).wire p) where
  failed-Ends :
      {status : FdStatus} (reason : CloseReason)
      → IsApt p status
      → Ends Ringing (flushes ≡ false) (call_and_arm flushes fd (peer_fail reason s.table fd) s)
  failed-Ends {status} reason apt =
      call_and_arm-Ends flushes fd s h (peer_fail-Served fd s.table l reason)
    where
      l : Live fd status s.table
      l = record { is_open = live; peer = p; slot = slot; run = run; apt = apt }

  pub on_received-Ends :
      (r : RecvResult)
      → recv_room p ≡ sendbuf_size
      → Ends Ringing (flushes ≡ false) (on_received flushes fd (clip_recv iobuf_size r) s)
  unfolding on_received
  on_received-Ends (recv_failed e) room = elim (Bool-cases (is_eintr e || is_again e)) [
    | inl again ↦ rw again (queue_recv-Ends flushes fd s h p live slot run room)
    | inr fatal ↦ rw fatal (failed-Ends (strerror e) (reading room))
  ]
  on_received-Ends (received offered) room =
      bytes_in (take iobuf_size offered) (omega (arith, length-take iobuf_size offered))
    where
      bytes_in :
          (bytes : List ℕ)
          → length bytes ≤ iobuf_size
          → Ends Ringing (flushes ≡ false) (on_received flushes fd (received bytes) s)
      bytes_in [] fits = failed-Ends peer_closed (reading room)
      bytes_in (b ∷ bs) fits =
          let (t, called, r, e, same) =
            peer_consume-Served fd s.table p live slot run (b ∷ bs) (λ i. cc)
              (omega (arith, room, fits)) in
          rw (called, row_lem (b ∷ bs) fits)
            (call_and_arm-Ends flushes fd (record s { table = t; iobufs = rows (b ∷ bs) })
              (Loose-Elsewhere fd s t (rows (b ∷ bs)) h e
                (λ j q at. h.sized j q (ap (λ ps. get_elem? ps j) (sym same) ∙ at))
                (put_row-size s.iobufs fd (b ∷ bs) h.rows)
                (λ j ne. put_row-ne s.iobufs fd j (splice (s.iobufs fd) 0 (b ∷ bs)) ne))
              r)
        where
          rows : List ℕ → ℕ → List ℕ
          rows bytes = put_row s.iobufs fd (splice (s.iobufs fd) 0 bytes)

          row_lem :
              (bytes : List ℕ)
              → length bytes ≤ iobuf_size
              → take (length bytes) (rows bytes fd) ≡ bytes
          row_lem bytes fits =
              ap (take (length bytes)) (put_row_self s.iobufs fd (splice (s.iobufs fd) 0 bytes))
              ∙ take-splice_next 0 (length bytes) (s.iobufs fd) bytes (omega arith)
                  (omega (arith, fits, h.rows fd))

  pub on_sent-Ends :
      (r : SendResult)
      → 0 < (pending p).0
      → take (pending p).0 (s.iobufs fd) ≡ staged p
      → Ends Ringing (flushes ≡ false) (on_sent flushes fd (clip_send (pending p).0 r) s)
  unfolding on_sent
  on_sent-Ends (send_failed e) some_left copy = elim (Bool-cases (is_eintr e || is_again e)) [
    | inl again ↦ rw again (queue_send-Ends flushes fd s h p live slot run)
    | inr fatal ↦ rw fatal (failed-Ends (strerror e) (writing some_left))
  ]
  on_sent-Ends (wrote offered) some_left copy = sent_some (min offered (pending p).0) (omega arith)
    where
      sent_some :
          (n : ℕ)
          → n ≤ (pending p).0
          → Ends Ringing (flushes ≡ false) (on_sent flushes fd (wrote n) s)
      sent_some n le =
          let (t, called, r, e, same) = peer_sent-Served fd s.table p live slot run n le in
          rw (from_row n le, called)
            (call_and_arm-Ends flushes fd (record s { table = t })
              (Loose-Elsewhere fd s t s.iobufs h e
                (λ j q at. h.sized j q (ap (λ ps. get_elem? ps j) (sym same) ∙ at)) h.rows
                (λ j ne. refl))
              r)
        where
          from_row : (n : ℕ) → n ≤ (pending p).0 → take n (s.iobufs fd) ≡ take n (pending p).1
          from_row n le =
              sym (take-take_of_le n (pending p).0 (s.iobufs fd) le)
              ∙ ap (take n) copy
              ∙ take-take_of_le n (pending p).0 (pending p).1 le
