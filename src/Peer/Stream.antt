-- ===== src/Peer/Stream.antt =====
-- A connection of the event-driven servers over its whole life: what its peer has been sent, as the
-- operations of src/peer_state.c follow one another.
use concurrent_servers.Prelude.{
  ℕ, ◌-◌, ◌≤◌, ◌<◌, ◌≡◌, ◌≢◌, refl, sym, ap, ◌∙◌, inl, inr, ◌⊎◌, false, List, [], ◌∷◌, ◌++◌, none,
  some, arith, ltb, leb, Bool-cases, length, take, drop, set, write_at, length-set, take-set_next,
  append-nil, lt→ltb,
}
use concurrent_servers.Sys.{sub_u64}
use concurrent_servers.Framing.{
  Mode, outside, inside, star, mode_after, echo, mode_after-append, echo-append,
}
use concurrent_servers.Peer.{
  initial_ack, PeerState, consume, sendbuf_size, on_connected, recv_room, pending, is_initial_ack,
  fd_status_w,
}
use concurrent_servers.Peer.Consuming.{state_of, asking, consume_loop-Consumed}

-- The bytes that peer_pending hands out.
abbrev pub staged : PeerState → List ℕ
staged p = take (pending p).0 (pending p).1

-- The acknowledgement is under way and nothing has been read, or the parser stands where the bytes
-- read take it.
pub data Phase (got : List ℕ) (p : PeerState) : Type 0 where
  acking : p.state ≡ initial_ack → got ≡ [] → p.sendptr < p.sendbuf_end → Phase got p
  parsing : p.state ≡ state_of (mode_after outside got) → Phase got p

-- The peer has sent `got`, and has been sent `wire`.
pub record Follows (got wire : List ℕ) (p : PeerState) : Type 0 where
  pub size : length p.sendbuf ≡ sendbuf_size
  pub bounded : p.sendbuf_end ≤ sendbuf_size
  pub cursor : (p.sendptr < p.sendbuf_end) ⊎ ((p.sendptr ≡ 0) × (p.sendbuf_end ≡ 0))
  pub phase : Phase got p
  pub account : wire ++ staged p ≡ star ∷ echo outside got

pub staged_lem :
    (p : PeerState)
    → p.sendbuf_end ≤ sendbuf_size
    → staged p ≡ take (p.sendbuf_end - p.sendptr) (drop p.sendptr p.sendbuf)
unfolding pending
staged_lem p b = elim (Bool-cases (leb p.sendbuf_end p.sendptr)) [
  | inl empty ↦ rw empty (
      ap (λ n. take n (drop p.sendptr p.sendbuf)) {x = 0} {y = p.sendbuf_end - p.sendptr}
        (ground (arith, empty)))
  | inr some_left ↦ rw some_left (
      ap (λ n. take n (drop p.sendptr p.sendbuf)) {x = sub_u64 p.sendbuf_end p.sendptr}
        {y = p.sendbuf_end - p.sendptr} (ground (arith, some_left, b)))
]

pub staged-drained : (p : PeerState) → p.sendptr ≡ 0 → p.sendbuf_end ≡ 0 → staged p ≡ []
unfolding pending
staged-drained p z z' = rw (z, z') refl

pub staged_whole :
    (p : PeerState)
    → p.sendbuf_end ≤ sendbuf_size
    → p.sendptr ≡ 0
    → staged p ≡ take p.sendbuf_end p.sendbuf
staged_whole p b z =
    staged_lem p b
    ∙ ap (λ k. take (p.sendbuf_end - k) (drop k p.sendbuf)) z
    ∙ ap (λ k. take k p.sendbuf) {x = p.sendbuf_end - 0} {y = p.sendbuf_end} (omega arith)

-- A connection starts with the acknowledgement staged.
pub on_connected-Follows :
    (p : PeerState)
    → length p.sendbuf ≡ sendbuf_size
    → (p' : PeerState) × (on_connected p ≡ some (fd_status_w, p'))
      × Follows [] [] p'
      × (p'.sendptr < p'.sendbuf_end)
unfolding on_connected
on_connected-Follows p size = (
  p',
  rw in_bounds refl,
  record {
    size = length-set p.sendbuf 0 star ∙ size;
    bounded = omega arith;
    cursor = inl (omega arith);
    phase = acking refl refl (omega arith);
    account = staged_lem p' (omega arith) ∙ take-set_next 0 p.sendbuf star (omega (arith, size));
  },
  omega arith,
)
  where
    p' : PeerState
    p' = record {
      state = initial_ack;
      sendbuf = set p.sendbuf 0 star;
      sendbuf_end = 1;
      sendptr = 0;
      close_reason = none;
    }

    in_bounds : write_at p.sendbuf 0 star ≡ some (set p.sendbuf 0 star)
    in_bounds = ground (arith, size)

-- There is room only when the parser is under way and all has been drained.
pub record Roomy (got : List ℕ) (p : PeerState) : Type 0 where
  pub under_way : p.state ≡ state_of (mode_after outside got)
  pub at_front : p.sendptr ≡ 0
  pub drained : p.sendbuf_end ≡ 0
  pub whole : recv_room p ≡ sendbuf_size

pub is_initial_ack-state_of : (m : Mode) → is_initial_ack (state_of m) ≡ false
is_initial_ack-state_of outside = refl
is_initial_ack-state_of inside = refl

pub recv_room-cases :
    {got : List ℕ} (p : PeerState)
    → Phase got p
    → (p.sendptr < p.sendbuf_end) ⊎ ((p.sendptr ≡ 0) × (p.sendbuf_end ≡ 0))
    → ((recv_room p ≡ 0) × (p.sendptr < p.sendbuf_end)) ⊎ Roomy got p
unfolding recv_room
recv_room-cases p (acking e _ lt) _ = inl (rw e refl, lt)
recv_room-cases {got} p (parsing e) (inl lt) = inl (
  rw (e, is_initial_ack-state_of (mode_after outside got), lt→ltb p.sendptr p.sendbuf_end lt) refl,
  lt,
)
recv_room-cases {got} p (parsing e) (inr (z, z')) = inr (record {
  under_way = e;
  at_front = z;
  drained = z';
  whole = rw (e, is_initial_ack-state_of (mode_after outside got), z, z') refl;
})

-- Bytes that were received into the room there was: the loop runs through them, and stages their echo.
pub consume-Follows :
    {got wire : List ℕ} (p : PeerState) (bytes : List ℕ)
    → Follows got wire p
    → length bytes ≤ recv_room p
    → bytes ≢ []
    → (p' : PeerState) × (consume p bytes ≡ some (asking p'.sendbuf_end, p'))
      × Follows (got ++ bytes) wire p'
      × (p'.sendptr ≡ 0)
unfolding consume
consume-Follows p [] h fits some_bytes = absurd (some_bytes refl)
consume-Follows {got} {wire} p (b ∷ bs) h fits some_bytes =
    elim (recv_room-cases p h.phase h.cursor) [
      | inl (full, _) ↦ absurd (omega (arith, full, fits))
      | inr room ↦
          let cs = b ∷ bs in
          let r = consume_loop-Consumed (mode_after outside got) cs [] p false (record {
            size = h.size;
            staged = rw room.drained refl;
            room = omega (arith, room.drained, room.whole, fits);
            mode = room.under_way;
            told = rw room.drained refl;
            undrained = room.at_front;
          }) in
          (
            r.last,
            rw (not_beyond room.whole) r.finished,
            record {
              size = r.after.size;
              bounded = omega (arith, r.after.room);
              cursor = cursor_of r.last r.after.undrained;
              phase = parsing (r.after.mode ∙ ap state_of (sym (mode_after-append outside got cs)));
              account =
                  ap (λ xs. wire ++ xs)
                    (staged_whole r.last (omega (arith, r.after.room)) r.after.undrained
                      ∙ r.after.staged)
                  ∙ accounted room;
            },
            r.after.undrained,
          )
    ]
  where
    not_beyond : recv_room p ≡ sendbuf_size → ltb (recv_room p) (length (b ∷ bs)) ≡ false
    not_beyond w = ground (arith, w, fits)

    cursor_of :
        (q : PeerState)
        → q.sendptr ≡ 0
        → (q.sendptr < q.sendbuf_end) ⊎ ((q.sendptr ≡ 0) × (q.sendbuf_end ≡ 0))
    cursor_of q z = ground (arith, z)

    accounted :
        Roomy got p
        → wire ++ echo (mode_after outside got) (b ∷ bs) ≡ star ∷ echo outside (got ++ (b ∷ bs))
    accounted room =
        ap (λ xs. xs ++ echo (mode_after outside got) (b ∷ bs)) (nothing_left room)
        ∙ ap (◌∷◌ star) (sym (echo-append outside got (b ∷ bs)))
      where
        nothing_left : Roomy got p → wire ≡ star ∷ echo outside got
        nothing_left r =
            sym (append-nil wire)
            ∙ ap (λ xs. wire ++ xs) (sym (staged-drained p r.at_front r.drained))
            ∙ h.account
