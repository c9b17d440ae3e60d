-- ===== src/Peer/Keeping.antt =====
-- peer_consume (src/peer_state.c) gives no reason to close when the bytes fit.
use concurrent_servers.Prelude.{
  ℕ, ◌≤◌, ◌<◌, ◌≡◌, refl, sym, ap, ◌∙◌, inl, inr, Bool, true, false, ◌||◌, List, [], ◌∷◌, Option,
  none, some, arith, ◌==◌, ltb, if◌then◌else◌, Bool-cases, length, write_at, subst,
}
use concurrent_servers.Sys.{add_u8, sub_u64, add_u64}
use concurrent_servers.Framing.{caret, dollar}
use concurrent_servers.Peer.{
  ProcessingState, initial_ack, wait_for_msg, in_msg, PeerState, FdStatus, CloseReason,
  is_initial_ack, next, overrun, consume_beyond_room, consume_byte, consume_rest, consume_loop,
  consume, recv_room, close_with, sendbuf_size,
}

-- The reason to close is the one given.
data Keeps (reason : Option CloseReason) : Option (FdStatus × PeerState) → Type 0 where
  overran : Keeps reason none
  kept : (st : FdStatus) (p : PeerState) → p.close_reason ≡ reason → Keeps reason (some (st, p))

consume_byte-Keeps :
    {reason : Option CloseReason} (c : ℕ) (p : PeerState) (ready : Bool) (s : ProcessingState)
    (continue : PeerState → Bool → Option (FdStatus × PeerState))
    → p.close_reason ≡ reason
    → p.state ≡ s
    → is_initial_ack s ≡ false
    → ((q : PeerState) (r : Bool)
        → q.close_reason ≡ reason
        → is_initial_ack q.state ≡ false
        → Keeps reason (continue q r))
    → Keeps reason (consume_rest (consume_byte s c p ready) continue)
unfolding consume_byte consume_rest
consume_byte-Keeps c p ready initial_ack continue same at begun later = cc
consume_byte-Keeps c p ready wait_for_msg continue same at begun later =
    elim (Bool-cases (c == caret)) [
      | inl opens ↦ rw opens (later (record p { state = in_msg }) ready same refl)
      | inr noise ↦ rw noise (later p ready same (ap is_initial_ack at))
    ]
consume_byte-Keeps {reason} c p ready in_msg continue same at begun later =
    elim (Bool-cases (c == dollar)) [
      | inl closes ↦ rw closes (later (record p { state = wait_for_msg }) ready same refl)
      | inr payload ↦ rw payload (stored (write_at p.sendbuf p.sendbuf_end (add_u8 c 1)))
    ]
  where
    stored :
        (o : Option (List ℕ))
        → Keeps reason (
            consume_rest
              (elim o [
                | none ↦ overrun
                | some buf ↦
                    next (record p { sendbuf = buf; sendbuf_end = add_u64 p.sendbuf_end 1 }) true
              ])
              continue)
    stored none = overran
    stored (some buf) =
        later (record p { sendbuf = buf; sendbuf_end = add_u64 p.sendbuf_end 1 }) true same
          (ap is_initial_ack at)

consume_loop-Keeps :
    {reason : Option CloseReason} (bytes : List ℕ) (p : PeerState) (ready : Bool)
    → p.close_reason ≡ reason
    → is_initial_ack p.state ≡ false
    → Keeps reason (consume_loop bytes p ready)
unfolding consume_loop
consume_loop-Keeps [] p ready same begun = kept _ p same
consume_loop-Keeps (c ∷ cs) p ready same begun =
    consume_byte-Keeps c p ready p.state (consume_loop cs) same refl begun
      (λ q r same' begun'. consume_loop-Keeps cs q r same' begun')

kept_by :
    {reason : Option CloseReason} {answer : Option (FdStatus × PeerState)} {st : FdStatus}
    {p : PeerState}
    → Keeps reason answer
    → answer ≡ some (st, p)
    → p.close_reason ≡ reason
kept_by overran e = cc
kept_by (kept st p same) e = cc

-- With room there is no acknowledgement left to send.
roomy_begun : (p : PeerState) → 0 < recv_room p → is_initial_ack p.state ≡ false
unfolding recv_room
roomy_begun p h = elim (Bool-cases (is_initial_ack p.state)) [
  | inr begun ↦ begun
  | inl acking ↦ absurd (none_left acking h)
]
  where
    none_left :
        is_initial_ack p.state ≡ true
        → 0 < (
            if is_initial_ack p.state || ltb p.sendptr p.sendbuf_end
            then 0
            else sub_u64 sendbuf_size p.sendbuf_end)
        → ⊥
    none_left e h = omega (
      arith,
      subst
          (λ b.
            0
            < (if b || ltb p.sendptr p.sendbuf_end then 0 else sub_u64 sendbuf_size p.sendbuf_end))
          e h,
    )

pub consume-keeps :
    (p : PeerState) (bytes : List ℕ) {st : FdStatus} {q : PeerState}
    → 0 < recv_room p
    → length bytes ≤ recv_room p
    → consume p bytes ≡ some (st, q)
    → q.close_reason ≡ p.close_reason
unfolding consume
consume-keeps p bytes some_room fits e =
    kept_by (consume_loop-Keeps bytes p false refl (roomy_begun p some_room)) (
      sym (
        ap (λ b. if b then some (close_with p consume_beyond_room) else consume_loop bytes p false)
          within)
      ∙ e)
  where
    within : ltb (recv_room p) (length bytes) ≡ false
    within = ground (arith, fits)
