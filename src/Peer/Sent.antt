-- ===== src/Peer/Sent.antt =====
-- peer_sent and close_with (src/peer_state.c) keep the account of what has been sent.
use concurrent_servers.Prelude.{
  ℕ, ◌+◌, ◌-◌, ◌≤◌, ◌<◌, ◌≡◌, refl, sym, ap, ◌∙◌, inl, inr, ◌⊎◌, true, false, List, [], ◌++◌, some,
  arith, ltb, leb, if◌then◌else◌, Bool-cases, take, drop, append_assoc, take-add, drop-drop, ltb→lt,
  length, length-take, length-drop,
}
use concurrent_servers.Sys.{add_u64, sub_u64}
use concurrent_servers.Framing.{outside, mode_after}
use concurrent_servers.Peer.{
  wait_for_msg, PeerState, CloseReason, sendbuf_size, pending, sent, close_with, is_initial_ack,
  fd_status_r, fd_status_w,
}
use concurrent_servers.Peer.Stream.{
  staged, Phase, acking, parsing, Follows, staged_lem, staged-drained, is_initial_ack-state_of,
}

-- How much is pending, as a difference of the native numbers.
pub pending_length :
    (p : PeerState) → p.sendbuf_end ≤ sendbuf_size → (pending p).0 ≡ p.sendbuf_end - p.sendptr
unfolding pending
pending_length p b = elim (Bool-cases (leb p.sendbuf_end p.sendptr)) [
  | inl empty ↦ rw empty (ground (arith, empty))
  | inr some_left ↦ rw some_left (ground (arith, some_left, b))
]

-- What is written, with what is left of it, is what was staged.
written :
    (p : PeerState) (n : ℕ)
    → p.sendbuf_end ≤ sendbuf_size
    → n ≤ (pending p).0
    → staged p
      ≡ take n (pending p).1
        ++ take (p.sendbuf_end - (p.sendptr + n)) (drop (p.sendptr + n) p.sendbuf)
unfolding pending
written p n b le = elim (Bool-cases (leb p.sendbuf_end p.sendptr)) [
  | inl empty ↦
      rw (empty, zero_of empty)
        (ap (λ k. take k (drop (p.sendptr + 0) p.sendbuf)) {x = 0}
          {y = p.sendbuf_end - (p.sendptr + 0)} (ground (arith, empty)))
  | inr some_left ↦ rw some_left (go (ground (arith, some_left, b)))
]
  where
    zero_of : leb p.sendbuf_end p.sendptr ≡ true → n ≡ 0
    zero_of empty = ground (arith, empty, le, pending_length p b)

    go :
        sub_u64 p.sendbuf_end p.sendptr ≡ n + (p.sendbuf_end - (p.sendptr + n))
        → take (sub_u64 p.sendbuf_end p.sendptr) (drop p.sendptr p.sendbuf)
          ≡ take n (drop p.sendptr p.sendbuf)
            ++ take (p.sendbuf_end - (p.sendptr + n)) (drop (p.sendptr + n) p.sendbuf)
    go e =
        ap (λ k. take k (drop p.sendptr p.sendbuf)) e
        ∙ sym (take-add n (p.sendbuf_end - (p.sendptr + n)) (drop p.sendptr p.sendbuf))
        ∙ ap (λ xs. take n (drop p.sendptr p.sendbuf) ++ take (p.sendbuf_end - (p.sendptr + n)) xs)
            (drop-drop n p.sendptr p.sendbuf)

-- What peer_sent leaves when all that was staged has gone out.
abbrev reset : PeerState → PeerState
reset p = record p {
  sendptr = 0;
  sendbuf_end = 0;
  state = if is_initial_ack p.state then wait_for_msg else p.state;
}

-- A count that a send reported for the bytes pending: those bytes are on the wire, and the rest are
-- still staged.
pub sent-Follows :
    {got wire : List ℕ} (p : PeerState) (n : ℕ)
    → Follows got wire p
    → n ≤ (pending p).0
    → Follows got (wire ++ take n (pending p).1) (sent p n).1
unfolding sent
sent-Follows {got} {wire} p n h le = elim (Bool-cases (ltb (add_u64 p.sendptr n) p.sendbuf_end)) [
  | inl more ↦ rw more (record {
    size = h.size;
    bounded = h.bounded;
    cursor = inl (ltb→lt (add_u64 p.sendptr n) p.sendbuf_end more);
    phase = still more h.phase;
    account =
        append_assoc wire (take n (pending p).1) (staged (moved (add_u64 p.sendptr n)))
        ∙ ap (λ xs. wire ++ (take n (pending p).1 ++ xs)) (left_over more)
        ∙ ap (λ xs. wire ++ xs) (sym (written p n h.bounded le))
        ∙ h.account;
  })
  | inr all ↦ rw all (record {
    size = h.size;
    bounded = omega arith;
    cursor = inr (refl, refl);
    phase = over h.phase;
    account =
        ap (λ xs. (wire ++ take n (pending p).1) ++ xs) (staged-drained (reset p) refl refl)
        ∙ append_assoc wire (take n (pending p).1) []
        ∙ ap (λ xs. wire ++ (take n (pending p).1 ++ xs)) (sym (nothing_over all))
        ∙ ap (λ xs. wire ++ xs) (sym (written p n h.bounded le))
        ∙ h.account;
  })
]
  where
    moved : ℕ → PeerState
    moved ptr = record p { sendptr = ptr }

    no_wrap : add_u64 p.sendptr n ≡ p.sendptr + n
    no_wrap = ground (arith, h.bounded, h.cursor, le, pending_length p h.bounded)

    still :
        ltb (add_u64 p.sendptr n) p.sendbuf_end ≡ true
        → Phase got p
        → Phase got (moved (add_u64 p.sendptr n))
    still more (acking e e' _) = acking e e' (ltb→lt (add_u64 p.sendptr n) p.sendbuf_end more)
    still more (parsing e) = parsing e

    left_over :
        ltb (add_u64 p.sendptr n) p.sendbuf_end ≡ true
        → staged (moved (add_u64 p.sendptr n))
          ≡ take (p.sendbuf_end - (p.sendptr + n)) (drop (p.sendptr + n) p.sendbuf)
    left_over more =
        staged_lem (moved (add_u64 p.sendptr n)) h.bounded
        ∙ ap (λ k. take (p.sendbuf_end - k) (drop k p.sendbuf)) no_wrap

    nothing_over :
        ltb (add_u64 p.sendptr n) p.sendbuf_end ≡ false
        → take (p.sendbuf_end - (p.sendptr + n)) (drop (p.sendptr + n) p.sendbuf) ≡ []
    nothing_over all =
        ap (λ k. take k (drop (p.sendptr + n) p.sendbuf)) {x = p.sendbuf_end - (p.sendptr + n)}
          {y = 0} (ground (arith, all, no_wrap))

    over : Phase got p → Phase got (reset p)
    over (acking e e' _) = parsing (rw (e, e') refl)
    over (parsing e) = parsing (rw (e, is_initial_ack-state_of (mode_after outside got)) refl)

pub close_with-Follows :
    {got wire : List ℕ} (p : PeerState) (reason : CloseReason)
    → Follows got wire p
    → Follows got wire (close_with p reason).1
unfolding close_with
close_with-Follows {wire = wire} p reason h = record {
  size = h.size;
  bounded = h.bounded;
  cursor = h.cursor;
  phase = same h.phase;
  account =
      ap (λ xs. wire ++ xs)
        (staged_lem (record p { close_reason = some reason }) h.bounded
          ∙ sym (staged_lem p h.bounded))
      ∙ h.account;
}
  where
    same : {got : List ℕ} → Phase got p → Phase got (record p { close_reason = some reason })
    same (acking e e' lt) = acking e e' lt
    same (parsing e) = parsing e

pub sent-cases :
    (p : PeerState) (n : ℕ)
    → (((sent p n).0 ≡ fd_status_w) × ((sent p n).1.sendptr < (sent p n).1.sendbuf_end))
      ⊎ (((sent p n).0 ≡ fd_status_r) × ((sent p n).1.sendptr ≡ 0) × ((sent p n).1.sendbuf_end ≡ 0))
unfolding sent
sent-cases p n = elim (Bool-cases (ltb (add_u64 p.sendptr n) p.sendbuf_end)) [
  | inl more ↦ inl (rw more refl, rw more (ltb→lt (add_u64 p.sendptr n) p.sendbuf_end more))
  | inr all ↦ inr (rw all refl, rw all refl, rw all refl)
]

pub length-staged :
    (p : PeerState)
    → length p.sendbuf ≡ sendbuf_size
    → p.sendbuf_end ≤ sendbuf_size
    → length (staged p) ≡ (pending p).0
length-staged p size b =
    ap length (staged_lem p b)
    ∙ length-take (p.sendbuf_end - p.sendptr) (drop p.sendptr p.sendbuf)
    ∙ omega (arith, length-drop p.sendptr p.sendbuf, size, b, pending_length p b)
