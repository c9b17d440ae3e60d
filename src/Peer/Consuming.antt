-- ===== src/Peer/Consuming.antt =====
-- The loop of peer_consume (src/peer_state.c) stages the echo of the bytes that it is given.
use concurrent_servers.Prelude.{
  ℕ, suc, ◌+◌, ◌≤◌, ◌≡◌, refl, sym, ap, ◌∙◌, inl, inr, Bool, true, not, List, [], ◌∷◌, ◌++◌, Option,
  some, arith, ◌==◌, ltb, Bool-cases, length, take, set, write_at, length-set, take-set_next,
  append-nil, append_assoc,
}
use concurrent_servers.Sys.{add_u64}
use concurrent_servers.Framing.{
  Mode, outside, inside, dollar, caret, bump, next_mode, echo_byte, mode_after, echo,
}
use concurrent_servers.Peer.{
  ProcessingState, wait_for_msg, in_msg, PeerState, FdStatus, ByteStep, next, consume_byte,
  consume_loop, consume_rest, sendbuf_size,
}

-- The parser's state in each mode, once the acknowledgement has gone out.
abbrev pub state_of : Mode → ProcessingState
state_of outside = wait_for_msg
state_of inside = in_msg

-- What the loop asks for when `n` bytes are staged.
abbrev pub asking : ℕ → FdStatus
asking n = record { want_read = not (ltb 0 n); want_write = ltb 0 n }

-- The loop with `left` bytes still to read, in mode `m`, having staged `out` in all.
pub record Consuming (m : Mode) (left : ℕ) (out : List ℕ) (p : PeerState) (ready : Bool)
    : Type 0 where
  pub size : length p.sendbuf ≡ sendbuf_size
  pub staged : take p.sendbuf_end p.sendbuf ≡ out
  pub room : p.sendbuf_end + left ≤ sendbuf_size
  pub mode : p.state ≡ state_of m
  pub told : ready ≡ ltb 0 p.sendbuf_end
  pub undrained : p.sendptr ≡ 0

-- One round leaves the loop in the next mode, with the byte's echo staged.
record Stepped (c left : ℕ) (m : Mode) (out : List ℕ) (answer : ByteStep) : Type 0 where
  peer : PeerState
  ready : Bool
  goes_on : answer ≡ next peer ready
  after : Consuming (next_mode m c) left (out ++ echo_byte m c) peer ready

module _ {left : ℕ} {out : List ℕ} (c : ℕ) (p : PeerState) (ready : Bool) where
  -- A byte that is not echoed.
  skipped :
      (m m' : Mode) (st : ProcessingState)
      → Consuming m (suc left) out p ready
      → st ≡ state_of m'
      → Consuming m' left (out ++ []) (record p { state = st }) ready
  skipped m m' st h e = record {
    size = h.size;
    staged = h.staged ∙ sym (append-nil out);
    room = omega (arith, h.room);
    mode = e;
    told = h.told;
    undrained = h.undrained;
  }

  -- A byte whose echo is stored at `sendbuf_end`.
  stored :
      Consuming inside (suc left) out p ready
      → Consuming inside left
          (out ++ (bump c ∷ []))
          (record p {
            sendbuf = set p.sendbuf p.sendbuf_end (bump c);
            sendbuf_end = add_u64 p.sendbuf_end 1;
          })
          true
  stored h = record {
    size = length-set p.sendbuf p.sendbuf_end (bump c) ∙ h.size;
    staged =
        ap (λ n. take n (set p.sendbuf p.sendbuf_end (bump c))) no_wrap
        ∙ take-set_next p.sendbuf_end p.sendbuf (bump c) (omega (arith, h.room, h.size))
        ∙ ap (λ xs. xs ++ (bump c ∷ [])) h.staged;
    room = omega (arith, h.room, no_wrap);
    mode = h.mode;
    told = ground (arith, no_wrap, h.room);
    undrained = h.undrained;
  }
    where
      no_wrap : add_u64 p.sendbuf_end 1 ≡ suc p.sendbuf_end
      no_wrap = omega (arith, h.room)

consume_byte-Stepped :
    {left : ℕ} {out : List ℕ} (m : Mode) (c : ℕ) (p : PeerState) (ready : Bool)
    → Consuming m (suc left) out p ready
    → Stepped c left m out (consume_byte (state_of m) c p ready)
unfolding consume_byte
consume_byte-Stepped outside c p ready h = elim (Bool-cases (c == caret)) [
  | inl opens ↦ record {
    peer = record p { state = in_msg };
    ready = ready;
    goes_on = rw opens refl;
    after = rw opens (skipped c p ready outside inside in_msg h refl);
  }
  | inr noise ↦ record {
    peer = p;
    ready = ready;
    goes_on = rw noise refl;
    after = rw noise (skipped c p ready outside outside p.state h h.mode);
  }
]
consume_byte-Stepped inside c p ready h = elim (Bool-cases (c == dollar)) [
  | inl closes ↦ record {
    peer = record p { state = wait_for_msg };
    ready = ready;
    goes_on = rw closes refl;
    after = rw closes (skipped c p ready inside outside wait_for_msg h refl);
  }
  | inr payload ↦ record {
    peer = record p {
      sendbuf = set p.sendbuf p.sendbuf_end (bump c);
      sendbuf_end = add_u64 p.sendbuf_end 1;
    };
    ready = true;
    goes_on = rw (payload, in_bounds) refl;
    after = rw payload (stored c p ready h);
  }
]
  where
    in_bounds :
        write_at p.sendbuf p.sendbuf_end (bump c) ≡ some (set p.sendbuf p.sendbuf_end (bump c))
    in_bounds = ground (arith, h.room, h.size)

-- What the loop answers once it has read `cs` from mode `m`.
pub record Consumed (m : Mode) (cs out : List ℕ) (answer : Option (FdStatus × PeerState))
    : Type 0 where
  pub last : PeerState
  pub finished : answer ≡ some (asking last.sendbuf_end, last)
  pub after : Consuming (mode_after m cs) 0 (out ++ echo m cs) last (ltb 0 last.sendbuf_end)

pub consume_loop-Consumed :
    (m : Mode) (cs out : List ℕ) (p : PeerState) (ready : Bool)
    → Consuming m (length cs) out p ready
    → Consumed m cs out (consume_loop cs p ready)
unfolding consume_loop consume_rest
consume_loop-Consumed m [] out p ready h = record {
  last = p;
  finished = rw h.told refl;
  after = rw (sym h.told) (record {
    size = h.size;
    staged = h.staged ∙ sym (append-nil out);
    room = h.room;
    mode = h.mode;
    told = h.told;
    undrained = h.undrained;
  });
}
consume_loop-Consumed m (c ∷ cs) out p ready h =
    let s = consume_byte-Stepped m c p ready h in
    let goes_on : consume_byte p.state c p ready ≡ next s.peer s.ready =
      ap (λ st. consume_byte st c p ready) h.mode ∙ s.goes_on in
    let r =
      consume_loop-Consumed (next_mode m c) cs (out ++ echo_byte m c) s.peer s.ready s.after in
    record {
      last = r.last;
      finished = rw goes_on r.finished;
      after = rw (sym (append_assoc out (echo_byte m c) (echo (next_mode m c) cs))) r.after;
    }
