-- ===== src/UvServer/Consuming.antt =====
-- What `on_peer_read` does to the peer, compared with the framing.
use concurrent_servers.Prelude.{
  ℕ, suc, ◌+◌, ◌≤◌, ◌<◌, ◌≡◌, refl, sym, ap, ◌∙◌, subst, inl, inr, List, [], ◌∷◌, ◌++◌, true, ◌==◌,
  ltb, arith, Bool-cases, length, take, set, write_at, length-append, length-set, take-set_next,
  append-nil, append_assoc, lt→ltb,
}
use concurrent_servers.Sys.{add_u8}
use concurrent_servers.Exec.{Exec, done, died, ◌⟫=◌, checked}
use concurrent_servers.Framing.{
  Mode, outside, inside, caret, dollar, bump, next_mode, echo_byte, mode_after, echo,
}
use concurrent_servers.UvServer.{
  sendbuf_size, ProcessingState, wait_for_msg, in_msg, PeerState, consume_byte, consume, reply,
  on_bytes, write_sendbuf,
}

abbrev pub state_of : Mode → ProcessingState
state_of outside = wait_for_msg
state_of inside = in_msg

-- The peer is within or outside of a frame, and its buffer is sound.
pub record IsPeer (m : Mode) (p : PeerState) : Type 0 where
  pub state : p.state ≡ state_of m
  pub room : length p.sendbuf ≡ sendbuf_size
  pub within : p.sendbuf_end ≤ sendbuf_size

-- From `p` to `p'` the buffer has got `out`.
pub record Grows (p : PeerState) (out : List ℕ) (p' : PeerState) : Type 0 where
  pub longer : p'.sendbuf_end ≡ p.sendbuf_end + length out
  pub front : take p'.sendbuf_end p'.sendbuf ≡ take p.sendbuf_end p.sendbuf ++ out
  pub sent : p'.sent ≡ p.sent
  pub writing : p'.writing ≡ p.writing

-- The output fits the buffer; or it does not, and the assertion ends the process.
pub data Takes (m : Mode) (out : List ℕ) (p : PeerState) : Exec PeerState → Type 0 where
  fits : (p' : PeerState) → IsPeer m p' → Grows p out p' → Takes m out p (done p')
  overruns : sendbuf_size < p.sendbuf_end + length out → Takes m out p died

Grows-nil :
    (p p' : PeerState)
    → p'.sendbuf ≡ p.sendbuf
    → p'.sendbuf_end ≡ p.sendbuf_end
    → p'.sent ≡ p.sent
    → p'.writing ≡ p.writing
    → Grows p [] p'
Grows-nil p p' buf end sent writing = record {
  longer = omega (arith, end);
  front = rw (buf, end) (sym (append-nil (take p.sendbuf_end p.sendbuf)));
  sent = sent;
  writing = writing;
}

consume_byte-Takes :
    (m : Mode) (c : ℕ) (p : PeerState)
    → IsPeer m p
    → Takes (next_mode m c) (echo_byte m c) p (consume_byte (state_of m) c p)
unfolding consume_byte
consume_byte-Takes outside c p h = elim (Bool-cases (c == caret)) [
  | inl opens ↦ rw opens (
      fits (record p { state = in_msg }) (record { state = refl; room = h.room; within = h.within })
        (Grows-nil p (record p { state = in_msg }) refl refl refl refl))
  | inr other ↦ rw other (fits p h (Grows-nil p p refl refl refl refl))
]
consume_byte-Takes inside c p h = elim (Bool-cases (c == dollar)) [
  | inl closes ↦ rw closes (
      fits (record p { state = wait_for_msg })
        (record { state = refl; room = h.room; within = h.within })
        (Grows-nil p (record p { state = wait_for_msg }) refl refl refl refl))
  | inr other ↦ elim (Bool-cases (ltb p.sendbuf_end sendbuf_size)) [
    | inr full ↦ rw (other, full) (overruns (ground arith))
    | inl more ↦ rw (other, more) (put (ground (arith, h.room)))
  ]
]
  where
    p' : PeerState
    p' = record p {
      sendbuf = set p.sendbuf p.sendbuf_end (bump c);
      sendbuf_end = p.sendbuf_end + 1;
    }

    put :
        p.sendbuf_end < length p.sendbuf
        → Takes inside (bump c ∷ []) p (
            checked (write_at p.sendbuf p.sendbuf_end (add_u8 c 1)) ⟫= λ buf.
            done (record p { sendbuf = buf; sendbuf_end = p.sendbuf_end + 1 }))
    put lt = rw (lt→ltb p.sendbuf_end (length p.sendbuf) lt) (
        fits p'
          (record {
            state = h.state;
            room = length-set p.sendbuf p.sendbuf_end (bump c) ∙ h.room;
            within = omega (arith, h.room, lt);
          })
          (record {
            longer = refl;
            front =
                ap (λ k. take k p'.sendbuf) {x = p.sendbuf_end + 1} {y = suc p.sendbuf_end}
                  (omega arith)
                ∙ take-set_next p.sendbuf_end p.sendbuf (bump c) lt;
            sent = refl;
            writing = refl;
          }))

Grows-trans :
    (p q r : PeerState) (xs ys : List ℕ) → Grows p xs q → Grows q ys r → Grows p (xs ++ ys) r
Grows-trans p q r xs ys g h = record {
  longer = omega (arith, g.longer, h.longer, length-append xs ys);
  front = h.front ∙ ap (λ zs. zs ++ ys) g.front ∙ append_assoc (take p.sendbuf_end p.sendbuf) xs ys;
  sent = h.sent ∙ g.sent;
  writing = h.writing ∙ g.writing;
}

onward :
    (m : Mode) (p q : PeerState) (xs ys : List ℕ) {e : Exec PeerState}
    → Grows p xs q
    → Takes m ys q e
    → Takes m (xs ++ ys) p e
onward m p q xs ys g (fits r k h) = fits r k (Grows-trans p q r xs ys g h)
onward m p q xs ys g (overruns long) = overruns (omega (arith, long, g.longer, length-append xs ys))

pub consume-Takes :
    (bytes : List ℕ) (m : Mode) (p : PeerState)
    → IsPeer m p
    → Takes (mode_after m bytes) (echo m bytes) p (consume bytes p)
unfolding consume
consume-Takes [] m p h = fits p h (Grows-nil p p refl refl refl refl)
consume-Takes (c ∷ cs) m p h =
    subst
      (λ st. Takes (mode_after m (c ∷ cs)) (echo m (c ∷ cs)) p (consume_byte st c p ⟫= consume cs))
      (sym h.state)
      (go _ (consume_byte-Takes m c p h) (λ q k. consume-Takes cs (next_mode m c) q k))
  where
    rest : Mode
    rest = next_mode m c

    go :
        (e : Exec PeerState)
        → Takes rest (echo_byte m c) p e
        → ((q : PeerState)
            → IsPeer rest q
            → Takes (mode_after rest cs) (echo rest cs) q (consume cs q))
        → Takes (mode_after rest cs) (echo_byte m c ++ echo rest cs) p (e ⟫= consume cs)
    go _ (overruns long) later =
        overruns (omega (arith, long, length-append (echo_byte m c) (echo rest cs)))
    go _ (fits q k g) later = onward _ p q (echo_byte m c) (echo rest cs) g (later q k)

-- What one read comes to for a peer whose buffer holds `held`. All of the buffer goes out if it holds
-- anything, or the process has died because the output does not fit.
pub data Replies (m : Mode) (out : List ℕ) (p : PeerState) : Exec PeerState → Type 0 where
  quiet :
      (p' : PeerState)
      → IsPeer m p'
      → p'.sendbuf_end ≡ 0
      → p.sendbuf_end ≡ 0
      → out ≡ []
      → p'.sent ≡ p.sent
      → p'.writing ≡ p.writing
      → Replies m out p (done p')
  answers :
      (p' : PeerState)
      → IsPeer m p'
      → 0 < p'.sendbuf_end
      → p'.sendbuf_end ≡ p.sendbuf_end + length out
      → take p'.sendbuf_end p'.sendbuf ≡ take p.sendbuf_end p.sendbuf ++ out
      → p'.sent ≡ p.sent ++ (take p.sendbuf_end p.sendbuf ++ out)
      → p'.writing ≡ p.writing + 1
      → Replies m out p (done p')
  overrun : sendbuf_size < p.sendbuf_end + length out → Replies m out p died

nothing_of_length : (xs : List ℕ) → 0 ≡ length xs → xs ≡ []
nothing_of_length [] h = refl
nothing_of_length (x ∷ xs) h = absurd (omega arith)

reply-Replies :
    {m : Mode} {out : List ℕ} {p : PeerState} {e : Exec PeerState}
    → Takes m out p e
    → Replies m out p (e ⟫= reply true)
unfolding reply write_sendbuf
reply-Replies {m} {out} {p} (fits p' k g) = elim (Bool-cases (ltb 0 p'.sendbuf_end)) [
  | inl some_output ↦ rw some_output (
      answers
        (record p' { sent = p'.sent ++ take p'.sendbuf_end p'.sendbuf; writing = p'.writing + 1 })
        (record { state = k.state; room = k.room; within = k.within }) (ground arith) g.longer
        g.front (ap (λ xs. xs ++ take p'.sendbuf_end p'.sendbuf) g.sent ∙ ap (◌++◌ p.sent) g.front)
        (omega (arith, g.writing)))
  | inr no_output ↦
      let empty : p'.sendbuf_end ≡ 0 = ground arith in
      rw no_output (
        quiet p' k empty (omega (arith, g.longer)) (nothing_of_length out (omega (arith, g.longer)))
          g.sent g.writing)
]
reply-Replies (overruns long) = overrun long

-- A read is echoed as the framing says, behind what the buffer still holds: the reply that goes out
-- starts with all that has been in the buffer since the last completed write, which has gone out
-- before. Where that and the echo of the read have more than 1024 bytes, the assertion ends the whole
-- process. uv_write succeeds, and the peer has been sent its acknowledgement.
pub on_bytes-Replies :
    (bytes : List ℕ) (m : Mode) (p : PeerState)
    → IsPeer m p
    → Replies (mode_after m bytes) (echo m bytes) p (on_bytes true p.state bytes p)
unfolding on_bytes
on_bytes-Replies bytes outside p h =
    subst
      (λ st. Replies (mode_after outside bytes) (echo outside bytes) p (on_bytes true st bytes p))
      (sym h.state) (reply-Replies (consume-Takes bytes outside p h))
on_bytes-Replies bytes inside p h =
    subst (λ st. Replies (mode_after inside bytes) (echo inside bytes) p (on_bytes true st bytes p))
      (sym h.state) (reply-Replies (consume-Takes bytes inside p h))
