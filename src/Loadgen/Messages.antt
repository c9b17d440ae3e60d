-- ===== src/Loadgen/Messages.antt =====
-- What the messages of one connection come to.
use concurrent_servers.Prelude.{
  ℕ, zero, suc, ◌+◌, ◌≤◌, ◌<◌, ◌≡◌, ◌≢◌, refl, sym, ap, ap₂, ◌∙◌, ◌⊎◌, inl, inr, List, [], ◌∷◌,
  ◌++◌, true, arith, if◌then◌else◌, Bool-cases, length, take, drop, length-append, length-take,
  length-drop, take-add, append_assoc,
}
use concurrent_servers.Sys.Streams.{stream}
use concurrent_servers.Framing.{outside, echo, echo-append}
use concurrent_servers.Protocol.{all_sent, SendEnd}
use concurrent_servers.Protocol.Sending.{Sends, progress}
use concurrent_servers.Loadgen.{RecvEnd, Frames, Ctx, same_bytes, ThreadEnd, returns, blocks}
use concurrent_servers.Loadgen.Framed.{frame, Framed, echo-frame}

-- `m` requests, and the number of bytes of their answers.
unfoldable pub frames : ℕ → ℕ → List ℕ
frames zero n = []
frames (suc m) n = frame n ++ frames m n

unfoldable pub answer_bytes : ℕ → ℕ → ℕ
answer_bytes zero n = 0
answer_bytes (suc m) n = n + answer_bytes m n

pub same_bytes→eq : (xs ys : List ℕ) → same_bytes xs ys ≡ true → xs ≡ ys
same_bytes→eq [] [] h = refl
same_bytes→eq [] (y ∷ ys) h = cc
same_bytes→eq (x ∷ xs) [] h = cc
same_bytes→eq (x ∷ xs) (y ∷ ys) h = ground (arith, same_bytes→eq xs ys)

pub same_bytes_self : (xs : List ℕ) → same_bytes xs xs ≡ true
same_bytes_self [] = refl
same_bytes_self (x ∷ xs) = ground (arith, same_bytes_self xs)

append_parts :
    (xs ys us vs : List ℕ) → length xs ≡ length ys → xs ++ us ≡ ys ++ vs → (xs ≡ ys) × (us ≡ vs)
append_parts [] [] us vs h e = (refl, e)
append_parts [] (y ∷ ys) us vs h e = absurd (omega arith)
append_parts (x ∷ xs) [] us vs h e = absurd (omega arith)
append_parts (x ∷ xs) (y ∷ ys) us vs h e =
    let tails = append_parts xs ys us vs (omega arith) in ground (arith, tails)

-- The kernel's sends make too little progress for the requests, or the stream is too short for the
-- answers.
abbrev pub Wants : ℕ → ℕ → Ctx → Type 0
Wants m n c =
    (progress c.sends < length (frames m n)) ⊎ (length (stream c.recvs) < answer_bytes m n)

-- The answers are what the framing says, and no mismatch is counted; or they are not, and some are.
abbrev pub Judges : ℕ → ℕ → Ctx → Ctx → Type 0
Judges m n c c' =
    ((take (answer_bytes m n) (stream c.recvs) ≡ echo outside (frames m n))
      × (c'.mismatches ≡ c.mismatches))
    ⊎ ((take (answer_bytes m n) (stream c.recvs) ≢ echo outside (frames m n))
        × (c.mismatches < c'.mismatches))

-- How `m` messages of `n` bytes go, from `c` on.
pub data Ran (m n : ℕ) (c : Ctx) : ThreadEnd × Ctx → Type 0 where
  answered :
      (c' : Ctx)
      → c'.completed ≡ c.completed + m
      → c'.errors ≡ c.errors
      → c'.wire ≡ c.wire ++ frames m n
      → answer_bytes m n ≤ length (stream c.recvs)
      → Judges m n c c'
      → Ran m n c (returns, c')
  broke : (c' : Ctx) → c'.errors ≡ c.errors + 1 → Wants m n c → Ran m n c (returns, c')
  stuck : (c' : Ctx) → Wants m n c → Ran m n c (blocks, c')

length-echo-frame :
    (n : ℕ) (a : Frames) → Framed n a → n ≤ length a.expected → length (echo outside (frame n)) ≡ n
length-echo-frame n a f h = omega (arith, ap length f.answer, length-take n a.expected)

echo-frames :
    (m n : ℕ)
    → echo outside (frames (suc m) n) ≡ echo outside (frame n) ++ echo outside (frames m n)
unfolding frames
echo-frames m n =
    echo-append outside (frame n) (frames m n)
    ∙ ap (λ k. echo outside (frame n) ++ echo k (frames m n)) (echo-frame n).1

-- One round, after which `m` messages are left.
module _ (m n : ℕ) (a : Frames) (f : Framed n a) (room_e : n ≤ length a.expected) (c : Ctx)
    (s : SendEnd) (sent : Sends c.sends (frame n) c.wire s) (all : s.status ≡ all_sent)
    (r : RecvEnd) (enough : n ≤ length (stream c.recvs))
    (front : take n r.buf ≡ take n (stream c.recvs))
    (rest : stream r.recvs ≡ drop n (stream c.recvs)) where
  abbrev pub after : Ctx
  after = record c {
    sends = s.sends;
    wire = s.wire;
    recvs = r.recvs;
    mismatches =
        if same_bytes (take n r.buf) (take n a.expected) then c.mismatches else c.mismatches + 1;
    completed = c.completed + 1;
  }

  parts :
      take (n + answer_bytes m n) (stream c.recvs)
      ≡ take n (stream c.recvs) ++ take (answer_bytes m n) (stream r.recvs)
  parts =
      sym (take-add n (answer_bytes m n) (stream c.recvs))
      ∙ ap (λ xs. take n (stream c.recvs) ++ take (answer_bytes m n) xs) (sym rest)

  split :
      take (n + answer_bytes m n) (stream c.recvs) ≡ echo outside (frames (suc m) n)
      → (take n (stream c.recvs) ≡ echo outside (frame n))
        × (take (answer_bytes m n) (stream r.recvs) ≡ echo outside (frames m n))
  split e =
      append_parts (take n (stream c.recvs)) (echo outside (frame n)) _ _
        (omega (arith, length-take n (stream c.recvs), length-echo-frame n a f room_e))
        (sym parts ∙ e ∙ echo-frames m n)

  judge : (c' : Ctx) → Judges m n after c' → Judges (suc m) n c c'
  unfolding answer_bytes
  judge c' j = elim (Bool-cases (same_bytes (take n r.buf) (take n a.expected))) [
    | inl same ↦
        let good : take n (stream c.recvs) ≡ echo outside (frame n) =
          sym front ∙ same_bytes→eq (take n r.buf) (take n a.expected) same ∙ f.answer in
        let kept : after.mismatches ≡ c.mismatches = rw same refl in
        elim j [
          | inl (e, none_more) ↦
              inl (parts ∙ ap₂ ◌++◌ good e ∙ sym (echo-frames m n), none_more ∙ kept)
          | inr (ne, more) ↦ inr (λ e. ne (split e).1, omega (arith, more, kept))
        ]
    | inr differs ↦
        let counted : after.mismatches ≡ c.mismatches + 1 = rw differs refl in
        let bad : take (n + answer_bytes m n) (stream c.recvs) ≢ echo outside (frames (suc m) n) =
          λ e.
            let equal : take n r.buf ≡ take n a.expected = front ∙ (split e).0 ∙ sym f.answer in
            let same : same_bytes (take n r.buf) (take n a.expected) ≡ true =
              rw equal (same_bytes_self (take n a.expected)) in
            cc (same, differs) in
        elim j [
          | inl (e, none_more) ↦ inr (bad, omega (arith, none_more, counted))
          | inr (ne, more) ↦ inr (bad, omega (arith, more, counted))
        ]
  ]

  want : Wants m n after → Wants (suc m) n c
  unfolding frames answer_bytes
  want (inl slow) = inl (omega (arith, slow, sent.spent all, length-append (frame n) (frames m n)))
  want (inr short) =
      inr (omega (arith, short, ap length rest, length-drop n (stream c.recvs), enough))

  pub onward : {e : ThreadEnd × Ctx} → Ran m n after e → Ran (suc m) n c e
  unfolding frames answer_bytes
  onward (answered c' completed errors wire long j) =
      answered c' (omega (arith, completed)) errors
        (wire
          ∙ ap (λ w. w ++ frames m n) (sent.whole all)
          ∙ append_assoc c.wire (frame n) (frames m n))
        (omega (arith, long, ap length rest, length-drop n (stream c.recvs), enough)) (judge c' j)
  onward (broke c' errors w) = broke c' errors (want w)
  onward (stuck c' w) = stuck c' (want w)
