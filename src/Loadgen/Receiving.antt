-- ===== src/Loadgen/Receiving.antt =====
-- What `recv_exact` leaves in its array and in the stream.
use concurrent_servers.Prelude.{
  ℕ, ◌+◌, ◌-◌, ◌≤◌, ◌<◌, ◌^◌, ◌≡◌, ◌≢◌, refl, sym, ap, ◌∙◌, inl, inr, List, [], ◌∷◌, ◌++◌, false,
  arith, ltb, leb, Bool-cases, length, take, drop, splice, length-append, length-take, length-drop,
  ltb→lt, leb→le, subst, length-splice, take-splice_next, take-append_left, take-append_right,
  drop-append_left, drop-append_right, append-nil, append_assoc,
}
use concurrent_servers.Sys.{RecvResult, received, recv_failed, add_u64, is_eintr}
use concurrent_servers.Sys.Streams.{stream, pending, fate}
use concurrent_servers.Loadgen.{
  got_all, recv_error, recv_blocked, RecvEnd, recv_bytes, recv_exact_from, recv_exact,
}

-- `k` bytes were wanted behind `past`, which stands in the array already: they have been taken off the
-- stream; or the stream is too short for them, and has ended or may go on.
pub data Receives (recvs : List RecvResult) (past : List ℕ) (k len size : ℕ) (e : RecvEnd)
    : Type 0 where
  got_them :
      e.status ≡ got_all
      → k ≤ length (stream recvs)
      → take len e.buf ≡ past ++ take k (stream recvs)
      → stream e.recvs ≡ drop k (stream recvs)
      → fate e.recvs ≡ fate recvs
      → length e.buf ≡ size
      → Receives recvs past k len size e
  failed :
      e.status ≡ recv_error
      → length (stream recvs) < k
      → fate recvs ≢ pending
      → Receives recvs past k len size e
  waits :
      e.status ≡ recv_blocked
      → length (stream recvs) < k
      → fate recvs ≡ pending
      → Receives recvs past k len size e

stream-received :
    (xs : List ℕ) (recvs : List RecvResult)
    → 0 < length xs
    → (stream (received xs ∷ recvs) ≡ xs ++ stream recvs)
      × (fate (received xs ∷ recvs) ≡ fate recvs)
unfolding stream fate
stream-received [] recvs h = absurd (omega arith)
stream-received (x ∷ xs) recvs h = (refl, refl)

full-Receives :
    (recvs : List RecvResult) (buf : List ℕ) (got len : ℕ)
    → got ≤ len
    → ltb got len ≡ false
    → Receives recvs
        (take got buf)
        (len - got)
        len
        (length buf)
        (record { status = got_all; recvs = recvs; buf = buf })
full-Receives recvs buf got len h full =
    let none_left : len - got ≡ 0 = ground arith in
    got_them refl (omega (arith, none_left))
      (ap (λ n. take n buf) {x = len} {y = got} (ground arith)
        ∙ sym (append-nil (take got buf))
        ∙ ap (λ n. take got buf ++ take n (stream recvs)) (sym none_left))
      (ap (λ n. drop n (stream recvs)) (sym none_left)) refl refl

-- What is received depends on the stream alone.
same_stream :
    (recvs recvs' : List RecvResult) (past : List ℕ) (k len size : ℕ) {r : RecvEnd}
    → stream recvs' ≡ stream recvs
    → fate recvs' ≡ fate recvs
    → Receives recvs past k len size r
    → Receives recvs' past k len size r
same_stream recvs recvs' past k len size e f (got_them st enough front rest fate' size') =
    got_them st (rw e enough) (rw e front) (rw e rest) (rw f fate') size'
same_stream recvs recvs' past k len size e f (failed st short ended) =
    failed st (rw e short) (rw f ended)
same_stream recvs recvs' past k len size e f (waits st short open_end) =
    waits st (rw e short) (rw f open_end)

-- `bytes` come in before the rest.
behind :
    (recvs : List RecvResult) (bytes past : List ℕ) (k len size : ℕ) {r : RecvEnd}
    → 0 < length bytes
    → Receives recvs (past ++ bytes) k len size r
    → Receives (received bytes ∷ recvs) past (length bytes + k) len size r
behind recvs bytes past k len size some_bytes (got_them st enough front rest fate' size') =
    let (s, f) = stream-received bytes recvs some_bytes in
    got_them st (rw s (omega (arith, enough, length-append bytes (stream recvs))))
      (front
        ∙ append_assoc past bytes (take k (stream recvs))
        ∙ rw s (ap (◌++◌ past) (sym (take-append_right k bytes (stream recvs)))))
      (rest ∙ rw s (sym (drop-append_right k bytes (stream recvs)))) (fate' ∙ sym f) size'
behind recvs bytes past k len size some_bytes (failed st short ended) =
    let (s, f) = stream-received bytes recvs some_bytes in
    failed st (rw s (omega (arith, short, length-append bytes (stream recvs)))) (rw f ended)
behind recvs bytes past k len size some_bytes (waits st short open_end) =
    let (s, f) = stream-received bytes recvs some_bytes in
    waits st (rw s (omega (arith, short, length-append bytes (stream recvs)))) (rw f open_end)

-- More bytes are offered than are wanted: the others stay in the stream.
cut-Receives :
    (recvs : List RecvResult) (bytes buf : List ℕ) (got len : ℕ)
    → len ≤ length buf
    → got ≤ len
    → len - got < length bytes
    → Receives (received bytes ∷ recvs) (take got buf) (len - got) len (length buf) (record {
      status = got_all;
      recvs = received (drop (len - got) bytes) ∷ recvs;
      buf = splice buf got (take (len - got) bytes);
    })
cut-Receives recvs bytes buf got len room h more =
    let (s, f) = stream-received bytes recvs (omega arith) in
    let (s', f') =
      stream-received (drop (len - got) bytes) recvs
        (omega (arith, length-drop (len - got) bytes)) in
    got_them refl (rw s (omega (arith, length-append bytes (stream recvs))))
      (take-splice_next got len buf (take (len - got) bytes)
          (omega (arith, length-take (len - got) bytes)) room
        ∙ rw s (
            ap (◌++◌ (take got buf))
              (sym (take-append_left (len - got) bytes (stream recvs) (omega arith)))))
      (s' ∙ rw s (sym (drop-append_left (len - got) bytes (stream recvs) (omega arith))))
      (f' ∙ sym f) (length-splice buf got (take (len - got) bytes))

recv_bytes-Receives :
    (b : ℕ) (bs : List ℕ) (recvs : List RecvResult) (buf : List ℕ) (got len : ℕ) (later : RecvEnd)
    → len ≤ length buf
    → got ≤ len
    → (length (b ∷ bs) ≤ len - got
        → Receives (received (b ∷ bs) ∷ recvs) (take got buf) (len - got) len (length buf) later)
    → Receives
        (received (b ∷ bs) ∷ recvs)
        (take got buf)
        (len - got)
        len
        (length buf)
        (recv_bytes (b ∷ bs) recvs buf got len later)
unfolding recv_bytes
recv_bytes-Receives b bs recvs buf got len later room h rest =
    elim (Bool-cases (leb (length (b ∷ bs)) (len - got))) [
      | inl whole ↦ rw whole (rest (leb→le _ _ whole))
      | inr cut ↦ rw cut (cut-Receives recvs (b ∷ bs) buf got len room h (ground arith))
    ]

-- The array behind a recv that was wanted whole, and the rest of the loop.
whole-Receives :
    (recvs : List RecvResult) (bytes buf : List ℕ) (got len : ℕ) {r : RecvEnd}
    → len ≤ length buf
    → 0 < length bytes
    → got + length bytes ≤ len
    → Receives recvs
        (take (got + length bytes) (splice buf got bytes))
        (len - (got + length bytes))
        len
        (length (splice buf got bytes))
        r
    → Receives (received bytes ∷ recvs) (take got buf) (len - got) len (length buf) r
whole-Receives recvs bytes buf got len {r} room some_bytes fit h =
    subst (λ k. Receives (received bytes ∷ recvs) (take got buf) k len (length buf) r)
      {x = length bytes + (len - (got + length bytes))} {y = len - got} (omega arith)
      (behind recvs bytes (take got buf) (len - (got + length bytes)) len (length buf) some_bytes (
        subst
          (λ size. Receives recvs (take got buf ++ bytes) (len - (got + length bytes)) len size r)
          (length-splice buf got bytes)
          (subst
            (λ past.
              Receives recvs past (len - (got + length bytes)) len (length (splice buf got bytes))
                r)
            (take-splice_next got (got + length bytes) buf bytes refl (omega arith)) h)))

module _ (len : ℕ) (small : len < 2 ^ 63) where
  recv_exact_from-Receives :
      (recvs : List RecvResult) (buf : List ℕ) (got : ℕ)
      → len ≤ length buf
      → got ≤ len
      → Receives recvs
          (take got buf)
          (len - got)
          len
          (length buf)
          (recv_exact_from recvs buf got len)
  unfolding recv_exact_from stream fate recv_bytes
  recv_exact_from-Receives [] buf got room h = elim (Bool-cases (ltb got len)) [
    | inl more ↦ rw more (waits refl (ground arith) refl)
    | inr full ↦ rw full (full-Receives [] buf got len h full)
  ]
  recv_exact_from-Receives (recv_failed e ∷ recvs) buf got room h =
      elim (Bool-cases (ltb got len)) [
        | inr full ↦ rw full (full-Receives (recv_failed e ∷ recvs) buf got len h full)
        | inl more ↦ elim (Bool-cases (is_eintr e)) [
          | inl again ↦
              rw (more, again)
                (same_stream recvs (recv_failed e ∷ recvs) _ _ _ _ (rw again refl) (rw again refl)
                  (recv_exact_from-Receives recvs buf got room h))
          | inr fatal ↦
              rw (more, fatal)
                (failed refl (rw fatal (omega (arith, ltb→lt got len more))) (rw fatal (λ q. cc)))
        ]
      ]
  recv_exact_from-Receives (received [] ∷ recvs) buf got room h = elim (Bool-cases (ltb got len)) [
    | inr full ↦ rw full (full-Receives (received [] ∷ recvs) buf got len h full)
    | inl more ↦ rw (more, recv_bytes) (failed refl (omega (arith, ltb→lt got len more)) (λ q. cc))
  ]
  recv_exact_from-Receives (received (b ∷ bs) ∷ recvs) buf got room h =
      elim (Bool-cases (ltb got len)) [
        | inr full ↦ rw full (full-Receives (received (b ∷ bs) ∷ recvs) buf got len h full)
        | inl more ↦ rw more (
            recv_bytes-Receives b bs recvs buf got len _ room h (λ whole.
              let no_wrap : add_u64 got (length (b ∷ bs)) ≡ got + length (b ∷ bs) = omega arith in
              rw no_wrap (
                whole-Receives recvs (b ∷ bs) buf got len room (omega arith)
                  (omega (arith, ltb→lt got len more))
                  (recv_exact_from-Receives recvs (splice buf got (b ∷ bs)) (got + length (b ∷ bs))
                    (omega (arith, length-splice buf got (b ∷ bs)))
                    (omega (arith, ltb→lt got len more))))))
      ]

-- However the bytes come in pieces and whatever interrupts them, `recv_exact` takes exactly `len` bytes
-- off the stream, in order and into the front of the array, which has room for them; or the stream is
-- shorter, and it fails if the stream has ended and is blocked if not.
pub recv_exact-Receives :
    (recvs : List RecvResult) (buf : List ℕ) (len : ℕ)
    → len < 2 ^ 63
    → len ≤ length buf
    → Receives recvs [] len len (length buf) (recv_exact recvs buf len)
unfolding recv_exact
recv_exact-Receives recvs buf len small room =
    subst (λ k. Receives recvs [] k len (length buf) (recv_exact_from recvs buf 0 len))
      {x = len - 0} {y = len} (omega arith)
      (recv_exact_from-Receives len small recvs buf 0 room (omega arith))
