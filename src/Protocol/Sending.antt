-- ===== src/Protocol/Sending.antt =====
-- What `send_all` puts on the wire.
use concurrent_servers.Prelude.{
  ℕ, zero, suc, ◌+◌, ◌≤◌, ◌<◌, ◌^◌, ◌≡◌, ◌≢◌, refl, sym, ap, ◌∙◌, inl, inr, true, false, List, [],
  ◌∷◌, ◌++◌, arith, ltb, if◌then◌else◌, Bool-cases, length, take, drop, All, append-nil,
  append_assoc, length-drop, drop-drop, drop_all, take-add, take-append-drop, ltb→lt,
}
use concurrent_servers.Sys.{Errno, SendResult, wrote, send_failed, add_u64, is_eintr}
use concurrent_servers.Protocol.{
  SendStatus, all_sent, send_error, send_blocked, SendEnd, send_all_from, send_all,
}

-- What send returns is an ssize_t.
abbrev pub IsSsize : SendResult → Type 0
IsSsize (wrote n) = n < 2 ^ 63
IsSsize (send_failed e) = Unit

-- The number of sends that take at least a byte, up to the first that fails for good.
abbrev pub progress : List SendResult → ℕ
progress [] = 0
progress (wrote zero ∷ sends) = progress sends
progress (wrote (suc n) ∷ sends) = suc (progress sends)
progress (send_failed e ∷ sends) = if is_eintr e then progress sends else 0

-- How a call that has `rest` still to send can end, with `wire` sent before: all of `rest` has been
-- sent in order, or a proper prefix of it and the call failed or is blocked. It uses up no more of
-- the kernel's progress than there are bytes.
pub record Sends (sends : List SendResult) (rest wire : List ℕ) (e : SendEnd) : Type 0 where
  pub taken : ℕ
  pub in_order : e.wire ≡ wire ++ take taken rest
  pub whole : e.status ≡ all_sent → e.wire ≡ wire ++ rest
  pub short : e.status ≢ all_sent → taken < length rest
  pub no_retry : (x : Errno) → e.status ≡ send_error x → is_eintr x ≡ false
  pub spent : e.status ≡ all_sent → progress sends ≤ progress e.sends + length rest
  pub starved : e.status ≢ all_sent → progress sends ≤ taken
  pub honest : All IsSsize e.sends

-- Nothing is left to send.
nothing_left :
    (sends : List SendResult) (buf : List ℕ) (sent : ℕ) (wire : List ℕ)
    → All IsSsize sends
    → ltb sent (length buf) ≡ false
    → Sends sends (drop sent buf) wire (record { status = all_sent; sends = sends; wire = wire })
nothing_left sends buf sent wire h done = record {
  taken = 0;
  in_order = sym (append-nil wire);
  whole = λ _. rw (drop_all sent buf (ground arith)) (sym (append-nil wire));
  short = λ ne. absurd (ne refl);
  no_retry = λ x e. cc;
  spent = λ _. omega arith;
  starved = λ ne. absurd (ne refl);
  honest = h;
}

-- The call ends while something is left to send.
cut_short :
    (before : List SendResult) (status : SendStatus) (sends : List SendResult) (buf : List ℕ)
    (sent : ℕ) (wire : List ℕ)
    → progress before ≡ 0
    → All IsSsize sends
    → ltb sent (length buf) ≡ true
    → status ≢ all_sent
    → ((x : Errno) → status ≡ send_error x → is_eintr x ≡ false)
    → Sends before (drop sent buf) wire (record { status = status; sends = sends; wire = wire })
cut_short before status sends buf sent wire none h more ne no_retry = record {
  taken = 0;
  in_order = sym (append-nil wire);
  whole = λ e. absurd (ne e);
  short = λ _. omega (arith, length-drop sent buf, ltb→lt sent (length buf) more);
  no_retry = no_retry;
  spent = λ e. absurd (ne e);
  starved = λ _. omega (arith, none);
  honest = h;
}

progress-wrote :
    (n : ℕ) (sends : List SendResult)
    → (progress (wrote n ∷ sends) ≤ n + progress sends)
      × (progress (wrote n ∷ sends) ≤ 1 + progress sends)
progress-wrote zero sends = omega arith
progress-wrote (suc n) sends = omega arith

-- A send of `n` bytes, and then the rest of the call.
one_more :
    (n : ℕ) (sends : List SendResult) (rest wire : List ℕ) (e : SendEnd)
    → 0 < length rest
    → Sends sends (drop n rest) (wire ++ take n rest) e
    → Sends (wrote n ∷ sends) rest wire e
one_more n sends rest wire e some_rest s = record {
  taken = n + s.taken;
  in_order =
      s.in_order
      ∙ append_assoc wire (take n rest) (take s.taken (drop n rest))
      ∙ ap (◌++◌ wire) (take-add n s.taken rest);
  whole = λ all.
      s.whole all
      ∙ append_assoc wire (take n rest) (drop n rest)
      ∙ ap (◌++◌ wire) (take-append-drop n rest);
  short = λ ne. omega (arith, s.short ne, length-drop n rest);
  no_retry = s.no_retry;
  spent = λ all. omega (arith, s.spent all, length-drop n rest, progress-wrote n sends);
  starved = λ ne. omega (arith, s.starved ne, progress-wrote n sends);
  honest = s.honest;
}

retried :
    (x : Errno) (sends : List SendResult) (rest wire : List ℕ) {e : SendEnd}
    → is_eintr x ≡ true
    → Sends sends rest wire e
    → Sends (send_failed x ∷ sends) rest wire e
retried x sends rest wire again s = record {
  taken = s.taken;
  in_order = s.in_order;
  whole = s.whole;
  short = s.short;
  no_retry = s.no_retry;
  spent = λ all. rw again (s.spent all);
  starved = λ ne. rw again (s.starved ne);
  honest = s.honest;
}

send_all_from-Sends :
    (sends : List SendResult) (buf : List ℕ) (sent : ℕ) (wire : List ℕ)
    → All IsSsize sends
    → length buf < 2 ^ 63
    → Sends sends (drop sent buf) wire (send_all_from sends buf sent wire)
unfolding send_all_from
send_all_from-Sends [] buf sent wire h small = elim (Bool-cases (ltb sent (length buf))) [
  | inl more ↦
      rw more (cut_short [] send_blocked [] buf sent wire refl tt more (λ e. cc) (λ x e. cc))
  | inr done ↦ rw done (nothing_left [] buf sent wire tt done)
]
send_all_from-Sends (wrote n ∷ sends) buf sent wire h small =
    elim (Bool-cases (ltb sent (length buf))) [
      | inl more ↦
          let no_wrap : add_u64 sent n ≡ sent + n =
            omega (arith, h.0, ltb→lt sent (length buf) more) in
          rw (more, no_wrap)
            (one_more n sends (drop sent buf) wire _
              (omega (arith, length-drop sent buf, ltb→lt sent (length buf) more))
              (rw (drop-drop n sent buf) (send_all_from-Sends sends buf (sent + n) _ h.1 small)))
      | inr done ↦ rw done (nothing_left (wrote n ∷ sends) buf sent wire h done)
    ]
send_all_from-Sends (send_failed e ∷ sends) buf sent wire h small =
    elim (Bool-cases (ltb sent (length buf))) [
      | inl more ↦ elim (Bool-cases (is_eintr e)) [
        | inl again ↦
            rw (more, again)
              (retried e sends (drop sent buf) wire again
                (send_all_from-Sends sends buf sent wire h.1 small))
        | inr fatal ↦
            rw (more, fatal)
              (cut_short (send_failed e ∷ sends) (send_error e) sends buf sent wire (rw fatal refl)
                h.1 more (λ c. cc) (λ x c. ground arith))
      ]
      | inr done ↦ rw done (nothing_left (send_failed e ∷ sends) buf sent wire h done)
    ]

-- However the kernel splits the writes and interrupts them, `send_all` puts the buffer on the wire
-- in order: all of it when it succeeds, and a proper prefix when it fails or is still blocked. It
-- fails for no interrupted call. Each result of send fits an ssize_t, and so does the length.
pub send_all-Sends :
    (sends : List SendResult) (buf wire : List ℕ)
    → All IsSsize sends
    → length buf < 2 ^ 63
    → Sends sends buf wire (send_all sends buf wire)
unfolding send_all
send_all-Sends sends buf wire h small = send_all_from-Sends sends buf 0 wire h small

-- `send_all` returns with success if the kernel's sends take a byte at least as often as the buffer is
-- long before one fails for good, whatever interrupts it in between. The buffer is shorter than 2 ^ 63
-- bytes, and the counts that send reports fit an ssize_t.
pub send_all-finishes :
    (sends : List SendResult) (buf wire : List ℕ)
    → All IsSsize sends
    → length buf < 2 ^ 63
    → length buf ≤ progress sends
    → (send_all sends buf wire).status ≡ all_sent
send_all-finishes sends buf wire h small p = by_status (send_all sends buf wire).status refl
  where
    s : Sends sends buf wire (send_all sends buf wire)
    s = send_all-Sends sends buf wire h small

    by_status :
        (st : SendStatus)
        → (send_all sends buf wire).status ≡ st
        → (send_all sends buf wire).status ≡ all_sent
    by_status all_sent e = e
    by_status (send_error x) e = absurd (omega (arith, s.short (λ q. cc), s.starved (λ q. cc)))
    by_status send_blocked e = absurd (omega (arith, s.short (λ q. cc), s.starved (λ q. cc)))
