-- ===== src/Protocol/Scanning.antt =====
-- The transformation in place writes behind the byte that it reads, and computes the echo.
use concurrent_servers.Prelude.{
  ℕ, suc, ◌+◌, ◌≤◌, ◌<◌, ◌^◌, ◌≡◌, refl, sym, ap, ◌∙◌, inl, inr, List, [], ◌∷◌, ◌++◌, Option, some,
  ◌>>=◌, arith, ◌==◌, Bool-cases, length, take, drop, set, write_at, length-set, length-drop,
  take-set_next, drop-set_of_lt, get_elem?-of_drop, append-nil, append_assoc,
}
use native.Mathlib.Numerals.{add-one}
use concurrent_servers.Sys.{add_u64}
use concurrent_servers.Framing.{
  Mode, outside, inside, dollar, caret, bump, next_mode, echo_byte, mode_after, echo,
}
use concurrent_servers.Protocol.{Scan, scan_byte, scan}

-- The loop before round `i`: `done` has been read, and `rest` is still to be read.
pub record Scanning (len i : ℕ) (rest out : List ℕ) (s : Scan) : Type 0 where
  pub behind : s.nsend ≤ i
  pub unread : drop i s.recvbuf ≡ rest
  pub size : length s.recvbuf ≡ len
  pub echoed : take s.nsend s.recvbuf ≡ out
  pub small : len < 2 ^ 63
  pub fits : s.nsend ≤ len

module _ {len i : ℕ} {rest out : List ℕ} (c : ℕ) (s : Scan)
    (h : Scanning len i (c ∷ rest) out s) where
  in_range : i < len
  in_range = omega (arith, ap length h.unread, length-drop i s.recvbuf, h.size)

  -- A byte that is not echoed.
  read_only : (m : Mode) → Scanning len (suc i) rest (out ++ []) (record s { state = m })
  read_only m = record {
    behind = omega (arith, h.behind);
    unread = (get_elem?-of_drop i s.recvbuf h.unread).1;
    size = h.size;
    echoed = h.echoed ∙ sym (append-nil out);
    small = h.small;
    fits = h.fits;
  }

  -- A byte whose echo `v` is stored at `nsend`.
  read_and_store :
      (v : ℕ)
      → Scanning len
          (suc i)
          rest
          (out ++ (v ∷ []))
          (record s { recvbuf = set s.recvbuf s.nsend v; nsend = add_u64 s.nsend 1 })
  read_and_store v = record {
    behind = omega (arith, h.behind, no_wrap);
    unread =
        drop-set_of_lt (suc i) s.nsend s.recvbuf v (omega (arith, h.behind))
        ∙ (get_elem?-of_drop i s.recvbuf h.unread).1;
    size = length-set s.recvbuf s.nsend v ∙ h.size;
    echoed =
        ap (λ n. take n (set s.recvbuf s.nsend v)) no_wrap
        ∙ take-set_next s.nsend s.recvbuf v (omega (arith, h.behind, h.size, in_range))
        ∙ ap (λ xs. xs ++ (v ∷ [])) h.echoed;
    small = h.small;
    fits = omega (arith, h.behind, in_range, no_wrap);
  }
    where
      no_wrap : add_u64 s.nsend 1 ≡ suc s.nsend
      no_wrap = omega (arith, h.behind, h.small, in_range)

  stored : (v : ℕ) → write_at s.recvbuf s.nsend v ≡ some (set s.recvbuf s.nsend v)
  stored v = ground (arith, h.behind, h.size, in_range)

-- One round: the byte is read, and its echo is stored behind it.
scan_byte_lem :
    {len i : ℕ} {rest out : List ℕ} (m : Mode) (c : ℕ) (s : Scan)
    → Scanning len i (c ∷ rest) out s
    → s.state ≡ m
    → (s' : Scan) × (scan_byte m c s ≡ some s')
      × (s'.state ≡ next_mode m c)
      × Scanning len (suc i) rest (out ++ echo_byte m c) s'
unfolding scan_byte
scan_byte_lem outside c s h e = elim (Bool-cases (c == caret)) [
  | inl opens ↦ (record s { state = inside }, rw opens, rw opens, read_only c s h inside)
  | inr noise ↦ (s, rw noise, rw noise e, read_only c s h s.state)
]
scan_byte_lem inside c s h e = elim (Bool-cases (c == dollar)) [
  | inl closes ↦
      (record s { state = outside }, rw closes, rw closes, rw closes (read_only c s h outside))
  | inr payload ↦ (
    record s { recvbuf = set s.recvbuf s.nsend (bump c); nsend = add_u64 s.nsend 1 },
    rw (payload, stored c s h (bump c), ◌>>=◌),
    rw payload e,
    rw payload (read_and_store c s h (bump c)),
  )
]

-- What the loop leaves when it has read `rest` from mode `m`, having echoed `out` before.
pub record Scanned (rest out : List ℕ) (m : Mode) (answer : Option Scan) : Type 0 where
  pub last : Scan
  pub finished : answer ≡ some last
  pub mode : last.state ≡ mode_after m rest
  pub echoed : take last.nsend last.recvbuf ≡ out ++ echo m rest
  pub fits : last.nsend ≤ length last.recvbuf
  pub size : length last.recvbuf < 2 ^ 63

scan-Scanned :
    {len : ℕ} (rest : List ℕ) (i : ℕ) (out : List ℕ) (s : Scan)
    → Scanning len i rest out s
    → Scanned rest out s.state (scan (length rest) i s)
unfolding scan
scan-Scanned [] i out s h = record {
  last = s;
  finished = refl;
  mode = refl;
  echoed = h.echoed ∙ sym (append-nil out);
  fits = omega (arith, h.fits, h.size);
  size = omega (arith, h.size, h.small);
}
scan-Scanned {len} (c ∷ rest) i out s h =
    let (s', scanned, mode, h') = scan_byte_lem s.state c s h refl in
    let next : Scanning len (i + 1) rest (out ++ echo_byte s.state c) s' = rw add-one h' in
    let r = scan-Scanned rest (i + 1) (out ++ echo_byte s.state c) s' next in
    record {
      last = r.last;
      finished =
          rw ((get_elem?-of_drop i s.recvbuf h.unread).0, ◌>>=◌) (rw (scanned, ◌>>=◌) r.finished);
      mode = r.mode ∙ ap (λ m. mode_after m rest) mode;
      echoed =
          r.echoed
          ∙ append_assoc out (echo_byte s.state c) (echo s'.state rest)
          ∙ ap (λ m. out ++ (echo_byte s.state c ++ echo m rest)) mode;
      fits = r.fits;
      size = r.size;
    }

-- Transformed in place, a received buffer holds the echo of its bytes at its front; no access is out
-- of bounds, and the parser is left in the mode that follows the bytes. The buffer is shorter than
-- 2 ^ 63 bytes.
pub scan_in_place :
    (bytes : List ℕ) (m : Mode)
    → length bytes < 2 ^ 63
    → Scanned bytes [] m (scan (length bytes) 0 (record { state = m; nsend = 0; recvbuf = bytes }))
scan_in_place bytes m small =
    scan-Scanned bytes 0 [] (record { state = m; nsend = 0; recvbuf = bytes })
      (record {
        behind = omega arith;
        unread = refl;
        size = refl;
        echoed = refl;
        small = small;
        fits = omega arith;
      })
