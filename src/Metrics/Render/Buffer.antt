-- ===== src/Metrics/Render/Buffer.antt =====
-- What `metrics_render` leaves in the caller's buffer, whatever its size.
use concurrent_servers.Prelude.{
  ℕ, ◌+◌, ◌-◌, ◌≤◌, ◌<◌, ◌^◌, ◌≡◌, refl, sym, ap, ◌∙◌, inl, inr, true, false, List, [], ◌∷◌, ◌++◌,
  Option, none, some, arith, ◌==◌, ◌&&◌, ltb, leb, subst, if◌then◌else◌, Bool-cases, min, length,
  take, get_elem?, set, splice, All, length-append, length-take, length-splice, take-append,
  take_all, take-splice_next, splice-append, take-set_of_le, get_elem?-set_self, append-nil,
  append_assoc,
}
use concurrent_servers.Sys.{add_u64}
use concurrent_servers.Metrics.{Registry, model_label}
use concurrent_servers.Metrics.Render.Size.{IsLine, lines-IsLine, length-body-le, length-body-pos}
use concurrent_servers.Metrics.Render.{Out, appendf, render_all, metrics_render}
use concurrent_servers.Metrics.Render.Body.{lines, join, body, append_all, render_all-lines}

-- The buffer of `o` shows `text`, cut so that a NUL fits behind it.
record Shows (o : Out) (text : List ℕ) : Type 0 where
  room : o.cap ≤ length o.buf
  counted : o.len ≡ length text
  front : take (min (length text) (o.cap - 1)) o.buf ≡ take (o.cap - 1) text
  closed : 0 < o.cap → 0 < length text → get_elem? o.buf (min (length text) (o.cap - 1)) ≡ some 0

-- The array behind an append that starts within the buffer: `line` is what fits.
splice_line :
    (buf text line : List ℕ) (at n : ℕ)
    → take at buf ≡ text
    → n ≡ at + length line
    → n < length buf
    → (take n (splice buf at (line ++ (0 ∷ []))) ≡ text ++ line)
      × (get_elem? (splice buf at (line ++ (0 ∷ []))) n ≡ some 0)
splice_line buf text line at n e h fits = (
  rw stored (
      take-set_of_le n n copied 0 (omega arith)
      ∙ take-splice_next at n buf line h (omega arith)
      ∙ ap (λ xs. xs ++ line) e),
  rw stored (get_elem?-set_self copied n 0 (omega (arith, length-splice buf at line))),
)
  where
    copied : List ℕ
    copied = splice buf at line

    stored : splice buf at (line ++ (0 ∷ [])) ≡ set copied n 0
    stored = splice-append buf at n line (0 ∷ []) h

module _ (line text : List ℕ) (o : Out) (small : length text + length line < 2 ^ 64) where
  no_wrap : Shows o text → add_u64 o.len (length line) ≡ length (text ++ line)
  no_wrap s = omega (arith, s.counted, length-append text line)

  -- A line that starts at or behind the end of the buffer is only counted.
  past_end :
      o.cap ≤ o.len
      → Shows o text
      → Shows (record o { len = add_u64 o.len (length line) }) (text ++ line)
  past_end full s = record {
    room = s.room;
    counted = no_wrap s;
    front = rw (index, take-append (o.cap - 1) text line, nothing_left, append-nil) s.front;
    closed = λ h _. rw index (s.closed h (omega (arith, s.counted)));
  }
    where
      index : min (length (text ++ line)) (o.cap - 1) ≡ min (length text) (o.cap - 1)
      index = omega (arith, s.counted, length-append text line)

      nothing_left : take (o.cap - 1 - length text) line ≡ []
      nothing_left =
          ap (λ k. take k line) {x = o.cap - 1 - length text} {y = 0} (omega (arith, s.counted))

  -- A line that starts within the buffer is copied as far as it fits.
  within_buffer :
      o.len < o.cap
      → Shows o text
      → Shows
          (record o {
            buf = splice o.buf o.len (take (o.cap - o.len - 1) line ++ (0 ∷ []));
            len = add_u64 o.len (length line);
          })
          (text ++ line)
  within_buffer h s = record {
    room = rw (length-splice o.buf o.len (piece ++ (0 ∷ []))) s.room;
    counted = no_wrap s;
    front = copied.0 ∙ sym cut;
    closed = λ _ _. copied.1;
  }
    where
      piece : List ℕ
      piece = take (o.cap - o.len - 1) line

      start : take o.len o.buf ≡ text
      start =
          ap (λ k. take k o.buf) {x = o.len} {y = min (length text) (o.cap - 1)}
            (omega (arith, s.counted))
          ∙ s.front
          ∙ take_all (o.cap - 1) text (omega (arith, s.counted))

      copied :
          (take (min (length (text ++ line)) (o.cap - 1)) (splice o.buf o.len (piece ++ (0 ∷ [])))
            ≡ text ++ piece)
          × (get_elem?
                (splice o.buf o.len (piece ++ (0 ∷ [])))
                (min (length (text ++ line)) (o.cap - 1))
              ≡ some 0)
      copied =
          splice_line o.buf text piece o.len _ start
            (omega
              (arith, s.counted, length-append text line, length-take (o.cap - o.len - 1) line))
            (omega (arith, s.room))

      cut : take (o.cap - 1) (text ++ line) ≡ text ++ piece
      cut =
          take-append (o.cap - 1) text line
          ∙ ap (λ xs. xs ++ take (o.cap - 1 - length text) line)
              (take_all (o.cap - 1) text (omega (arith, s.counted)))
          ∙ ap (λ k. text ++ take k line) {x = o.cap - 1 - length text} {y = o.cap - o.len - 1}
              (omega (arith, s.counted))

-- One more line of the body, within the buffer or past its end.
appendf-Shows :
    (line text : List ℕ) (o : Out)
    → 0 < length line
    → length text + length line < 2 ^ 64
    → Shows o text
    → Shows (appendf line o) (text ++ line)
unfolding appendf
appendf-Shows line text o some_line small s = elim (Bool-cases (ltb o.len o.cap)) [
  | inl fits ↦
      rw (fits, nonempty, room_left (ground arith))
        (within_buffer line text o small (ground arith) s)
  | inr full ↦ rw (full, nonempty) (past_end line text o small (ground arith) s)
]
  where
    nonempty : ltb 0 (length line) ≡ true
    nonempty = ground arith

    room_left : o.len < o.cap → (o.cap - o.len == 0) ≡ false
    room_left h = ground arith

append_all-Shows :
    (ls : List (List ℕ)) (text : List ℕ) (o : Out)
    → All IsLine ls
    → length text + length (join ls) < 2 ^ 64
    → Shows o text
    → Shows (append_all ls o) (text ++ join ls)
append_all-Shows [] text o h small s = rw append-nil s
append_all-Shows (line ∷ ls) text o h small s = rw (← append_assoc text line (join ls)) (
    append_all-Shows ls (text ++ line) (appendf line o) h.1
      (omega (arith, length-append text line, length-append line (join ls)))
      (appendf-Shows line text o h.0.0 (omega (arith, length-append line (join ls))) s))

render_all-Shows :
    (g : Registry) (buf : List ℕ) (cap : ℕ)
    → length (model_label g) ≤ 31
    → cap ≤ length buf
    → Shows (render_all g (record { buf = buf; cap = cap; len = 0 })) (body g)
unfolding body
render_all-Shows g buf cap h fits =
    rw (render_all-lines g (record { buf = buf; cap = cap; len = 0 }))
      (append_all-Shows (lines g) [] _ (lines-IsLine g h) (omega (arith, length-body-le g h)) start)
  where
    start : Shows (record { buf = buf; cap = cap; len = 0 }) []
    start = record {
      room = fits;
      counted = refl;
      front =
          ap (λ k. take k buf) {x = min 0 (cap - 1)} {y = 0} (omega arith)
          ∙ sym (take_all (cap - 1) [] (omega arith));
      closed = λ _ p. absurd (omega arith);
    }

cap-appendf : (line : List ℕ) (o : Out) → (appendf line o).cap ≡ o.cap
unfolding appendf
cap-appendf line o = ground arith

cap-append_all : (ls : List (List ℕ)) (o : Out) → (append_all ls o).cap ≡ o.cap
cap-append_all [] o = refl
cap-append_all (line ∷ ls) o = cap-append_all ls (appendf line o) ∙ cap-appendf line o

cap-render_all : (g : Registry) (o : Out) → (render_all g o).cap ≡ o.cap
cap-render_all g o = rw (render_all-lines g o) (cap-append_all (lines g) o)

-- The answer of `metrics_render` for a buffer of `cap` bytes at the head of an array.
pub record Rendered (g : Registry) (cap : ℕ) (answer : ℕ × Option (List ℕ)) : Type 0 where
  pub out : List ℕ
  pub returned : answer ≡ (length (body g), some out)
  pub front : take (min (length (body g)) (cap - 1)) out ≡ take (cap - 1) (body g)
  pub closed : get_elem? out (min (length (body g)) (cap - 1)) ≡ some 0

finish-Rendered :
    (g : Registry) (o : Out)
    → 0 < o.cap
    → 0 < length (body g)
    → Shows o (body g)
    → Rendered g o.cap
        (o.len, some (if ltb 0 o.cap && leb o.cap o.len then set o.buf (o.cap - 1) 0 else o.buf))
finish-Rendered g o h some_body s = elim (Bool-cases (ltb 0 o.cap && leb o.cap o.len)) [
  | inl full ↦
      let whole : min (length (body g)) (o.cap - 1) ≡ o.cap - 1 = ground (arith, s.counted) in
      rw full (record {
        out = set o.buf (o.cap - 1) 0;
        returned = ap (λ n. (n, some (set o.buf (o.cap - 1) 0))) s.counted;
        front =
            rw whole
              (take-set_of_le (o.cap - 1) (o.cap - 1) o.buf 0 (omega arith) ∙ rw whole at s.front);
        closed = rw whole (get_elem?-set_self o.buf (o.cap - 1) 0 (omega (arith, s.room)));
      })
  | inr short ↦ rw short (record {
    out = o.buf;
    returned = ap (λ n. (n, some o.buf)) s.counted;
    front = s.front;
    closed = s.closed h some_body;
  })
]

-- `metrics_render` returns the length of the whole body for a buffer of any size, and for none. Of a
-- buffer it leaves the body cut to `cap` - 1 bytes, with a NUL behind it; so an answer below `cap`
-- means that the whole body stands there. The label has at most 31 bytes, and the array at least
-- `cap`, of which there is one.
pub metrics_render-Rendered :
    (g : Registry) (buf : List ℕ) (cap : ℕ)
    → length (model_label g) ≤ 31
    → cap ≤ length buf
    → 0 < cap
    → Rendered g cap (metrics_render (some buf) cap g)
      × (metrics_render none cap g ≡ (length (body g), none))
unfolding metrics_render
metrics_render-Rendered g buf cap h fits some_room = (
  subst
      (λ c.
        Rendered g c (o.len, some (if ltb 0 c && leb c o.len then set o.buf (c - 1) 0 else o.buf)))
      (cap-render_all g start)
      (finish-Rendered g o (rw (cap-render_all g start) some_room) (length-body-pos g) shown),
  ap (λ n. (n, none)) (render_all-Shows g [] 0 h (omega arith)).counted,
)
  where
    start : Out
    start = record { buf = buf; cap = cap; len = 0 }

    o : Out
    o = render_all g start

    shown : Shows o (body g)
    shown = render_all-Shows g buf cap h fits
