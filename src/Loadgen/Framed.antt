-- ===== src/Loadgen/Framed.antt =====
-- The request of the load generator and the answer that it expects.
use concurrent_servers.Prelude.{
  write_at_lem, ℕ, zero, suc, ◌+◌, ◌≤◌, ◌<◌, ◌≡◌, refl, sym, ap, ◌∙◌, List, [], ◌∷◌, ◌++◌, Option,
  some, false, ◌==◌, arith, if◌then◌else◌, length, length-take, take, set, length-append,
  length-set, take-set_next, append_assoc, append-nil, map,
}
use concurrent_servers.Sys.{add_u8}
use concurrent_servers.Framing.{outside, inside, caret, dollar, bump, mode_after, echo}
use concurrent_servers.Loadgen.{max_payload, Frames, letter, fill_frames, make_frames}

-- The payload: `k` letters from the one of index `i` on.
unfoldable pub letters : ℕ → ℕ → List ℕ
letters zero i = []
letters (suc k) i = letter i ∷ letters k (i + 1)

unfoldable pub frame : ℕ → List ℕ
frame n = caret ∷ (letters n 0 ++ (dollar ∷ []))

length-letters : (k i : ℕ) → length (letters k i) ≡ k
unfolding letters
length-letters zero i = refl
length-letters (suc k) i = ap suc (length-letters k (i + 1))

pub length-frame : (n : ℕ) → length (frame n) ≡ n + 2
unfolding frame
length-frame n = omega (arith, length-append (letters n 0) (dollar ∷ []), length-letters n 0)

echo-letters :
    (k i : ℕ) (rest : List ℕ)
    → (echo inside (letters k i ++ rest) ≡ map bump (letters k i) ++ echo inside rest)
      × (mode_after inside (letters k i ++ rest) ≡ mode_after inside rest)
unfolding letters
echo-letters zero i rest = (refl, refl)
echo-letters (suc k) i rest =
    let plain : (letter i == dollar) ≡ false = ground arith in
    (
      rw plain (ap (◌∷◌ (bump (letter i))) (echo-letters k (i + 1) rest).0),
      ap (λ b. mode_after (if b then outside else inside) (letters k (i + 1) ++ rest)) plain
          ∙ (echo-letters k (i + 1) rest).1,
    )

-- The framing's answer to a request is each letter with 1 added, and the request closes its frame.
pub echo-frame :
    (n : ℕ)
    → (echo outside (frame n) ≡ map bump (letters n 0)) × (mode_after outside (frame n) ≡ outside)
unfolding frame
echo-frame n = (
  (echo-letters n 0 (dollar ∷ [])).0 ∙ append-nil (map bump (letters n 0)),
  (echo-letters n 0 (dollar ∷ [])).1,
)

-- A write behind a prefix, read with it.
grown :
    (xs : List ℕ) (i v n : ℕ)
    → n ≡ suc i
    → i < length xs
    → take n (set xs i v) ≡ take i xs ++ (v ∷ [])
grown xs i v n e h = ap (λ k. take k (set xs i v)) e ∙ take-set_next i xs v h

-- The arrays once `k` letters from index `i` on have been filled in.
record Filled (k i : ℕ) (a : Frames) (e : Option Frames) : Type 0 where
  frames : Frames
  done_lem : e ≡ some frames
  req_front : take (1 + i + k) frames.req ≡ take (1 + i) a.req ++ letters k i
  expected_front : take (i + k) frames.expected ≡ take i a.expected ++ map bump (letters k i)
  req_room : length frames.req ≡ length a.req

fill_frames-Filled :
    (k i : ℕ) (a : Frames)
    → 1 + i + k ≤ length a.req
    → i + k ≤ length a.expected
    → Filled k i a (fill_frames k i a)
unfolding fill_frames letters
fill_frames-Filled zero i a h h' = record {
  frames = a;
  done_lem = refl;
  req_front =
      ap (λ n. take n a.req) {x = 1 + i + 0} {y = 1 + i} (omega arith)
      ∙ sym (append-nil (take (1 + i) a.req));
  expected_front =
      ap (λ n. take n a.expected) {x = i + 0} {y = i} (omega arith)
      ∙ sym (append-nil (take i a.expected));
  req_room = refl;
}
fill_frames-Filled (suc k) i a h h' =
    let req : List ℕ = set a.req (1 + i) (letter i) in
    let expected : List ℕ = set a.expected i (bump (letter i)) in
    let rest : Filled k (i + 1) (record { req = req; expected = expected })
        (fill_frames k (i + 1) (record { req = req; expected = expected })) =
      fill_frames-Filled k (i + 1) (record { req = req; expected = expected })
        (omega (arith, length-set a.req (1 + i) (letter i)))
        (omega (arith, length-set a.expected i (bump (letter i)))) in
    rw
      (
        write_at_lem a.req (1 + i) (letter i) (omega arith),
        write_at_lem a.expected i (add_u8 (letter i) 1) (omega arith),
      )
      (record {
        frames = rest.frames;
        done_lem = rest.done_lem;
        req_front =
            ap (λ n. take n rest.frames.req) {x = 1 + i + suc k} {y = 1 + (i + 1) + k} (omega arith)
            ∙ rest.req_front
            ∙ ap (λ xs. xs ++ letters k (i + 1))
                (grown a.req (1 + i) (letter i) (1 + (i + 1)) (omega arith) (omega arith))
            ∙ append_assoc (take (1 + i) a.req) (letter i ∷ []) (letters k (i + 1));
        expected_front =
            ap (λ n. take n rest.frames.expected) {x = i + suc k} {y = i + 1 + k} (omega arith)
            ∙ rest.expected_front
            ∙ ap (λ xs. xs ++ map bump (letters k (i + 1)))
                (grown a.expected i (bump (letter i)) (i + 1) (omega arith) (omega arith))
            ∙ append_assoc (take i a.expected) (bump (letter i) ∷ [])
                (map bump (letters k (i + 1)));
        req_room = rest.req_room ∙ length-set a.req (1 + i) (letter i);
      })

-- What the two arrays hold in front.
pub record Framed (n : ℕ) (a : Frames) : Type 0 where
  pub request : take (n + 2) a.req ≡ frame n
  pub answer : take n a.expected ≡ echo outside (frame n)

length-map-bump : (xs : List ℕ) → length (map bump xs) ≡ length xs
length-map-bump [] = refl
length-map-bump (x ∷ xs) = ap suc (length-map-bump xs)

-- The expected answer stands in its array.
pub Framed-room : (n : ℕ) (a : Frames) → Framed n a → n ≤ length a.expected
Framed-room n a f = omega (
  arith,
  ap length f.answer,
  ap length (echo-frame n).0,
  length-map-bump (letters n 0),
  length-letters n 0,
  length-take n a.expected,
)

-- Within the limit on the payload the arrays are filled without an access out of bounds: `req` with the
-- request, a frame of `n` letters, and `expected` with what the framing answers to it. The arrays have
-- 514 and 512 bytes.
pub make_frames-Framed :
    (n : ℕ) (a : Frames)
    → n ≤ max_payload
    → length a.req ≡ max_payload + 2
    → length a.expected ≡ max_payload
    → (b : Frames) × (make_frames n a ≡ some b) × Framed n b
unfolding make_frames frame
make_frames-Framed n a h room room' =
    rw
      (
        write_at_lem a.req 0 caret (omega (arith, room)),
        filled.done_lem,
        write_at_lem filled.frames.req (1 + n) dollar
            (omega (arith, room, filled.req_room, length-set a.req 0 caret)),
      )
      (
        record filled.frames { req = set filled.frames.req (1 + n) dollar },
        refl,
        record {
          request =
              grown filled.frames.req (1 + n) dollar (n + 2) (omega arith)
                (omega (arith, room, filled.req_room, length-set a.req 0 caret))
              ∙ ap (λ xs. xs ++ (dollar ∷ []))
                  (ap (λ k. take k filled.frames.req) {x = 1 + n} {y = 1 + 0 + n} (omega arith)
                    ∙ filled.req_front
                    ∙ ap (λ xs. xs ++ letters n 0)
                        (take-set_next zero a.req caret (omega (arith, room))));
          answer =
              ap (λ k. take k filled.frames.expected) {x = n} {y = 0 + n} (omega arith)
              ∙ filled.expected_front
              ∙ sym (echo-frame n).0;
        },
      )
  where
    opened : Frames
    opened = record a { req = set a.req 0 caret }

    filled : Filled n 0 opened (fill_frames n 0 opened)
    filled =
        fill_frames-Filled n 0 opened (omega (arith, room, length-set a.req 0 caret))
          (omega (arith, room'))
