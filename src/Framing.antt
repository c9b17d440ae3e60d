-- ===== src/Framing.antt =====
-- The framing that protocol.h describes, independent of any server: what is echoed for a stream
-- of bytes, as a function of the stream and as a grammar.
pub mod Grammar
use concurrent_servers.Prelude.{
  ℕ, suc, ◌+◌, ◌≤◌, ◌≡◌, refl, ap, List, [], ◌∷◌, ◌++◌, map, arith, ◌==◌, if◌then◌else◌, length,
  All,
}
use concurrent_servers.Sys.{add_u8}

abbrev pub caret : ℕ
caret = b'^'

abbrev pub dollar : ℕ
dollar = b'$'

abbrev pub star : ℕ
star = b'*'

-- Outside of a frame, or inside of one.
pub data Mode : Type 0 where
  outside inside : Mode

-- The echo of one byte.
abbrev pub bump : ℕ → ℕ
bump c = add_u8 c 1

abbrev pub next_mode : Mode → ℕ → Mode
next_mode outside c = if c == caret then inside else outside
next_mode inside c = if c == dollar then outside else inside

abbrev pub echo_byte : Mode → ℕ → List ℕ
echo_byte outside c = []
echo_byte inside c = if c == dollar then [] else bump c ∷ []

-- The mode after a stream, and all that is echoed for it.
abbrev pub mode_after : Mode → List ℕ → Mode
mode_after m [] = m
mode_after m (c ∷ cs) = mode_after (next_mode m c) cs

abbrev pub echo : Mode → List ℕ → List ℕ
echo m [] = []
echo m (c ∷ cs) = echo_byte m c ++ echo (next_mode m c) cs

pub mode_after-append :
    (m : Mode) (xs ys : List ℕ) → mode_after m (xs ++ ys) ≡ mode_after (mode_after m xs) ys
mode_after-append m [] ys = refl
mode_after-append m (c ∷ cs) ys = mode_after-append (next_mode m c) cs ys

-- The echo of a stream is the same however the stream is cut.
pub echo-append :
    (m : Mode) (xs ys : List ℕ) → echo m (xs ++ ys) ≡ echo m xs ++ echo (mode_after m xs) ys
echo-append m [] ys = refl
echo-append outside (c ∷ cs) ys = echo-append (next_mode outside c) cs ys
echo-append inside (c ∷ cs) ys = ground (arith, echo-append outside cs ys, echo-append inside cs ys)

pub length-echo_le : (m : Mode) (xs : List ℕ) → length (echo m xs) ≤ length xs
length-echo_le m [] = omega arith
length-echo_le outside (c ∷ cs) = omega (arith, length-echo_le (next_mode outside c) cs)
length-echo_le inside (c ∷ cs) = ground (arith, length-echo_le outside cs, length-echo_le inside cs)
