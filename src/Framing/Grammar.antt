-- ===== src/Framing/Grammar.antt =====
-- The framing as a grammar: a stream is noise and frames, and the last frame may be open.
use concurrent_servers.Prelude.{
  ℕ, ◌≡◌, ◌≢◌, refl, sym, ap, ◌∙◌, subst, inl, inr, ◌↔◌, List, [], ◌∷◌, ◌++◌, map, arith, ◌==◌,
  ==_iff, Bool-cases, All, append-nil,
}
use concurrent_servers.Framing.{outside, inside, caret, dollar, bump, echo}

abbrev pub IsNoise : List ℕ → Type 0
IsNoise = All (λ c. c ≢ caret)

abbrev pub IsPayload : List ℕ → Type 0
IsPayload = All (λ c. c ≢ dollar)

-- `Framed m s out`: read from mode `m`, the stream `s` is answered by `out`.
pub data Framed : List ℕ → List ℕ → Type 0 where
  noise : (s : List ℕ) → IsNoise s → Framed s []
  unclosed : (s p : List ℕ) → IsNoise s → IsPayload p → Framed (s ++ (caret ∷ p)) (map bump p)
  frame :
      (s p : List ℕ) {rest out : List ℕ}
      → IsNoise s
      → IsPayload p
      → Framed rest out
      → Framed (s ++ (caret ∷ (p ++ (dollar ∷ rest)))) (map bump p ++ out)

echo-noise : (s rest : List ℕ) → IsNoise s → echo outside (s ++ rest) ≡ echo outside rest
echo-noise [] rest h = refl
echo-noise (c ∷ s) rest h = ground (arith, echo-noise s rest h.1, h.0)

echo-payload :
    (p rest : List ℕ) → IsPayload p → echo inside (p ++ rest) ≡ map bump p ++ echo inside rest
echo-payload [] rest h = refl
echo-payload (c ∷ p) rest h = ground (arith, echo-payload p rest h.1, h.0)

echo-of_noise : (s : List ℕ) → IsNoise s → echo outside s ≡ []
echo-of_noise s h = ap (echo outside) (sym (append-nil s)) ∙ echo-noise s [] h

echo-of_payload : (p : List ℕ) → IsPayload p → echo inside p ≡ map bump p
echo-of_payload p h =
    ap (echo inside) (sym (append-nil p)) ∙ echo-payload p [] h ∙ append-nil (map bump p)

-- What the grammar derives is what is echoed.
pub Framed-echo : {s out : List ℕ} → Framed s out → echo outside s ≡ out
Framed-echo (noise s h) = echo-of_noise s h
Framed-echo (unclosed s p hs hp) = echo-noise s (caret ∷ p) hs ∙ echo-of_payload p hp
Framed-echo (frame s p {rest} {out} hs hp d) =
    echo-noise s (caret ∷ (p ++ (dollar ∷ rest))) hs
    ∙ echo-payload p (dollar ∷ rest) hp
    ∙ ap (◌++◌ (map bump p)) (Framed-echo d)

-- The same, read from inside of a frame.
data Tail : List ℕ → List ℕ → Type 0 where
  unclosed : (p : List ℕ) → IsPayload p → Tail p (map bump p)
  closed :
      (p : List ℕ) {rest out : List ℕ}
      → IsPayload p
      → Framed rest out
      → Tail (p ++ (dollar ∷ rest)) (map bump p ++ out)

Framed-cons : {c : ℕ} {s out : List ℕ} → c ≢ caret → Framed s out → Framed (c ∷ s) out
Framed-cons {c} ne (noise s h) = noise (c ∷ s) (ne, h)
Framed-cons {c} ne (Framed.unclosed s p hs hp) = Framed.unclosed (c ∷ s) p (ne, hs) hp
Framed-cons {c} ne (frame s p hs hp d) = frame (c ∷ s) p (ne, hs) hp d

Tail-cons : {c : ℕ} {s out : List ℕ} → c ≢ dollar → Tail s out → Tail (c ∷ s) (bump c ∷ out)
Tail-cons {c} ne (unclosed p h) = unclosed (c ∷ p) (ne, h)
Tail-cons {c} ne (closed p h d) = closed (c ∷ p) (ne, h) d

Framed-open : {s out : List ℕ} → Tail s out → Framed (caret ∷ s) out
Framed-open (unclosed p h) = Framed.unclosed [] p tt h
Framed-open (closed p h d) = frame [] p tt h d

both_modes : (s : List ℕ) → Framed s (echo outside s) × Tail s (echo inside s)
both_modes [] = (noise [] tt, unclosed [] tt)
both_modes (c ∷ s) =
    let (out, in_frame) = both_modes s in (from_outside out in_frame, from_inside out in_frame)
  where
    from_outside :
        Framed s (echo outside s) → Tail s (echo inside s) → Framed (c ∷ s) (echo outside (c ∷ s))
    from_outside f t = elim (Bool-cases (c == caret)) [
      | inl e ↦ rw (e, (==_iff c caret).0 e) (Framed-open t)
      | inr e ↦ rw e (Framed-cons (ground arith) f)
    ]

    from_inside :
        Framed s (echo outside s) → Tail s (echo inside s) → Tail (c ∷ s) (echo inside (c ∷ s))
    from_inside f t = elim (Bool-cases (c == dollar)) [
      | inl e ↦ rw (e, (==_iff c dollar).0 e) (closed [] tt f)
      | inr e ↦ rw e (Tail-cons (ground arith) t)
    ]

-- The grammar derives an answer for every stream, and no other than its echo.
pub Framed-iff_echo : (s out : List ℕ) → Framed s out ↔ (echo outside s ≡ out)
Framed-iff_echo s out = (Framed-echo, λ e. subst (Framed s) e (both_modes s).0)
