-- ===== src/UvServer/Killing.antt =====
-- src/uv_server.c, `on_wrote_buf`: what a buffer that is taken for the kill switch holds.
use concurrent_servers.Prelude.{
  ℕ, zero, suc, ◌+◌, ◌-◌, ◌<◌, ◌≤◌, length, length-append, length-take, sym, ◌≡◌, refl, ap, ◌∙◌,
  List, [], ◌∷◌, ◌++◌, some, Bool, true, false, ◌&&◌, leb, arith, take, get_elem?, get_elem?-take,
  append_assoc, ==_iff,
}
use concurrent_servers.Text.{codes}
use concurrent_servers.UvServer.{PeerState, is_at, is_kill}

take_next :
    (i : ℕ) (xs : List ℕ) (x : ℕ)
    → get_elem? xs i ≡ some x
    → take (suc i) xs ≡ take i xs ++ (x ∷ [])
take_next i [] x h = cc
take_next zero (y ∷ xs) x h = cc
take_next (suc i) (y ∷ xs) x h = ap (◌∷◌ y) (take_next i xs x h)

is_at→get : (xs : List ℕ) (i c : ℕ) → is_at xs i c ≡ true → get_elem? xs i ≡ some c
is_at→get [] i c h = cc
is_at→get (x ∷ xs) zero c h = ap some ((==_iff x c).0 h)
is_at→get (x ∷ xs) (suc i) c h = is_at→get xs i c h

both : (a b : Bool) → (a && b) ≡ true → (a ≡ true) × (b ≡ true)
both true b h = (refl, h)
both false b h = cc

three_more :
    (k : ℕ) (xs : List ℕ) (x y z : ℕ)
    → get_elem? xs k ≡ some x
    → get_elem? xs (suc k) ≡ some y
    → get_elem? xs (suc (suc k)) ≡ some z
    → take (suc (suc (suc k))) xs ≡ take k xs ++ (x ∷ y ∷ z ∷ [])
three_more k xs x y z a b c =
    take_next (suc (suc k)) xs z c
    ∙ ap (λ ws. ws ++ (z ∷ []))
        (take_next (suc k) xs y b ∙ ap (λ ws. ws ++ (y ∷ [])) (take_next k xs x a))
    ∙ append_assoc (take k xs ++ (x ∷ [])) (y ∷ []) (z ∷ [])
    ∙ append_assoc (take k xs) (x ∷ []) (y ∷ z ∷ [])

-- The text ends in "XYZ".
abbrev pub EndsInXyz : List ℕ → Type 0
EndsInXyz out = (front : List ℕ) × (out ≡ front ++ codes "XYZ")

-- A buffer that is taken for the kill switch ends in "XYZ".
pub kill_ends : (p : PeerState) → is_kill p ≡ true → EndsInXyz (take p.sendbuf_end p.sendbuf)
unfolding is_kill
kill_ends p h =
    let last : _ =
      both
        (leb 3 p.sendbuf_end
          && is_at p.sendbuf (p.sendbuf_end - 3) b'X'
          && is_at p.sendbuf (p.sendbuf_end - 2) b'Y')
        (is_at p.sendbuf (p.sendbuf_end - 1) b'Z') h in
    let middle : _ =
      both (leb 3 p.sendbuf_end && is_at p.sendbuf (p.sendbuf_end - 3) b'X')
        (is_at p.sendbuf (p.sendbuf_end - 2) b'Y') last.0 in
    let first : _ =
      both (leb 3 p.sendbuf_end) (is_at p.sendbuf (p.sendbuf_end - 3) b'X') middle.0 in
    let k : ℕ = p.sendbuf_end - 3 in
    let three : p.sendbuf_end ≡ suc (suc (suc k)) = ground arith in
    (
      take k p.sendbuf,
      ap (λ n. take n p.sendbuf) three
          ∙ three_more k p.sendbuf b'X' b'Y' b'Z' (is_at→get p.sendbuf k b'X' first.1)
              (ap (get_elem? p.sendbuf) {x = suc k} {y = p.sendbuf_end - 2} (omega (arith, three))
                ∙ is_at→get p.sendbuf (p.sendbuf_end - 2) b'Y' middle.1)
              (ap (get_elem? p.sendbuf) {x = suc (suc k)} {y = p.sendbuf_end - 1}
                  (omega (arith, three))
                ∙ is_at→get p.sendbuf (p.sendbuf_end - 1) b'Z' last.1),
    )

is_at-of_get : (xs : List ℕ) (i c : ℕ) → get_elem? xs i ≡ some c → is_at xs i c ≡ true
is_at-of_get [] i c h = cc
is_at-of_get (x ∷ xs) zero c h = ground (arith, h)
is_at-of_get (x ∷ xs) (suc i) c h = is_at-of_get xs i c h

-- What stands in a list behind `front`.
behind :
    (front rest : List ℕ) (i k : ℕ)
    → i ≡ length front + k
    → get_elem? (front ++ rest) i ≡ get_elem? rest k
behind [] rest i k e = ap (get_elem? rest) {x = i} {y = k} (omega arith)
behind (x ∷ front) rest zero k e = absurd (omega arith)
behind (x ∷ front) rest (suc i) k e = behind front rest i k (omega arith)

-- Any buffer that ends in "XYZ" is taken for the kill switch.
pub is_kill-of_ends :
    (p : PeerState)
    → p.sendbuf_end ≤ length p.sendbuf
    → EndsInXyz (take p.sendbuf_end p.sendbuf)
    → is_kill p ≡ true
unfolding is_kill
is_kill-of_ends p fits (front, e) =
    rw
      (
        long,
        letter 0 b'X' refl (omega arith),
        letter 1 b'Y' refl (omega arith),
        letter 2 b'Z' refl (omega arith),
      )
      refl
  where
    size : length front + 3 ≡ p.sendbuf_end
    size = omega (
      arith,
      ap length e,
      length-append front (codes "XYZ"),
      length-take p.sendbuf_end p.sendbuf,
      fits,
    )

    long : leb 3 p.sendbuf_end ≡ true
    long = ground (arith, size)

    letter :
        (k c : ℕ)
        → get_elem? (codes "XYZ") k ≡ some c
        → k < 3
        → is_at p.sendbuf (p.sendbuf_end - (3 - k)) c ≡ true
    letter k c h lt = is_at-of_get p.sendbuf (p.sendbuf_end - (3 - k)) c (
        sym (
          get_elem?-take p.sendbuf_end (p.sendbuf_end - (3 - k)) p.sendbuf
            (omega (arith, size, lt)))
        ∙ ap (λ xs. get_elem? xs (p.sendbuf_end - (3 - k))) e
        ∙ behind front (codes "XYZ") (p.sendbuf_end - (3 - k)) k (omega (arith, size, lt))
        ∙ h)
