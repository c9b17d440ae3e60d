-- ===== src/MetricsServer/Requests.antt =====
-- What `read_request` leaves in its array, however the request comes in.
use concurrent_servers.Prelude.{
  write_at_lem, ℕ, zero, suc, ◌+◌, ◌-◌, ◌≤◌, ◌<◌, ◌^◌, ◌≡◌, refl, sym, ap, ◌∙◌, ◌⊎◌, inl, inr, List,
  [], ◌∷◌, ◌++◌, some, false, arith, ltb, leb, Bool-cases, length, take, set, subst, leb→le, splice,
  get_elem?, c_string, length-take, length-append, length-splice, take_all, take-set_of_le,
  take-append_left, get_elem?-set_self, append_assoc, append-nil, lt→ltb,
}
use concurrent_servers.Sys.{RecvResult, received, recv_failed, add_u64, is_eintr}
use concurrent_servers.Sys.Streams.{stream, Fate, pending, closed, broken, fate}
use concurrent_servers.MetricsServer.{
  ReadEnd, got_request, no_request, read_blocked, has_blank_line, finish_read, check_request,
  take_in, read_from, read_request,
}
use concurrent_servers.MetricsServer.BlankLine.{
  HasBlankLine, has_blank_line→Has, no_blank_line, c_string-closed,
}
use concurrent_servers.MetricsServer.Storing.{
  Holds, read_from-full, stored, take-stored, take_behind, length-stored,
}

-- There is a blank line in the first `n` bytes of what the client sends, as far as a NUL.
abbrev pub BlankWithin : ℕ → List ℕ → Type 0
BlankWithin n all = HasBlankLine (c_string (take n all))

-- One of the recvs is offered `piece`.
abbrev pub Offers : List ℕ → List RecvResult → Type 0
Offers piece [] = ⊥
Offers piece (r ∷ recvs) = (r ≡ received piece) ⊎ Offers piece recvs

-- The last recv before the blank line was seen: it was offered a piece behind `m` bytes, among which no
-- blank line is.
pub record LastPiece (room : ℕ) (recvs : List RecvResult) (all : List ℕ) (n : ℕ) : Type 0 where
  pub before : ℕ
  pub piece : List ℕ
  pub offered : Offers piece recvs
  pub plain : ¬ BlankWithin before all
  pub behind : n ≡ before + length (take (room - before - 1) piece)

-- The reading stopped behind `n` bytes: the last piece has brought a blank line; or there is none, and
-- the array is full or the client has closed.
abbrev pub Stops : ℕ → List RecvResult → List ℕ → Fate → ℕ → Type 0
Stops room recvs all end n =
    (BlankWithin n all × LastPiece room recvs all n)
    ⊎ ((¬ BlankWithin n all) × ((n + 1 ≡ room) ⊎ ((n ≡ length all) × (end ≡ closed))))

-- What reading comes to for a client that sends `all`, as the recvs bring it.
pub data Reads (room : ℕ) (recvs : List RecvResult) (all : List ℕ) (end : Fate)
    : ReadEnd → Type 0 where
  request :
      (n : ℕ) (buf : List ℕ)
      → 0 < n
      → n < room
      → n ≤ length all
      → take n buf ≡ take n all
      → get_elem? buf n ≡ some 0
      → Stops room recvs all end n
      → Reads room recvs all end (got_request buf)
  cut_off :
      end ≡ broken
      → length all + 1 < room
      → ¬ BlankWithin (length all) all
      → Reads room recvs all end no_request
  nothing : all ≡ [] → end ≡ closed → Reads room recvs all end no_request
  waits :
      end ≡ pending
      → length all + 1 < room
      → ¬ BlankWithin (length all) all
      → Reads room recvs all end read_blocked

empty_of_length : (xs : List ℕ) → 0 ≡ length xs → xs ≡ []
empty_of_length [] h = refl
empty_of_length (x ∷ xs) h = absurd (omega arith)

finish-Reads :
    (room : ℕ) (origin : List RecvResult) (all : List ℕ) (end : Fate) (buf : List ℕ) (len : ℕ)
    → 1 < room
    → room ≤ length buf
    → len < room
    → Holds all len buf
    → ¬ HasBlankLine (c_string (take len buf))
    → (len + 1 ≡ room) ⊎ ((len ≡ length all) × (end ≡ closed))
    → Reads room origin all end (finish_read buf len)
unfolding finish_read
finish-Reads room origin all end buf zero big fits h hold plain (inl full) = absurd (omega arith)
finish-Reads room origin all end buf zero big fits h hold plain (inr (e, c)) =
    rw (write_at_lem buf zero 0 (omega arith), finish_read) (nothing (empty_of_length all e) c)
finish-Reads room origin all end buf (suc n) big fits h hold plain why =
    rw (write_at_lem buf (suc n) 0 (omega arith), finish_read, lt→ltb 0 (suc n) (omega arith))
      (request (suc n) (set buf (suc n) 0) (omega arith) h hold.within
        (take-set_of_le (suc n) (suc n) buf 0 (omega arith) ∙ hold.front)
        (get_elem?-set_self buf (suc n) 0 (omega arith))
        (inr (subst (λ xs. ¬ HasBlankLine (c_string xs)) hold.front plain, why)))

module _ (room : ℕ) (origin : List RecvResult) (big : 1 < room) (small : room < 2 ^ 63) where
  abbrev Whole : List ℕ → List RecvResult → ReadEnd → Type 0
  Whole past recvs = Reads room origin (past ++ stream recvs) (fate recvs)

  -- `buf` holds what has come in, and `rest` is still to come.
  Holds-now :
      (buf rest : List ℕ) (len : ℕ) → len ≤ length buf → Holds (take len buf ++ rest) len buf
  Holds-now buf rest len h = record {
    within = omega (arith, length-append (take len buf) rest, length-take len buf);
    front = sym (
        take-append_left len (take len buf) rest (omega (arith, length-take len buf))
        ∙ take_all len (take len buf) (omega (arith, length-take len buf)));
  }

  full-Reads :
      (recvs : List RecvResult) (buf : List ℕ) (len : ℕ) (all : List ℕ) (end : Fate)
      → room ≤ length buf
      → len < room
      → Holds all len buf
      → ¬ HasBlankLine (c_string (take len buf))
      → ltb (add_u64 len 1) room ≡ false
      → Reads room origin all end (read_from recvs room buf len)
  full-Reads recvs buf len all end fits h hold plain full =
      rw (read_from-full recvs room buf len full)
        (finish-Reads room origin all end buf len big fits h hold plain (inl (ground arith)))

  -- `bytes` of `offered` come in, behind what the array holds.
  take_in-Reads :
      (b : ℕ) (bs offered rest : List ℕ) (end : Fate) (buf : List ℕ) (len : ℕ)
      (more : List ℕ → ReadEnd)
      → room ≤ length buf
      → len + length (b ∷ bs) < room
      → b ∷ bs ≡ take (room - len - 1) offered
      → Offers offered origin
      → ¬ HasBlankLine (c_string (take len buf))
      → ((buf' : List ℕ)
          → room ≤ length buf'
          → Holds (take len buf ++ (offered ++ rest)) (len + length (b ∷ bs)) buf'
          → take (len + length (b ∷ bs)) buf' ≡ take len buf ++ (b ∷ bs)
          → ¬ HasBlankLine (c_string (take (len + length (b ∷ bs)) buf'))
          → Reads room origin (take len buf ++ (offered ++ rest)) end (more buf'))
      → Reads room origin (take len buf ++ (offered ++ rest)) end (take_in (b ∷ bs) buf len more)
  unfolding take_in check_request stored
  take_in-Reads b bs offered rest end buf len more fits h e from plain later =
      rw (no_wrap, write_at_lem (splice buf len (b ∷ bs)) (len + length (b ∷ bs)) 0 fits')
        (elim (Bool-cases (has_blank_line (c_string (stored buf (b ∷ bs) len)))) [
          | inl blank ↦ rw blank (
              request (len + length (b ∷ bs)) (stored buf (b ∷ bs) len) (omega arith) h hold.within
                hold.front closed_lem
                (inl (
                  subst (λ xs. HasBlankLine (c_string xs)) hold.front
                      (subst HasBlankLine text (has_blank_line→Has _ blank)),
                  last,
                )))
          | inr open_end ↦ rw open_end (
              later (stored buf (b ∷ bs) len) (omega (arith, length-stored buf (b ∷ bs) len)) hold
                (take-stored buf (b ∷ bs) len (omega arith))
                (subst (λ xs. ¬ HasBlankLine xs) text (no_blank_line _ open_end)))
        ])
    where
      no_wrap : add_u64 len (length (b ∷ bs)) ≡ len + length (b ∷ bs)
      no_wrap = omega arith

      fits' : len + length (b ∷ bs) < length (splice buf len (b ∷ bs))
      fits' = omega (arith, length-splice buf len (b ∷ bs))

      front_lem : length (take len buf) ≡ len
      front_lem = omega (arith, length-take len buf)

      closed_lem : get_elem? (stored buf (b ∷ bs) len) (len + length (b ∷ bs)) ≡ some 0
      closed_lem = get_elem?-set_self (splice buf len (b ∷ bs)) (len + length (b ∷ bs)) 0 fits'

      text :
          c_string (stored buf (b ∷ bs) len)
          ≡ c_string (take (len + length (b ∷ bs)) (stored buf (b ∷ bs) len))
      text = c_string-closed (len + length (b ∷ bs)) (stored buf (b ∷ bs) len) closed_lem

      last : LastPiece room origin (take len buf ++ (offered ++ rest)) (len + length (b ∷ bs))
      last = record {
        before = len;
        piece = offered;
        offered = from;
        plain =
            subst (λ xs. ¬ HasBlankLine (c_string xs))
              (Holds-now buf (offered ++ rest) len (omega (arith, length-take len buf))).front
              plain;
        behind = omega (arith, ap length e);
      }

      hold :
          Holds
            (take len buf ++ (offered ++ rest))
            (len + length (b ∷ bs))
            (stored buf (b ∷ bs) len)
      hold = record {
        within = omega (
          arith,
          length-append (take len buf) (offered ++ rest),
          length-append offered rest,
          front_lem,
          ap length e,
          length-take (room - len - 1) offered,
        );
        front =
            take-stored buf (b ∷ bs) len (omega arith)
            ∙ sym
                (take_behind (take len buf) offered rest (b ∷ bs) (room - len - 1) len front_lem e);
      }

  -- The loop goes on with the array that a recv leaves: all that was offered stands in it, or it is
  -- full.
  next-Reads :
      (recvs : List RecvResult) (offered taken past : List ℕ) (len n : ℕ) (buf : List ℕ)
      → room ≤ length buf
      → n < room
      → taken ≡ take (room - len - 1) offered
      → n ≡ len + length taken
      → Holds (past ++ (offered ++ stream recvs)) n buf
      → take n buf ≡ past ++ taken
      → ¬ HasBlankLine (c_string (take n buf))
      → Whole (take n buf) recvs (read_from recvs room buf n)
      → Reads room origin
          (past ++ (offered ++ stream recvs))
          (fate recvs)
          (read_from recvs room buf n)
  next-Reads recvs offered taken past len n buf fits h e at hold front plain rest =
      elim (Bool-cases (leb (length offered) (room - len - 1))) [
        | inl whole ↦
            let all_of_it : taken ≡ offered =
              e ∙ take_all (room - len - 1) offered (leb→le _ _ whole) in
            subst (λ all. Reads room origin all (fate recvs) (read_from recvs room buf n))
              (ap (λ xs. xs ++ stream recvs) (front ∙ ap (◌++◌ past) all_of_it)
                ∙ append_assoc past offered (stream recvs))
              rest
        | inr cut ↦
            full-Reads recvs buf n _ _ fits h hold plain
              (ground (arith, ap length e, length-take (room - len - 1) offered))
      ]

  -- All of what has come in holds no blank line.
  nothing_more :
      (buf : List ℕ) (len : ℕ)
      → ¬ HasBlankLine (c_string (take len buf))
      → ¬ BlankWithin (length (take len buf ++ [])) (take len buf ++ [])
  nothing_more buf len plain =
      subst (λ xs. ¬ HasBlankLine (c_string xs))
        (sym (
          take_all (length (take len buf ++ [])) (take len buf ++ []) (omega arith)
          ∙ append-nil (take len buf)))
        plain

  read_from-Reads :
      (recvs : List RecvResult) (buf : List ℕ) (len : ℕ)
      → room ≤ length buf
      → len < room
      → ¬ HasBlankLine (c_string (take len buf))
      → ((piece : List ℕ) → Offers piece recvs → Offers piece origin)
      → Whole (take len buf) recvs (read_from recvs room buf len)
  unfolding read_from stream fate take_in
  read_from-Reads [] buf len fits h plain sub = elim (Bool-cases (ltb (add_u64 len 1) room)) [
    | inr full ↦ full-Reads [] buf len _ _ fits h (Holds-now buf [] len (omega arith)) plain full
    | inl more ↦ rw more (
        waits refl (ground (arith, length-append (take len buf) [], length-take len buf))
          (nothing_more buf len plain))
  ]
  read_from-Reads (recv_failed e ∷ recvs) buf len fits h plain sub =
      elim (Bool-cases (ltb (add_u64 len 1) room)) [
        | inr full ↦
            full-Reads (recv_failed e ∷ recvs) buf len _ _ fits h
              (Holds-now buf (stream (recv_failed e ∷ recvs)) len (omega arith)) plain full
        | inl more ↦ elim (Bool-cases (is_eintr e)) [
          | inl again ↦
              rw (more, again)
                (read_from-Reads recvs buf len fits h plain (λ piece o. sub piece (inr o)))
          | inr fatal ↦
              rw (more, fatal)
                (cut_off refl (ground (arith, length-append (take len buf) [], length-take len buf))
                  (nothing_more buf len plain))
        ]
      ]
  read_from-Reads (received [] ∷ recvs) buf len fits h plain sub =
      elim (Bool-cases (ltb (add_u64 len 1) room)) [
        | inr full ↦
            full-Reads (received [] ∷ recvs) buf len _ _ fits h (Holds-now buf [] len (omega arith))
              plain full
        | inl more ↦
            rw (more, take_all {A = ℕ} (room - len - 1) [] (omega arith))
              (finish-Reads room origin (take len buf ++ []) closed buf len big fits h
                (Holds-now buf [] len (omega arith)) plain
                (inr (omega (arith, length-append (take len buf) [], length-take len buf), refl)))
      ]
  read_from-Reads (received (b ∷ bs) ∷ recvs) buf len fits h plain sub =
      elim (Bool-cases (ltb (add_u64 len 1) room)) [
        | inr full ↦
            full-Reads (received (b ∷ bs) ∷ recvs) buf len _ _ fits h
              (Holds-now buf (stream (received (b ∷ bs) ∷ recvs)) len (omega arith)) plain full
        | inl more ↦
            let k : ℕ = room - len - 2 in
            let some_room : room - len - 1 ≡ suc k = ground arith in
            let within : len + length (b ∷ take k bs) < room = ground (arith, length-take k bs) in
            let no_wrap : add_u64 len (length (b ∷ take k bs)) ≡ len + length (b ∷ take k bs) =
              omega arith in
            rw (more, some_room)
              (take_in-Reads b (take k bs) (b ∷ bs) (stream recvs) (fate recvs) buf len _ fits
                within (rw some_room refl) (sub (b ∷ bs) (inl refl)) plain
                (λ buf' fits' hold front plain'. rw no_wrap (
                  next-Reads recvs (b ∷ bs) (b ∷ take k bs) (take len buf) len
                    (len + length (b ∷ take k bs)) buf' fits' within (rw some_room refl) refl hold
                    front plain'
                    (read_from-Reads recvs buf' (len + length (b ∷ take k bs)) fits' within plain'
                      (λ piece o. sub piece (inr o))))))
      ]

pub read_request-Reads :
    (recvs : List RecvResult) (buf : List ℕ) (room : ℕ)
    → 1 < room
    → room < 2 ^ 63
    → room ≤ length buf
    → Reads room recvs (stream recvs) (fate recvs) (read_request recvs buf room)
unfolding read_request
read_request-Reads recvs buf room big small fits =
    read_from-Reads room recvs big small recvs buf 0 fits (omega arith) (no_blank_line [] refl)
      (λ piece o. o)
