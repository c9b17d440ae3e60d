-- ===== src/MetricsServer/Storing.antt =====
-- What src/metrics_server.c stores in the array of `read_request`.
use concurrent_servers.Prelude.{
  ℕ, ◌+◌, ◌≤◌, ◌<◌, ◌≡◌, refl, sym, ap, ◌∙◌, List, [], ◌∷◌, ◌++◌, false, arith, ltb, length, take,
  set, splice, length-take, take-length-take, take-append_right, length-set, length-splice,
  take-set_of_le, take-splice_next, take-append_left,
}
use concurrent_servers.Sys.{RecvResult, received, recv_failed, add_u64}
use concurrent_servers.MetricsServer.{finish_read, read_from}

-- The array once `len` bytes of `all` stand in it with a NUL behind them.
pub record Holds (all : List ℕ) (len : ℕ) (buf : List ℕ) : Type 0 where
  pub within : len ≤ length all
  pub front : take len buf ≡ take len all

-- In a full array there is no further recv.
pub read_from-full :
    (recvs : List RecvResult) (room : ℕ) (buf : List ℕ) (len : ℕ)
    → ltb (add_u64 len 1) room ≡ false
    → read_from recvs room buf len ≡ finish_read buf len
unfolding read_from
read_from-full [] room buf len full = rw full
read_from-full (recv_failed e ∷ recvs) room buf len full = rw full
read_from-full (received bytes ∷ recvs) room buf len full = rw full

-- `k` bytes behind the first `len` of the array.
unfoldable pub stored : List ℕ → List ℕ → ℕ → List ℕ
stored buf bytes len = set (splice buf len bytes) (len + length bytes) 0

pub take-stored :
    (buf bytes : List ℕ) (len : ℕ)
    → len + length bytes < length buf
    → take (len + length bytes) (stored buf bytes len) ≡ take len buf ++ bytes
unfolding stored
take-stored buf bytes len h =
    take-set_of_le (len + length bytes) (len + length bytes) (splice buf len bytes) 0 (omega arith)
    ∙ take-splice_next len (len + length bytes) buf bytes refl (omega arith)

-- `taken` of `bytes` stand behind `xs`.
pub take_behind :
    (xs bytes rest taken : List ℕ) (k len : ℕ)
    → length xs ≡ len
    → taken ≡ take k bytes
    → take (len + length taken) (xs ++ (bytes ++ rest)) ≡ xs ++ taken
take_behind xs bytes rest taken k len at e =
    ap (λ n. take n (xs ++ (bytes ++ rest))) {x = len + length taken} {y = length xs + length taken}
      (omega (arith, at))
    ∙ take-append_right (length taken) xs (bytes ++ rest)
    ∙ ap (◌++◌ xs) (
        take-append_left (length taken) bytes rest (omega (arith, ap length e, length-take k bytes))
        ∙ ap (λ t. take (length t) bytes) e
        ∙ take-length-take k bytes
        ∙ sym e)

pub length-stored : (buf bytes : List ℕ) (len : ℕ) → length (stored buf bytes len) ≡ length buf
unfolding stored
length-stored buf bytes len =
    omega
      (arith, length-set (splice buf len bytes) (len + length bytes) 0, length-splice buf len bytes)
