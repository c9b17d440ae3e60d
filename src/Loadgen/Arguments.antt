-- ===== src/Loadgen/Arguments.antt =====
-- src/bench/loadgen.c: the arguments of `main`, and what they make of a connection.
use concurrent_servers.Prelude.{
  ℕ, ◌+◌, ◌≤◌, ◌<◌, ◌≡◌, refl, List, Option, none, some, ◌>>=◌, Bool, true, false, ◌||◌, ltb,
  if◌then◌else◌, get_elem?, length, All, ℤ, pos, negsuc, arith, subst,
}
use concurrent_servers.Sys.Numbers.{atoi, number_or, below_one, natural, positive}
use concurrent_servers.Protocol.Sending.{IsSsize}
use concurrent_servers.Loadgen.{max_payload, Frames, Ctx, conn_main}
use concurrent_servers.Loadgen.Verdict.{Verdict, conn_main-Verdict}

pub record Options : Type 0 where
  pub connections : ℤ
  pub messages : ℤ
  pub payload : ℤ

abbrev pub above_payload : ℤ → Bool
above_payload (pos n) = ltb max_payload n
above_payload (negsuc n) = false

-- `none` is the exit status 2.
unfoldable pub check_options : Options → Option Options
check_options o =
    if below_one o.connections
      || (below_one o.messages || (below_one o.payload || above_payload o.payload))
    then none
    else some o

-- `main` up to the check of its numbers; `args` are argv[1] and on.
unfoldable pub parse_options : List (List ℕ) → Option Options
parse_options args = get_elem? args 2 >>= λ connections. get_elem? args 3 >>= λ messages.
    check_options (record {
      connections = atoi connections;
      messages = atoi messages;
      payload = number_or (get_elem? args 4) (pos 32);
    })

-- What the check lets through.
abbrev IsRunnable : Options → Type 0
IsRunnable o = (0 < natural o.messages) × (natural o.payload ≤ max_payload)

within : (k : ℤ) → above_payload k ≡ false → natural k ≤ max_payload
within (pos n) h = ground arith
within (negsuc n) h = omega arith

check_options-some : (o o' : Options) → check_options o ≡ some o' → IsRunnable o'
unfolding check_options
check_options-some o o' h =
    decided (below_one o.connections) (below_one o.messages) (below_one o.payload)
      (above_payload o.payload) refl refl h
  where
    decided :
        (x y z w : Bool)
        → below_one o.messages ≡ y
        → above_payload o.payload ≡ w
        → ◌≡◌ {A = Option Options} (if x || (y || (z || w)) then none else some o) (some o')
        → IsRunnable o'
    decided true y z w e e' h = cc
    decided false true z w e e' h = cc
    decided false false true w e e' h = cc
    decided false false false true e e' h = cc
    decided false false false false e e' h =
        let same : o ≡ o' = cc in subst IsRunnable same (positive o.messages e, within o.payload e')

parse_options-IsRunnable :
    (args : List (List ℕ)) (o : Options) → parse_options args ≡ some o → IsRunnable o
unfolding parse_options
parse_options-IsRunnable args o h = given (get_elem? args 2) (get_elem? args 3) h
  where
    given :
        (x y : Option (List ℕ))
        → (x >>= λ connections. y >>= λ messages. check_options (record {
          connections = atoi connections;
          messages = atoi messages;
          payload = number_or (get_elem? args 4) (pos 32);
        }))
          ≡ some o
        → IsRunnable o
    given none y h = cc
    given (some x) none h = cc
    given (some x) (some y) h = check_options-some _ o h

-- With arguments that `main` accepts, a connection of the load generator passes, with all of its
-- messages completed and neither an error nor a mismatch counted, exactly when it is there and the
-- server has sent its acknowledgement and the framing's answer to all requests, however the bytes come
-- in pieces; a wrong answer of the right length is counted as a mismatch. It stops with an error or
-- stays blocked only if there is no connection, the first byte is not the acknowledgement, the stream
-- is too short, or the kernel's sends make too little progress. A thread that returns has closed its
-- socket, and there is no access out of bounds. The error counter starts at zero, and the arrays have
-- their sizes.
pub parse_options-Verdict :
    (args : List (List ℕ)) (o : Options) (fd : Option ℕ) (a : Frames) (ack got : List ℕ) (c : Ctx)
    → parse_options args ≡ some o
    → length a.req ≡ max_payload + 2
    → length a.expected ≡ max_payload
    → length ack ≡ 1
    → length got ≡ max_payload
    → All IsSsize c.sends
    → c.errors ≡ 0
    → Verdict fd
        (natural o.messages)
        (natural o.payload)
        c
        (conn_main fd (natural o.messages) (natural o.payload) a ack got c)
parse_options-Verdict args o fd a ack got c accepted req expected one room honest zero_errors =
    let (some_message, small) = parse_options-IsRunnable args o accepted in
    conn_main-Verdict fd (natural o.messages) (natural o.payload) a ack got c some_message small req
      expected one room honest zero_errors
