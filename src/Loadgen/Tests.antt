-- ===== src/Loadgen/Tests.antt =====
-- Examples of src/bench/loadgen.c.
use concurrent_servers.Prelude.{
  pos, ℕ, replicate, length-replicate, zero, suc, ◌<◌, ◌≡◌, refl, List, [], ◌∷◌, some, none, true,
  arith,
}
use concurrent_servers.Sys.{RecvResult, received, recv_failed, wrote, send_failed, eintr}
use concurrent_servers.Text.{codes}
use concurrent_servers.Loadgen.{
  Frames, make_frames, fill_frames, Ctx, conn_main, recv_exact, recv_exact_from, recv_bytes,
  got_all,
}
use concurrent_servers.Loadgen.Verdict.{Verdict}
use concurrent_servers.Sys.Numbers.{atoi, strtol, skip_space, read_sign, read_signed, read_digits}
use concurrent_servers.Loadgen.Arguments.{
  Options, parse_options, check_options, parse_options-Verdict,
}
use concurrent_servers.Loadgen.Totals.{exit_status, total_errors, total_mismatches}
use concurrent_servers.Loadgen.Connecting.{
  Address, connected, in_progress, poll_timeout, no_error, writable, Opens, connect_to,
  connect_to-Opens,
}
use concurrent_servers.Loadgen.Barrier.{
  Gate, gate, arrive, worker, main, Reachable, at_start, after, gate_opens,
}

-- What the arrays hold behind the frame stays.
abbrev blank : Frames
blank = record { req = codes "00000000"; expected = codes "11111" }

frames_made :
    make_frames 3 blank ≡ some (record { req = codes "^abc$000"; expected = codes "bcd11" })
unfolding make_frames fill_frames
frames_made = refl

-- The acknowledgement, and the answers to two messages of three bytes, in pieces.
abbrev some_recvs : List RecvResult
some_recvs =
    received (codes "*b") ∷ recv_failed eintr ∷ received (codes "cdb") ∷ received (codes "cd") ∷ []

recv_one : recv_exact some_recvs (7 ∷ []) 1 ≡ record {
  status = got_all;
  recvs =
      received (codes "b")
      ∷ recv_failed eintr
      ∷ received (codes "cdb")
      ∷ received (codes "cd")
      ∷ [];
  buf = codes "*";
}
unfolding recv_exact recv_exact_from recv_bytes
recv_one = refl

-- The arrays of a connection before they are written.
abbrev unset : Frames
unset = record { req = replicate 514 0; expected = replicate 512 0 }

abbrev some_ctx : Ctx
some_ctx = record {
  fd = none;
  completed = 0;
  errors = 0;
  mismatches = 0;
  sends = wrote 3 ∷ send_failed eintr ∷ wrote 2 ∷ wrote 5 ∷ [];
  recvs = some_recvs;
  wire = [];
}

-- Two messages of three bytes on one connection.
abbrev some_args : List (List ℕ)
some_args = codes "localhost" ∷ codes "9090" ∷ codes "1" ∷ codes "2" ∷ codes "3" ∷ []

abbrev some_options : Options
some_options = record { connections = pos 1; messages = pos 2; payload = pos 3 }

some_args-accepted : parse_options some_args ≡ some some_options
unfolding parse_options check_options atoi strtol skip_space read_sign read_signed read_digits
some_args-accepted = refl

parse_options-Verdict_example :
    Verdict (some 5) 2 3 some_ctx (conn_main (some 5) 2 3 unset (0 ∷ []) (replicate 512 0) some_ctx)
parse_options-Verdict_example =
    parse_options-Verdict some_args some_options (some 5) unset (0 ∷ []) (replicate 512 0) some_ctx
      some_args-accepted (length-replicate {A = ℕ} 514 0) (length-replicate {A = ℕ} 512 0) refl
      (length-replicate {A = ℕ} 512 0) (omega arith, (tt, (omega arith, (omega arith, tt)))) refl

-- Two connections of which one thread could be created.
abbrev hung : Gate
hung =
    arrive (record (arrive (record (gate 2 1) { workers_left = 0 })) {
      main_waits = true;
      waits_left = 1;
    })

hung-Reachable : Reachable (gate 2 1) hung
unfolding gate arrive
hung-Reachable = after _ (after _ at_start (worker 0 refl)) (main 1 refl refl)

gate_opens_example :
    (suc zero < 2 → hung.opened ≡ 0)
    × (suc zero ≡ suc (suc zero) → hung.workers_left ≡ 0 → hung.waits_left ≡ 0 → hung.opened ≡ 1)
gate_opens_example = gate_opens 2 1 hung (omega arith) hung-Reachable

-- The first address does not answer in time.
abbrev some_addresses : List Address
some_addresses =
    record {
      socket = some 5;
      calls = record {
        getfl = none;
        setfl = none;
        connect = in_progress;
        poll = poll_timeout;
        soerr = no_error;
        restore = none;
      };
    }
    ∷ record {
      socket = some 5;
      calls = record {
        getfl = none;
        setfl = none;
        connect = connected;
        poll = writable;
        soerr = no_error;
        restore = none;
      };
    }
    ∷ []

connect_to-Opens_example : Opens some_addresses (0 ∷ []) (connect_to some_addresses (0 ∷ []))
connect_to-Opens_example = connect_to-Opens some_addresses (0 ∷ [])

-- One connection has had a wrong answer.
wrong_answer_fails : exit_status (some_ctx ∷ record some_ctx { mismatches = 1 } ∷ []) ≡ 1
unfolding exit_status total_errors total_mismatches
wrong_answer_fails = refl
