-- ===== src/MetricsServer/Tests.antt =====
-- Examples of src/metrics_server.c.
use concurrent_servers.Prelude.{
  ℕ, ◌≤◌, ◌≡◌, refl, List, [], ◌∷◌, ◌++◌, none, some, true, false, All, arith, replicate,
  length-replicate, if◌then◌else◌, inr, length,
}
use concurrent_servers.Sys.{
  RecvResult, received, recv_failed, SendResult, wrote, send_failed, eintr, epipe, emfile, eagain,
  other,
}
use concurrent_servers.Text.{codes}
use concurrent_servers.Metrics.{zeroed, model_label}
use concurrent_servers.Protocol.Sending.{IsSsize}
use concurrent_servers.Sys.Streams.{stream, fate}
use concurrent_servers.MetricsServer.{
  read_request, read_from, take_in, check_request, finish_read, got_request, serve,
}
use concurrent_servers.MetricsServer.Responses.{Responds, serve-Responds}
use concurrent_servers.MetricsServer.Accepting.{
  refused, poll_failed, timed_out, readable, Round, Fine, accept_loop, visits, verdict,
  accept_loop-Fine,
}
use concurrent_servers.MetricsServer.Life.{socket_fd, Calls, Server, ealready}
use concurrent_servers.MetricsServer.Life.Owning.{
  Owns, down, first_failure, StartIs, start-StartIs, started_by, stopped_by, run, run-Owns,
}

-- A request in two pieces.
abbrev some_recvs : List RecvResult
some_recvs = received (codes "GET /met") ∷ recv_failed eintr ∷ received (codes "rics\r\n\r\n") ∷ []

abbrev some_sends : List SendResult
some_sends = send_failed eintr ∷ wrote 100 ∷ send_failed epipe ∷ []

some_sends-IsSsize : All IsSsize some_sends
some_sends-IsSsize = (tt, (omega arith, (tt, tt)))

read_whole :
    read_request some_recvs (replicate 30 7) 30
    ≡ got_request (codes "GET /metrics\r\n\r\n" ++ (0 ∷ replicate 13 7))
unfolding read_request read_from take_in check_request finish_read
read_whole = refl

-- The array of 8 bytes is full after 7.
read_cut : read_request some_recvs (replicate 8 7) 8 ≡ got_request (codes "GET /me" ++ (0 ∷ []))
unfolding read_request read_from take_in check_request finish_read
read_cut = refl

short_label : length (model_label zeroed) ≤ 31
unfolding model_label
short_label = omega arith

serve-Responds_example :
    Responds
      (stream some_recvs)
      (fate some_recvs)
      some_sends
      zeroed
      (serve some_recvs some_sends (replicate 2048 7) (replicate 16384 7) zeroed)
serve-Responds_example =
    serve-Responds some_recvs some_sends (replicate 2048 7) (replicate 16384 7) zeroed
      (omega (arith, length-replicate {A = ℕ} 2048 7))
      (omega (arith, length-replicate {A = ℕ} 16384 7)) short_label some_sends-IsSsize

abbrev some_rounds : List Round
some_rounds =
    record { running = true; poll = timed_out }
    ∷ record { running = true; poll = readable (refused emfile) }
    ∷ record { running = true; poll = poll_failed eintr }
    ∷ []

abbrev last_round : Round
last_round = record { running = true; poll = readable (refused eagain) }

accept_loop-Fine_example :
    (accept_loop (some_rounds ++ [])
      ≡ ((accept_loop []).0, visits some_rounds ++ (accept_loop []).1))
    × ((r : Round)
        → ¬ Fine r
        → accept_loop (some_rounds ++ (r ∷ []))
          ≡ ((verdict r).0, visits some_rounds ++ (verdict r).1))
accept_loop-Fine_example =
    accept_loop-Fine some_rounds [] ((refl, tt), ((refl, inr (inr refl)), ((refl, refl), tt)))

abbrev some_calls : Calls
some_calls = record {
  socket = socket_fd 5;
  setsockopt = none;
  bind = some (other 98);
  listen = none;
  create = none;
}

abbrev idle : Server
idle = record {
  started = false;
  running = false;
  listen_fd = none;
  open_fds = 0 ∷ 1 ∷ 2 ∷ [];
  threads = 0;
  errno = eintr;
}

idle-Owns : Owns (0 ∷ 1 ∷ 2 ∷ []) idle
idle-Owns = down refl refl refl refl refl

start-StartIs_example :
    StartIs some_calls idle (if idle.started then some ealready else first_failure some_calls)
start-StartIs_example = start-StartIs some_calls (0 ∷ 1 ∷ 2 ∷ []) idle idle-Owns

run-Owns_example :
    Owns
      (0 ∷ 1 ∷ 2 ∷ [])
      (run (started_by some_calls ∷ stopped_by ∷ started_by some_calls ∷ []) idle)
run-Owns_example =
    run-Owns (0 ∷ 1 ∷ 2 ∷ []) (started_by some_calls ∷ stopped_by ∷ started_by some_calls ∷ []) idle
      idle-Owns
