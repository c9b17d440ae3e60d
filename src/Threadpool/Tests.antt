-- ===== src/Threadpool/Tests.antt =====
-- Examples of src/threadpool_server.c.
use concurrent_servers.Prelude.{
  ℕ, List, true, false, length, replicate, length-replicate, ap, ◌∙◌, pos, ◌↔◌, ◌≡◌, ◌≢◌, refl,
  subst, inr, [], ◌∷◌, none, some, arith,
}
use concurrent_servers.Metrics.{zeroed, metrics_connection_accepted, metrics_queue_depth_set}
use concurrent_servers.Threadpool.Queue.{FdQueue, queue_init, queue_push, enqueue, queue_pop}
use concurrent_servers.Threadpool.Queue.Slots.{IsQueue}
use concurrent_servers.Threadpool.Queue.Fifo.{
  PushIs, PopIs, queue_init-IsQueue, queue_push-PushIs, queue_pop-PopIs,
}
use concurrent_servers.Exec.{done, Ends}
use concurrent_servers.MetricsServer.Life
use concurrent_servers.MetricsServer.Life.Owning.{down}
use concurrent_servers.Threadpool.Arguments.{Settings}
use concurrent_servers.Threadpool.Startup.{StartCalls, start_main}
use concurrent_servers.Threadpool.Startup.Up.{IsUp, Failed, start_main-Ends}
use concurrent_servers.Text.{codes}
use concurrent_servers.Sys.Numbers.{atoi, strtol, skip_space, read_sign, read_signed, read_digits}
use concurrent_servers.Threadpool.Arguments.{
  parse_port, check_port, check_range, check_settings, parse_arguments,
}
use concurrent_servers.Threadpool.Arguments.Denoting.{Denotes, plus}
use concurrent_servers.Threadpool.Arguments.Ports.{parse_port-Denotes}
use concurrent_servers.Threadpool.Threads.{
  counting, pushing, signalling_not_empty, Pool, after_push, after_pop, Step, accepts, counts,
  pushes, pops, started, Reachable, at_start, after,
}
use concurrent_servers.Threadpool.Threads.Sound.{IsSound}
use concurrent_servers.Threadpool.Threads.Steps.{Reachable-IsSound, Step-some, started-IsSound}
use concurrent_servers.Threadpool.Threads.Waits.{IsAwake}
use concurrent_servers.Threadpool.Threads.Waking.{Reachable-IsAwake}

-- Two slots, with 7 in the last one and the next push to come round to the first.
abbrev round_the_end : FdQueue
round_the_end = record {
  fds = 5 ∷ 7 ∷ [];
  capacity = 2;
  head = 1;
  tail = 0;
  count = 1;
  total_enqueued = 2;
  acceptor_blocked = 0;
}

round_the_end-IsQueue : IsQueue round_the_end
round_the_end-IsQueue = record {
  size = refl;
  small = omega arith;
  head_in = omega arith;
  tail_in = omega arith;
  bounded = omega arith;
  apart = inr refl;
}

queue_push-PushIs_example : PushIs round_the_end 9 zeroed (queue_push round_the_end 9 zeroed)
queue_push-PushIs_example = queue_push-PushIs round_the_end 9 zeroed round_the_end-IsQueue

queue_pop-PopIs_example : PopIs round_the_end zeroed (queue_pop round_the_end zeroed)
queue_pop-PopIs_example = queue_pop-PopIs round_the_end zeroed round_the_end-IsQueue

-- A queue of one slot and two workers, from the start until the first worker has taken a connection.
abbrev one_slot : FdQueue
one_slot = queue_init (0 ∷ []) 1

abbrev beginning : Pool
beginning = started one_slot 2 zeroed

beginning-IsSound : IsSound beginning
unfolding queue_init
beginning-IsSound =
    started-IsSound one_slot 2 zeroed
      (queue_init-IsQueue (0 ∷ []) 1 refl (omega arith) (omega arith)).0 refl refl (omega arith)
      refl refl refl

abbrev arrived_one : Pool
arrived_one = record beginning { acceptor = counting 7; arrived = 7 ∷ [] }

abbrev counted_one : Pool
counted_one = record arrived_one {
  acceptor = pushing 7;
  metrics = metrics_connection_accepted zeroed;
}

abbrev queued_one : Pool
queued_one = record counted_one {
  acceptor = signalling_not_empty;
  metrics = metrics_queue_depth_set 1 (metrics_connection_accepted zeroed);
  queue = record {
    fds = 7 ∷ [];
    capacity = 1;
    head = 0;
    tail = 0;
    count = 1;
    total_enqueued = 1;
    acceptor_blocked = 0;
  };
}

pushed_lem : after_push 7 (queue_push one_slot 7 counted_one.metrics) counted_one ≡ some queued_one
unfolding after_push queue_push enqueue queue_init started
pushed_lem = refl

queued_one_run : Reachable beginning queued_one
unfolding started
queued_one_run =
    after counted_one
      (after arrived_one (after beginning at_start (accepts 7 refl)) (counts 7 refl))
      (subst (Step counted_one) pushed_lem (pushes 7 refl))

Reachable-IsSound_example : IsSound queued_one
Reachable-IsSound_example = Reachable-IsSound beginning queued_one queued_one_run beginning-IsSound

queued_one_pops :
    Step queued_one (after_pop 1 (queue_pop queued_one.queue queued_one.metrics) queued_one)
unfolding started
queued_one_pops = pops 1 refl

Step-some_example : after_pop 1 (queue_pop queued_one.queue queued_one.metrics) queued_one ≢ none
Step-some_example = Step-some beginning queued_one queued_one_run beginning-IsSound queued_one_pops

Reachable-IsAwake_example : IsAwake queued_one
Reachable-IsAwake_example =
    Reachable-IsAwake one_slot 2 zeroed queued_one beginning-IsSound queued_one_run

-- A port behind a space and a sign.
plus_80-Denotes : Denotes (32 ∷ codes "+80") 80
plus_80-Denotes = record {
  spaces = 32 ∷ [];
  sign = codes "+";
  digits = codes "80";
  spelled = refl;
  only_space = (refl, tt);
  signed = plus;
  some_digit = omega arith;
  only_digits = (refl, (refl, tt));
  denoted = refl;
  port = omega arith;
}

parse_port-Denotes_example :
    (parse_port (some (32 ∷ codes "+80")) 9110 ≡ done 80) ↔ Denotes (32 ∷ codes "+80") 80
parse_port-Denotes_example = parse_port-Denotes 32 (codes "+80") 9110 80

plus_80_accepted : parse_port (some (32 ∷ codes "+80")) 9110 ≡ done 80
plus_80_accepted = (parse_port-Denotes 32 (codes "+80") 9110 80).1 plus_80-Denotes

-- A port, two workers, room for 8 and no metrics; the environment names a port of its own.
some_arguments :
    parse_arguments (codes "8080" ∷ codes "2" ∷ codes "8" ∷ codes "0" ∷ []) (some (codes "9000"))
    ≡ done (record { portnum = 8080; num_workers = pos 2; queue_depth = pos 8; metrics_port = 0 })
unfolding parse_arguments parse_port check_port check_range check_settings atoi strtol skip_space
    read_sign read_signed read_digits
some_arguments = refl

-- The start with these arguments, where all calls succeed.
abbrev all_succeed : StartCalls
all_succeed = record {
  metrics = record {
    socket = Life.socket_fd 3;
    setsockopt = none;
    bind = none;
    listen = none;
    create = none;
  };
  queue_memory = some (replicate 8 0);
  workers_memory = true;
  creates = λ i. true;
  listen = record { socket = some 4; setsockopt = true; bind = true; listen = true };
}

abbrev endpoint_down : Life.Server
endpoint_down = record {
  started = false;
  running = false;
  listen_fd = none;
  open_fds = 0 ∷ 1 ∷ 2 ∷ [];
  threads = 0;
  errno = Life.ealready;
}

abbrev given : List (List ℕ)
given = codes "8080" ∷ codes "2" ∷ codes "8" ∷ codes "9110" ∷ []

abbrev asked_for : Settings
asked_for = record { portnum = 8080; num_workers = pos 2; queue_depth = pos 8; metrics_port = 9110 }

given-accepted : parse_arguments given none ≡ done asked_for
unfolding parse_arguments parse_port check_port check_range check_settings atoi strtol skip_space
    read_sign read_signed read_digits
given-accepted = refl

start_main-Ends_example :
    Ends
      (IsUp (0 ∷ 1 ∷ 2 ∷ []) asked_for)
      (Failed all_succeed asked_for)
      (start_main all_succeed given none zeroed endpoint_down)
start_main-Ends_example =
    start_main-Ends all_succeed given none asked_for zeroed (0 ∷ 1 ∷ 2 ∷ []) endpoint_down
      given-accepted (omega arith) (omega arith)
      (λ slots e.
        let same : slots ≡ replicate 8 0 = cc in ap length same ∙ length-replicate {A = ℕ} 8 0)
      (down refl refl refl refl refl) refl
