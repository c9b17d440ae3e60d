-- ===== src/Threadpool/Startup.antt =====
-- src/threadpool_server.c: `main` from its arguments to its loop, and what follows the loop, on the
-- models of the metrics, of their endpoint and of the queue.
pub mod Up
use concurrent_servers.Prelude.{
  ℕ, zero, suc, ◌+◌, List, Option, none, some, Bool, true, false, ltb, if◌then◌else◌, ℤ, pos,
  negsuc,
}
use concurrent_servers.Exec.{Exec, done, died, ◌⟫=◌}
use concurrent_servers.Sys.Numbers.{natural}
use concurrent_servers.Text.{codes}
use concurrent_servers.Metrics.{Registry, metrics_init}
use concurrent_servers.MetricsServer.Life
use concurrent_servers.Sockets.{Listen, listen_inet_socket}
use concurrent_servers.Threadpool.Arguments.{Settings, parse_arguments}
use concurrent_servers.Threadpool.Queue.{queue_init}
use concurrent_servers.Threadpool.Threads.{Pool, started}

-- What the calls answer: those of the endpoint, xmalloc for the queue, with what the memory holds, and
-- for the workers, pthread_create by the worker, and those of listen_inet_socket.
pub record StartCalls : Type 0 where
  pub metrics : Life.Calls
  pub queue_memory : Option (List ℕ)
  pub workers_memory : Bool
  pub creates : ℕ → Bool
  pub listen : Listen

pub record Running : Type 0 where
  pub pool : Pool
  pub endpoint : Life.Server
  pub listener : ℕ

pub after_start : Bool × Life.Server → Exec Life.Server
after_start (false, e) = died
after_start (true, e) = done e

pub open_endpoint : Life.Calls → ℕ → Life.Server → Exec Life.Server
open_endpoint c port e = if ltb 0 port then after_start (Life.start c e) else done e

pub xmalloc : Option (List ℕ) → Exec (List ℕ)
xmalloc none = died
xmalloc (some slots) = done slots

-- The loop over pthread_create, with `n` rounds left at worker `i`; the answer is how many it has made.
pub create_workers : (ℕ → Bool) → ℕ → ℕ → Exec ℕ
create_workers creates zero i = done i
create_workers creates (suc n) i =
    let rest = create_workers creates n (i + 1) in if creates i then rest else died

pub start_server : StartCalls → Settings → Registry → Life.Server → Exec Running
start_server c settings g e = open_endpoint c.metrics settings.metrics_port e ⟫= λ endpoint.
    xmalloc c.queue_memory ⟫= λ slots.
    (if c.workers_memory then create_workers c.creates (natural settings.num_workers) 0 else died)
    ⟫= λ num_workers. listen_inet_socket c.listen ⟫= λ listener. done (record {
      pool =
          started (queue_init slots (natural settings.queue_depth)) num_workers
            (metrics_init (some (codes "threadpool")) g);
      endpoint = endpoint;
      listener = listener;
    })

pub start_main :
    StartCalls → List (List ℕ) → Option (List ℕ) → Registry → Life.Server → Exec Running
start_main c args env g e = parse_arguments args env ⟫= λ settings. start_server c settings g e

-- What follows the loop.
pub shut_down : Running → Running
shut_down s = record s { endpoint = Life.stop s.endpoint }
