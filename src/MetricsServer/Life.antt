-- ===== src/MetricsServer/Life.antt =====
-- src/metrics_server.c, the life of the endpoint: `open_listener`, `metrics_server_start` and
-- `metrics_server_stop`.
pub mod Owning
use concurrent_servers.Prelude.{
  remove, ℕ, ◌+◌, ◌-◌, List, [], ◌∷◌, Option, none, some, Bool, true, false, ◌==◌, if◌then◌else◌,
}
use concurrent_servers.Sys.{Errno, other}

-- What socket() answers.
pub data SocketResult : Type 0 where
  socket_fd : ℕ → SocketResult
  socket_failed : Errno → SocketResult

-- What the calls of `metrics_server_start` answer; `none` is success.
pub record Calls : Type 0 where
  pub socket : SocketResult
  pub setsockopt : Option Errno
  pub bind : Option Errno
  pub listen : Option Errno
  pub create : Option Errno

-- The statics of the file (`listen_fd` is -1 as `none`), with the descriptors that the process has
-- open, the number of threads that run `accept_loop`, and errno.
pub record Server : Type 0 where
  pub started : Bool
  pub running : Bool
  pub listen_fd : Option ℕ
  pub open_fds : List ℕ
  pub threads : ℕ
  pub errno : Errno

abbrev pub ealready : Errno
ealready = other 114

abbrev pub close_fd : Option ℕ → List ℕ → List ℕ
close_fd none xs = xs
close_fd (some fd) xs = remove fd xs

-- The label `fail`: errno is kept over close.
pub fail : ℕ → Errno → Server → Option ℕ × Server
fail fd saved s = (none, record s { open_fds = remove fd s.open_fds; errno = saved })

pub open_listener : Calls → Server → Option ℕ × Server
open_listener c s = elim c.socket [
  | socket_failed e ↦ (none, record s { errno = e })
  | socket_fd fd ↦
      let s' = record s { open_fds = fd ∷ s.open_fds } in
      elim c.setsockopt [
        | some e ↦ fail fd e s'
        | none ↦ elim c.bind [
          | some e ↦ fail fd e s'
          | none ↦ elim c.listen [ some e ↦ fail fd e s' | none ↦ (some fd, s') ]
        ]
      ]
]

-- What follows open_listener; true is the answer 0, false is -1.
pub start_thread : Option Errno → Option ℕ × Server → Bool × Server
start_thread create (none, s) = (false, record s { listen_fd = none })
start_thread none (some fd, s) = (
  true,
  record s { listen_fd = some fd; running = true; threads = s.threads + 1; started = true },
)
start_thread (some rc) (some fd, s) = (
  false,
  record s { running = false; open_fds = remove fd s.open_fds; listen_fd = none; errno = rc },
)

pub start : Calls → Server → Bool × Server
start c s =
    if s.started
    then (false, record s { errno = ealready })
    else start_thread c.create (open_listener c s)

pub stop : Server → Server
stop s =
    if s.started
    then record s {
      running = false;
      threads = s.threads - 1;
      open_fds = close_fd s.listen_fd s.open_fds;
      listen_fd = none;
      started = false;
    }
    else s
