-- ===== src/MetricsServer/Life/Owning.antt =====
-- What the endpoint owns over any sequence of starts and stops.
use concurrent_servers.Prelude.{
  remove, remove_head, ℕ, ◌+◌, List, [], ◌∷◌, ◌≡◌, refl, sym, ap, subst, ◌∙◌, Option, none, some,
  true, false, if◌then◌else◌, arith,
}
use concurrent_servers.Sys.{Errno}
use concurrent_servers.MetricsServer.Life.{
  SocketResult, socket_fd, socket_failed, Calls, Server, ealready, close_fd, fail, open_listener,
  start_thread, start, stop,
}

-- Started or not: the listener is the one descriptor open besides `others`, and one thread runs; or
-- there is neither.
pub data Owns (others : List ℕ) (s : Server) : Type 0 where
  up :
      (fd : ℕ)
      → s.started ≡ true
      → s.running ≡ true
      → s.listen_fd ≡ some fd
      → s.open_fds ≡ fd ∷ others
      → s.threads ≡ 1
      → Owns others s
  down :
      s.started ≡ false
      → s.running ≡ false
      → s.listen_fd ≡ none
      → s.open_fds ≡ others
      → s.threads ≡ 0
      → Owns others s

-- The first call that fails.
abbrev pub first_of : Option Errno → Option Errno → Option Errno
first_of none rest = rest
first_of (some e) rest = some e

abbrev socket_error : SocketResult → Option Errno
socket_error (socket_fd fd) = none
socket_error (socket_failed e) = some e

abbrev pub first_failure : Calls → Option Errno
first_failure c =
    first_of (socket_error c.socket)
      (first_of c.setsockopt (first_of c.bind (first_of c.listen c.create)))

abbrev pub descriptor : SocketResult → ℕ
descriptor (socket_fd fd) = fd
descriptor (socket_failed e) = 0

-- What a start comes to.
abbrev pub started_with : ℕ → Server → Server
started_with fd s = record s {
  started = true;
  running = true;
  listen_fd = some fd;
  open_fds = fd ∷ s.open_fds;
  threads = s.threads + 1;
}

abbrev pub StartIs : Calls → Server → Option Errno → Type 0
StartIs c s (some e) = start c s ≡ (false, record s { errno = e })
StartIs c s none = start c s ≡ (true, started_with (descriptor c.socket) s)

start_stopped :
    (s : Server)
    → s.started ≡ false
    → s.running ≡ false
    → s.listen_fd ≡ none
    → (so : SocketResult) (opt bind listen create : Option Errno)
    → StartIs
        (record { socket = so; setsockopt = opt; bind = bind; listen = listen; create = create })
        s
        (first_failure
          (record { socket = so; setsockopt = opt; bind = bind; listen = listen; create = create }))
unfolding start open_listener start_thread fail
start_stopped s a b c (socket_failed e) opt bind listen create = ground arith
start_stopped s a b c (socket_fd fd) (some e) bind listen create =
    ground (arith, remove_head fd s.open_fds)
start_stopped s a b c (socket_fd fd) none (some e) listen create =
    ground (arith, remove_head fd s.open_fds)
start_stopped s a b c (socket_fd fd) none none (some e) create =
    ground (arith, remove_head fd s.open_fds)
start_stopped s a b c (socket_fd fd) none none none (some e) =
    ground (arith, remove_head fd s.open_fds)
start_stopped s a b c (socket_fd fd) none none none none = ground (arith, remove_head fd s.open_fds)

start_again : (c : Calls) (s : Server) → s.started ≡ true → StartIs c s (some ealready)
unfolding start
start_again c s e = ground arith

-- What one start does to an endpoint in any state: if it is up already, or a call fails, the answer is
-- -1 with the errno of the first failure and nothing has changed, the listener that was opened on the
-- way included; otherwise the answer is 0 and the endpoint is up.
pub start-StartIs :
    (c : Calls) (others : List ℕ) (s : Server)
    → Owns others s
    → StartIs c s (if s.started then some ealready else first_failure c)
start-StartIs c others s (up fd started running listen_fd open_fds threads) =
    subst (StartIs c s) (ap (λ b. if b then some ealready else first_failure c) (sym started))
      (start_again c s started)
start-StartIs c others s (down started running listen_fd open_fds threads) =
    subst (StartIs c s) (ap (λ b. if b then some ealready else first_failure c) (sym started))
      (start_stopped s started running listen_fd c.socket c.setsockopt c.bind c.listen c.create)

-- A call of the endpoint: a start with what its calls answer, or a stop.
pub data Call : Type 0 where
  started_by : Calls → Call
  stopped_by : Call

pub run : List Call → Server → Server
run [] s = s
run (started_by c ∷ calls) s = run calls (start c s).1
run (stopped_by ∷ calls) s = run calls (stop s)

pub StartIs-Owns :
    (c : Calls) (others : List ℕ) (s : Server) (e : Option Errno)
    → Owns others s
    → (s.started ≡ true → e ≡ some ealready)
    → StartIs c s e
    → Owns others (start c s).1
StartIs-Owns c others s (some e) (up fd started running listen_fd open_fds threads) h is =
    rw is (up fd started running listen_fd open_fds threads)
StartIs-Owns c others s (some e) (down started running listen_fd open_fds threads) h is =
    rw is (down started running listen_fd open_fds threads)
StartIs-Owns c others s none (up fd started running listen_fd open_fds threads) h is =
    absurd (let clash = h started in cc)
StartIs-Owns c others s none (down started running listen_fd open_fds threads) h is = rw is (
    up (descriptor c.socket) refl refl refl (ap (◌∷◌ (descriptor c.socket)) open_fds)
      (omega (arith, threads)))

pub stop-Owns :
    (others : List ℕ) (s : Server)
    → Owns others s
    → Owns others (stop s) × ((stop s).started ≡ false)
unfolding stop
stop-Owns others s (up fd started running listen_fd open_fds threads) = rw started (
  down refl refl refl
      (ap (λ l. close_fd l s.open_fds) listen_fd ∙ ap (remove fd) open_fds ∙ remove_head fd others)
      (omega (arith, threads)),
  refl,
)
stop-Owns others s (down started running listen_fd open_fds threads) =
    rw started (down refl running listen_fd open_fds threads, refl)

-- Whatever starts and stops the process calls, and whichever of their calls fail, the endpoint is
-- either up, with its listener the one descriptor of its own that is open and one thread that is told
-- to run, or down with neither; so no descriptor and no thread is left behind.
pub run-Owns :
    (others : List ℕ) (calls : List Call) (s : Server) → Owns others s → Owns others (run calls s)
unfolding run
run-Owns others [] s h = h
run-Owns others (started_by c ∷ calls) s h =
    run-Owns others calls (start c s).1
      (StartIs-Owns c others s _ h (λ e. rw e refl) (start-StartIs c others s h))
run-Owns others (stopped_by ∷ calls) s h = run-Owns others calls (stop s) (stop-Owns others s h).0
