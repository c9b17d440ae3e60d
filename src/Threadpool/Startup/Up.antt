-- ===== src/Threadpool/Startup/Up.antt =====
-- src/threadpool_server.c: what the start of `main` comes to.
use concurrent_servers.Prelude.{
  ℕ, zero, suc, ◌+◌, ◌<◌, ◌^◌, ◌≡◌, ◌≢◌, refl, sym, ap, ◌∙◌, subst, inl, inr, List, Option, none,
  some, Bool, true, false, ltb, if◌then◌else◌, Bool-cases, length, replicate, get_elem?, arith,
  ◌||◌,
}
use concurrent_servers.Exec.{
  Exec, done, died, ◌⟫=◌, Ends, completed, gave_up, Ends-bind, Ends-because, bind-done,
}
use concurrent_servers.Sys.{Errno}
use concurrent_servers.Sys.Numbers.{natural, below_one, positive}
use concurrent_servers.Text.{codes}
use concurrent_servers.Metrics.{Registry, metrics_init}
use concurrent_servers.MetricsServer.Life
use concurrent_servers.MetricsServer.Life.Owning.{
  Owns, StartIs, first_failure, start-StartIs, StartIs-Owns, stop-Owns,
}
use concurrent_servers.Sockets.{Refused, listen_inet_socket-Ends}
use concurrent_servers.Threadpool.Arguments.{
  Settings, parse_arguments, check_settings, parse_port, port_or, default_port,
  default_metrics_port,
}
use concurrent_servers.Threadpool.Queue.{queue_init}
use concurrent_servers.Threadpool.Queue.Fifo.{queue_init-IsQueue}
use concurrent_servers.Threadpool.Threads.{started, testing}
use concurrent_servers.Threadpool.Threads.Sound.{IsSound}
use concurrent_servers.Threadpool.Threads.Steps.{started-IsSound}
use concurrent_servers.Threadpool.Startup.{
  StartCalls, Running, after_start, open_endpoint, xmalloc, create_workers, start_server,
  start_main, shut_down,
}

-- The server at its loop: the threads' state is sound and has the workers and the room that were asked
-- for, the metrics endpoint is up if it was asked for, and a stop leaves nothing of it.
pub record IsUp (others : List ℕ) (settings : Settings) (s : Running) : Type 0 where
  pub sound : IsSound s.pool
  pub workers : s.pool.workers ≡ replicate (natural settings.num_workers) testing
  pub room : s.pool.queue.capacity ≡ natural settings.queue_depth
  pub endpoint : Owns others s.endpoint
  pub asked : s.endpoint.started ≡ ltb 0 settings.metrics_port
  pub stopped : Owns others (shut_down s).endpoint × ((shut_down s).endpoint.started ≡ false)

-- Why it does not come to its loop.
pub data Failed (c : StartCalls) (settings : Settings) : Type 0 where
  no_endpoint : 0 < settings.metrics_port → first_failure c.metrics ≢ none → Failed c settings
  no_queue : c.queue_memory ≡ none → Failed c settings
  no_memory : c.workers_memory ≡ false → Failed c settings
  no_thread : (i : ℕ) → i < natural settings.num_workers → c.creates i ≡ false → Failed c settings
  no_listener : Refused c.listen → Failed c settings

module _ (others : List ℕ) (c : StartCalls) (settings : Settings) where
  abbrev EndpointIs : Life.Server → Type 0
  EndpointIs e = Owns others e × (e.started ≡ ltb 0 settings.metrics_port)

  -- By how the calls of the endpoint go.
  started_endpoint :
      (e : Life.Server) (f : Option Errno)
      → Owns others e
      → e.started ≡ false
      → ltb 0 settings.metrics_port ≡ true
      → f ≡ first_failure c.metrics
      → StartIs c.metrics e f
      → Owns others (Life.start c.metrics e).1
      → Ends EndpointIs (Failed c settings) (after_start (Life.start c.metrics e))
  unfolding after_start
  started_endpoint e (some x) owns off on is start after =
      subst (λ r. Ends EndpointIs (Failed c settings) (after_start r)) (sym start)
        (gave_up (no_endpoint (ground arith) (λ q. cc)))
  started_endpoint e none owns off on is start after =
      subst (λ r. Owns others r.1 → Ends EndpointIs (Failed c settings) (after_start r)) (sym start)
        (λ own. completed _ (own, sym on)) after

  open_endpoint-Ends :
      (e : Life.Server)
      → Owns others e
      → e.started ≡ false
      → Ends EndpointIs (Failed c settings) (open_endpoint c.metrics settings.metrics_port e)
  unfolding open_endpoint
  open_endpoint-Ends e owns off = elim (Bool-cases (ltb 0 settings.metrics_port)) [
    | inl on ↦
        let start = start-StartIs c.metrics others e owns in
        subst
          (λ b.
            Ends EndpointIs (Failed c settings)
              (if b then after_start (Life.start c.metrics e) else done e))
          (sym on)
          (started_endpoint e (if e.started then some Life.ealready else first_failure c.metrics)
            owns off on (ap (λ b. if b then some Life.ealready else first_failure c.metrics) off)
            start (StartIs-Owns c.metrics others e _ owns (λ h. rw h refl) start))
    | inr off_too ↦
        subst
          (λ b.
            Ends EndpointIs (Failed c settings)
              (if b then after_start (Life.start c.metrics e) else done e))
          (sym off_too) (completed e (owns, off ∙ sym off_too))
  ]

  xmalloc-Ends :
      (memory : Option (List ℕ))
      → c.queue_memory ≡ memory
      → Ends (λ slots. c.queue_memory ≡ some slots) (Failed c settings) (xmalloc memory)
  unfolding xmalloc
  xmalloc-Ends none h = gave_up (no_queue h)
  xmalloc-Ends (some slots) h = completed slots h

  create_workers-Ends :
      (n i : ℕ)
      → i + n ≡ natural settings.num_workers
      → Ends
          (λ k. k ≡ natural settings.num_workers)
          (Failed c settings)
          (create_workers c.creates n i)
  unfolding create_workers
  create_workers-Ends zero i e = completed i (omega (arith, e))
  create_workers-Ends (suc n) i e = elim (Bool-cases (c.creates i)) [
    | inl made ↦ rw made (create_workers-Ends n (i + 1) (omega (arith, e)))
    | inr failed ↦ rw failed (gave_up (no_thread i (omega (arith, e)) failed))
  ]

  all_workers-Ends :
      (memory : Bool)
      → c.workers_memory ≡ memory
      → Ends
          (λ k. k ≡ natural settings.num_workers)
          (Failed c settings)
          (if memory then create_workers c.creates (natural settings.num_workers) 0 else died)
  all_workers-Ends true there = create_workers-Ends (natural settings.num_workers) 0 (omega arith)
  all_workers-Ends false none_left = gave_up (no_memory none_left)

  start_server-Ends :
      (g : Registry) (e : Life.Server)
      → Owns others e
      → e.started ≡ false
      → ((slots : List ℕ)
          → c.queue_memory ≡ some slots
          → length slots ≡ natural settings.queue_depth)
      → 0 < natural settings.queue_depth
      → natural settings.queue_depth < 2 ^ 31
      → natural settings.num_workers < 2 ^ 31
      → Ends (IsUp others settings) (Failed c settings) (start_server c settings g e)
  unfolding start_server metrics_init shut_down started queue_init
  start_server-Ends g e owns off memory some_room small few =
      Ends-bind _ _ (open_endpoint-Ends e owns off) (λ endpoint (own, asked).
        Ends-bind _ _ (xmalloc-Ends c.queue_memory refl) (λ slots got.
          Ends-bind _ _ (all_workers-Ends c.workers_memory refl) (λ k all.
            Ends-bind _ _ (Ends-because (listen_inet_socket-Ends c.listen) no_listener)
              (λ fd opened.
                let depth = natural settings.queue_depth in
                let (queue, nothing) =
                  queue_init-IsQueue slots depth (memory slots got) some_room (omega arith) in
                completed _ (record {
                  sound =
                      started-IsSound (queue_init slots depth) k
                        (metrics_init (some (codes "threadpool")) g) queue nothing refl
                        (omega (arith, all)) refl refl refl;
                  workers = ap (λ j. replicate j testing) all;
                  room = refl;
                  endpoint = own;
                  asked = asked;
                  stopped = stop-Owns others endpoint own;
                })))))

check_settings-done : (s s' : Settings) → check_settings s ≡ done s' → 0 < natural s'.queue_depth
unfolding check_settings
check_settings-done s s' h = decided (below_one s.num_workers) (below_one s.queue_depth) refl h
  where
    decided :
        (x y : Bool)
        → below_one s.queue_depth ≡ y
        → ◌≡◌ {A = Exec Settings} (if x || y then died else done s) (done s')
        → 0 < natural s'.queue_depth
    decided true y e h = cc
    decided false true e h = cc
    decided false false e h =
        let same : s ≡ s' = cc in
        subst (λ t. 0 < natural t.queue_depth) same (positive s.queue_depth e)

parse_arguments-done :
    (args : List (List ℕ)) (env : Option (List ℕ)) (settings : Settings)
    → parse_arguments args env ≡ done settings
    → 0 < natural settings.queue_depth
unfolding parse_arguments
parse_arguments-done args env settings h =
    let (env_port, _, h1) = bind-done (parse_port env default_metrics_port) _ settings h in
    let (portnum, _, h2) =
      bind-done (port_or (get_elem? args 0) default_port default_port) _ settings h1 in
    let (metrics_port, _, h3) =
      bind-done (port_or (get_elem? args 3) default_metrics_port env_port) _ settings h2 in
    check_settings-done _ settings h3

-- With arguments that are accepted, `main` comes to its loop, in a sound state of the threads with as
-- many workers and as much room as were asked for, and the metrics endpoint up exactly where its port
-- is not 0; or one of the calls has failed, and the process ends. A shutdown closes the endpoint. The
-- numbers fit an int, xmalloc gives the memory it is asked for, and the endpoint is down before.
pub start_main-Ends :
    (c : StartCalls) (args : List (List ℕ)) (env : Option (List ℕ)) (settings : Settings)
    (g : Registry) (others : List ℕ) (e : Life.Server)
    → parse_arguments args env ≡ done settings
    → natural settings.queue_depth < 2 ^ 31
    → natural settings.num_workers < 2 ^ 31
    → ((slots : List ℕ) → c.queue_memory ≡ some slots → length slots ≡ natural settings.queue_depth)
    → Owns others e
    → e.started ≡ false
    → Ends (IsUp others settings) (Failed c settings) (start_main c args env g e)
unfolding start_main
start_main-Ends c args env settings g others e accepted small few memory owns off =
    subst (λ x. Ends (IsUp others settings) (Failed c settings) (x ⟫= λ s. start_server c s g e))
      (sym accepted)
      (start_server-Ends others c settings g e owns off memory
        (parse_arguments-done args env settings accepted) small few)
