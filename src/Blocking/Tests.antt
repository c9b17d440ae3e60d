-- ===== src/Blocking/Tests.antt =====
-- Examples of src/sequential_server.c and src/threaded_server.c.
use concurrent_servers.Prelude.{◌+◌, ◌≡◌, refl, List, [], ◌∷◌, true, false, arith}
use concurrent_servers.Sys.{received, wrote, econnaborted, timespec}
use concurrent_servers.Sys.Streams.{stream}
use concurrent_servers.Metrics.{zeroed}
use concurrent_servers.Protocol.{returned, serve_ok}
use concurrent_servers.Protocol.Conversation.{ending}
use concurrent_servers.Protocol.Serving.{serve_connection-Answered}
use concurrent_servers.Blocking.{
  Client, Accept, incoming, accept_failed, Server, serve_client, serve_clients, Threads,
  on_accepted, end_thread, accepts, ends,
}
use concurrent_servers.Blocking.InTurn.{clients, loop_end, Turns, serve_clients-Turns}
use concurrent_servers.Blocking.Owned.{IsOwned, Reachable, at_start, after, Reachable-IsOwned}

-- A client that leaves at once, and one that says nothing.
abbrev brief : Client
brief = record {
  fd = 5;
  clock = λ t. timespec 0 (t + 5);
  recvs = received [] ∷ [];
  sends = wrote 1 ∷ [];
}

abbrev silent : Client
silent = record { fd = 6; clock = λ t. timespec 0 (t + 5); recvs = []; sends = wrote 1 ∷ [] }

abbrev some_accepts : List Accept
some_accepts = incoming brief ∷ accept_failed econnaborted ∷ incoming silent ∷ incoming brief ∷ []

abbrev fresh : Server
fresh = record { metrics = zeroed; open_fds = 3 ∷ []; visits = [] }

serve_clients-Turns_example :
    Turns (clients some_accepts) (loop_end some_accepts) fresh (serve_clients some_accepts fresh)
serve_clients-Turns_example = serve_clients-Turns some_accepts fresh (
  ((omega arith, tt), (omega arith, tt)),
  ((tt, (omega arith, tt)), (((omega arith, tt), (omega arith, tt)), tt)),
)

-- The first client has its thread and leaves; no thread could be made for the second.
abbrev listening : Threads
listening = record { runs = true; serving = []; open_fds = 3 ∷ [] }

abbrev later_on : Threads
later_on = end_thread brief [] (on_accepted silent false (on_accepted brief true listening))

brief_returns : (serve_client brief zeroed).0 ≡ returned serve_ok
unfolding ending stream
brief_returns =
    (serve_connection-Answered brief.clock brief.recvs brief.sends zeroed (omega arith, tt)
      (omega arith, tt) (omega arith)).status

later_on-Reachable : Reachable listening later_on
unfolding on_accepted
later_on-Reachable =
    after _ (after _ (after _ at_start (accepts brief true refl)) (accepts silent false refl))
      (ends brief [] [] zeroed serve_ok refl refl brief_returns)

Reachable-IsOwned_example : IsOwned (3 ∷ []) later_on
Reachable-IsOwned_example = Reachable-IsOwned listening later_on refl later_on-Reachable
