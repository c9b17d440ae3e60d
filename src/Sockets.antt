-- ===== src/Sockets.antt =====
-- src/utils.c, `listen_inet_socket`, from the answers of its calls; perror_die ends the process.
use concurrent_servers.Prelude.{ℕ, Option, none, some, ◌≡◌, refl, Bool, true, false, if◌then◌else◌}
use concurrent_servers.Exec.{Exec, done, died, Ends, completed, gave_up}

-- The descriptor of socket, if it gives one, and whether the other calls succeed.
pub record Listen : Type 0 where
  pub socket : Option ℕ
  pub setsockopt : Bool
  pub bind : Bool
  pub listen : Bool

-- What follows the call of socket.
pub set_up : Option ℕ → Listen → Exec ℕ
set_up none c = died
set_up (some fd) c =
    if c.setsockopt then (if c.bind then (if c.listen then done fd else died) else died) else died

pub listen_inet_socket : Listen → Exec ℕ
listen_inet_socket c = set_up c.socket c

-- A call of it has failed.
pub data Refused (c : Listen) : Type 0 where
  no_socket : c.socket ≡ none → Refused c
  no_option : c.setsockopt ≡ false → Refused c
  not_bound : c.bind ≡ false → Refused c
  not_listening : c.listen ≡ false → Refused c

-- It gives the descriptor of socket, or a call has failed.
pub listen_inet_socket-Ends :
    (c : Listen) → Ends (λ fd. c.socket ≡ some fd) (Refused c) (listen_inet_socket c)
unfolding listen_inet_socket set_up
listen_inet_socket-Ends c = by_socket c.socket refl
  where
    by_calls :
        (fd : ℕ) (x y z : Bool)
        → c.socket ≡ some fd
        → c.setsockopt ≡ x
        → c.bind ≡ y
        → c.listen ≡ z
        → Ends
            (λ fd. c.socket ≡ some fd)
            (Refused c)
            (if x then (if y then (if z then done fd else died) else died) else died)
    by_calls fd false y z s e f g = gave_up (no_option e)
    by_calls fd true false z s e f g = gave_up (not_bound f)
    by_calls fd true true false s e f g = gave_up (not_listening g)
    by_calls fd true true true s e f g = completed fd s

    by_socket :
        (o : Option ℕ) → c.socket ≡ o → Ends (λ fd. c.socket ≡ some fd) (Refused c) (set_up o c)
    by_socket none s = gave_up (no_socket s)
    by_socket (some fd) s = by_calls fd c.setsockopt c.bind c.listen s refl refl refl
