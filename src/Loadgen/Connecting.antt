-- ===== src/Loadgen/Connecting.antt =====
-- src/bench/loadgen.c: `connect_with_timeout` and `connect_to`, from the answers of their calls. `none`
-- is a call that succeeds.
use concurrent_servers.Prelude.{
  remove, remove_head, ℕ, List, [], ◌∷◌, ◌++◌, Option, none, some, ◌≡◌, refl, ap, ap₂, subst, sym,
  ◌∙◌, ◌⊎◌, inl, inr, All,
}
use concurrent_servers.Sys.{Errno, etimedout}

pub data ConnectAnswer : Type 0 where
  connected in_progress : ConnectAnswer
  connect_failed : Errno → ConnectAnswer

pub data PollAnswer : Type 0 where
  writable poll_timeout : PollAnswer
  poll_failed : Errno → PollAnswer

-- getsockopt with the error of the socket: it fails, or there is one, or none.
pub data SocketError : Type 0 where
  getsockopt_failed socket_error : Errno → SocketError
  no_error : SocketError

pub record Calls : Type 0 where
  pub getfl : Option Errno
  pub setfl : Option Errno
  pub connect : ConnectAnswer
  pub poll : PollAnswer
  pub soerr : SocketError
  pub restore : Option Errno

-- What follows a connect in progress: errno if it fails.
pub await : PollAnswer → SocketError → Option Errno → Option Errno
await (poll_failed e) soerr restore = some e
await poll_timeout soerr restore = some etimedout
await writable (getsockopt_failed e) restore = some e
await writable (socket_error e) restore = some e
await writable no_error restore = restore

-- `none` is the answer 0, `some e` is -1 with this errno.
pub after_flags : ConnectAnswer → Calls → Option Errno
after_flags connected c = c.restore
after_flags in_progress c = await c.poll c.soerr c.restore
after_flags (connect_failed e) c = some e

-- By what the two calls of fcntl before the connect answer.
pub set_flags : Option Errno → Option Errno → Calls → Option Errno
set_flags (some e) setfl c = some e
set_flags none (some e) c = some e
set_flags none none c = after_flags c.connect c

pub connect_with_timeout : Calls → Option Errno
connect_with_timeout c = set_flags c.getfl c.setfl c

-- An address of getaddrinfo: the descriptor of its socket, if there is one, and the calls on it.
pub record Address : Type 0 where
  pub socket : Option ℕ
  pub calls : Calls

-- What the loop of `connect_to` does with the descriptor of one address. `next` is the rest of it, by
-- the descriptors that are open.
pub try_socket : ℕ → Option Errno → List ℕ → (List ℕ → Option ℕ × List ℕ) → Option ℕ × List ℕ
try_socket fd none open_fds next = (some fd, fd ∷ open_fds)
try_socket fd (some e) open_fds next = next (remove fd (fd ∷ open_fds))

pub try_address : Option ℕ → Calls → List ℕ → (List ℕ → Option ℕ × List ℕ) → Option ℕ × List ℕ
try_address none c open_fds next = next open_fds
try_address (some fd) c open_fds next = try_socket fd (connect_with_timeout c) open_fds next

-- The loop of `connect_to`.
pub connect_to : List Address → List ℕ → Option ℕ × List ℕ
connect_to [] open_fds = (none, open_fds)
connect_to (a ∷ addresses) open_fds = try_address a.socket a.calls open_fds (connect_to addresses)

-- The calls with which the connection is there: it was made at once, or within the time and without an
-- error of the socket, and every change of the flags has succeeded.
abbrev pub Connects : Calls → Type 0
Connects c =
    (c.getfl ≡ none)
    × (c.setfl ≡ none)
    × ((c.connect ≡ connected)
        ⊎ ((c.connect ≡ in_progress) × (c.poll ≡ writable) × (c.soerr ≡ no_error)))
    × (c.restore ≡ none)

-- An address with which there is no connection.
abbrev pub Unusable : Address → Type 0
Unusable a = (a.socket ≡ none) ⊎ (¬ Connects a.calls)

await-none :
    (p : PollAnswer) (e : SocketError) (r : Option Errno)
    → await p e r ≡ none
    → (p ≡ writable) × (e ≡ no_error) × (r ≡ none)
unfolding await
await-none (poll_failed x) e r h = cc
await-none poll_timeout e r h = cc
await-none writable (getsockopt_failed x) r h = cc
await-none writable (socket_error x) r h = cc
await-none writable no_error r h = (refl, refl, h)

after_flags-none :
    (a : ConnectAnswer) (c : Calls)
    → after_flags a c ≡ none
    → ((a ≡ connected) ⊎ ((a ≡ in_progress) × (c.poll ≡ writable) × (c.soerr ≡ no_error)))
      × (c.restore ≡ none)
unfolding after_flags
after_flags-none connected c h = (inl refl, h)
after_flags-none in_progress c h =
    let (w, e, r) = await-none c.poll c.soerr c.restore h in (inr (refl, w, e), r)
after_flags-none (connect_failed x) c h = cc

set_flags-none :
    (g s : Option Errno) (c : Calls)
    → set_flags g s c ≡ none
    → (g ≡ none) × (s ≡ none) × (after_flags c.connect c ≡ none)
unfolding set_flags
set_flags-none (some e) s c h = cc
set_flags-none none (some e) c h = cc
set_flags-none none none c h = (refl, refl, h)

pub connect_with_timeout-none :
    (c : Calls)
    → (connect_with_timeout c ≡ none → Connects c) × (Connects c → connect_with_timeout c ≡ none)
unfolding connect_with_timeout set_flags after_flags await
connect_with_timeout-none c = (
  λ h.
      let (g, s, f) = set_flags-none c.getfl c.setfl c h in
      let (way, restored) = after_flags-none c.connect c f in (g, s, way, restored),
  λ (g, s, way, r). ap₂ (λ x y. set_flags x y c) g s ∙ elim way [
    | inl e ↦ ap (λ a. after_flags a c) e ∙ r
    | inr (e, w, x) ↦ ap (λ a. after_flags a c) e ∙ ap₂ (λ p q. await p q c.restore) w x ∙ r
  ],
)

-- How the search for an address ends.
pub data Opens (addresses : List Address) (open_fds : List ℕ) : Option ℕ × List ℕ → Type 0 where
  opens :
      (before : List Address) (a : Address) (rest : List Address) (fd : ℕ)
      → addresses ≡ before ++ (a ∷ rest)
      → a.socket ≡ some fd
      → Connects a.calls
      → All Unusable before
      → Opens addresses open_fds (some fd, fd ∷ open_fds)
  gives_up : All Unusable addresses → Opens addresses open_fds (none, open_fds)

later :
    (a : Address) (addresses : List Address) (open_fds : List ℕ) {r : Option ℕ × List ℕ}
    → Unusable a
    → Opens addresses open_fds r
    → Opens (a ∷ addresses) open_fds r
later a addresses open_fds u (opens before b rest fd e socket connects skipped) =
    opens (a ∷ before) b rest fd (ap (◌∷◌ a) e) socket connects (u, skipped)
later a addresses open_fds u (gives_up skipped) = gives_up (u, skipped)

-- `connect_to` answers the descriptor of the first address with which there is a connection, and leaves
-- it alone open of all that it has opened; or there is no such address, and it leaves none open.
pub connect_to-Opens :
    (addresses : List Address) (open_fds : List ℕ)
    → Opens addresses open_fds (connect_to addresses open_fds)
unfolding connect_to try_address try_socket
connect_to-Opens [] open_fds = gives_up tt
connect_to-Opens (a ∷ addresses) open_fds =
    by_socket a.socket refl (connect_to-Opens addresses open_fds)
  where
    by_calls :
        (fd : ℕ) (e : Option Errno)
        → a.socket ≡ some fd
        → connect_with_timeout a.calls ≡ e
        → Opens addresses open_fds (connect_to addresses open_fds)
        → Opens (a ∷ addresses) open_fds (try_socket fd e open_fds (connect_to addresses))
    by_calls fd none s h rest =
        opens [] a addresses fd refl s ((connect_with_timeout-none a.calls).0 h) tt
    by_calls fd (some e) s h rest =
        subst (λ xs. Opens (a ∷ addresses) open_fds (connect_to addresses xs))
          (sym (remove_head fd open_fds))
          (later a addresses open_fds
            (inr (λ c. let works = (connect_with_timeout-none a.calls).1 c in cc (works, h))) rest)

    by_socket :
        (o : Option ℕ)
        → a.socket ≡ o
        → Opens addresses open_fds (connect_to addresses open_fds)
        → Opens (a ∷ addresses) open_fds (try_address o a.calls open_fds (connect_to addresses))
    by_socket none s rest = later a addresses open_fds (inl s) rest
    by_socket (some fd) s rest = by_calls fd (connect_with_timeout a.calls) s refl rest
